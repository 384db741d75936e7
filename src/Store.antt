-- ===== src/Store.antt =====
-- The database that the services share (server/prisma/schema.prisma): its rows, its transactions,
-- and what a transaction is held to.
pub mod Rows
pub mod Tx
pub mod Action
pub mod Respects
pub mod At
pub mod Holds
pub mod Gives
