-- ===== src/Tenancy.antt =====
-- server/src/common/tenancy: what a transaction of one app leaves of the rows of every other app.
pub mod NewRows
pub mod Agreements
pub mod Isolation
pub mod Writes
pub mod OwnRows
pub mod Requests
pub mod Disputes
pub mod Proofs
pub mod Webhooks
