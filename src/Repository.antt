-- ===== src/Repository.antt =====
-- The repositories: the queries that the services make inside a transaction.
pub mod Agreements
pub mod Milestones
pub mod Jobs
pub mod Events
pub mod Endpoints
pub mod Escrows
pub mod Transactions
pub mod Idempotency
pub mod Disputes
pub mod Proofs
pub mod Admits
pub mod Queries
pub mod Raw
pub mod Writes
pub mod Admitted
