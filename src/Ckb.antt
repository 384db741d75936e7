-- ===== src/Ckb.antt =====
-- server/src/rails/ckb: what the CKB rail reads and writes of the chain.
pub mod Hex
pub mod Codec
pub mod Scripts
pub mod Reconciliation
