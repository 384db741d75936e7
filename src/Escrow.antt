-- ===== src/Escrow.antt =====
-- server/src/modules/escrows/escrow.service.ts: the life of an escrow over its transactions.
pub mod Adapter
pub mod Scope
pub mod ScopeKeeps
pub mod Keeps
pub mod MoreKeeps
pub mod Opening
pub mod Settlement
pub mod Creation
pub mod Funding
pub mod Reconciliation
pub mod Flows
pub mod FlowKeeps
pub mod OnEscrows
pub mod Retry
pub mod History
pub mod OnePerScope
