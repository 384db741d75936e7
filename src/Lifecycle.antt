-- ===== src/Lifecycle.antt =====
-- The life cycles of agreements, milestones, escrows, disputes and proofs, from the
-- `*.state-machine.ts` files and proof.lifecycle.ts.
pub mod Agreement
pub mod Milestone
pub mod Escrow
pub mod Dispute
pub mod Proof
pub mod DisputePaths
pub mod ProofPaths
pub mod Chains
pub mod Reachability
