-- ===== src/Lifecycle/Chains.antt =====
-- Every path that proof.lifecycle.ts and dispute.state-machine.ts hand to the services is made of
-- moves that the state machines allow, and ends where the service means it to.
use pactagent.Prelude.{◌≡◌, true, List, [], ◌∷◌, arith}
use pactagent.Errors.{ok}
use pactagent.Lifecycle.Agreement.{AgreementStatus, can_transition_agreement}
use pactagent.Lifecycle.Milestone.{MilestoneStatus, can_transition_milestone}
use pactagent.Lifecycle.DisputePaths.{
  ResolutionType, agreement_path_for_dispute_open, milestone_path_for_dispute_open,
  agreement_path_for_dispute_resolution, milestone_path_for_dispute_resolution,
}
use pactagent.Lifecycle.ProofPaths.{
  ReviewDecision, agreement_path_for_proof_submission, milestone_path_for_proof_submission,
  agreement_path_for_review_decision, milestone_path_for_review_decision,
}

-- Each status of the path follows the one before it by an allowed move.
abbrev pub AgreementChain : AgreementStatus → List AgreementStatus → Type 0
AgreementChain from [] = Unit
AgreementChain from (to ∷ path) = (can_transition_agreement from to ≡ true) × AgreementChain to path

abbrev pub MilestoneChain : MilestoneStatus → List MilestoneStatus → Type 0
MilestoneChain from [] = Unit
MilestoneChain from (to ∷ path) = (can_transition_milestone from to ≡ true) × MilestoneChain to path

-- Where a path ends.
abbrev pub path_end : {A : Type 0} → A → List A → A
path_end from [] = from
path_end from (to ∷ path) = path_end to path

-- Where a review and where a resolution mean to leave the agreement.
abbrev pub agreement_review_end : ReviewDecision → AgreementStatus
agreement_review_end ReviewDecision.approved = AgreementStatus.approved
agreement_review_end ReviewDecision.rejected = AgreementStatus.rejected
agreement_review_end ReviewDecision.needs_changes = AgreementStatus.in_progress

abbrev pub agreement_resolution_end : ResolutionType → AgreementStatus
agreement_resolution_end ResolutionType.release = AgreementStatus.approved
agreement_resolution_end _ = AgreementStatus.disputed

-- Where a review and where a resolution mean to leave the milestone.
abbrev pub milestone_review_end : ReviewDecision → MilestoneStatus
milestone_review_end ReviewDecision.approved = MilestoneStatus.approved
milestone_review_end ReviewDecision.rejected = MilestoneStatus.rejected
milestone_review_end ReviewDecision.needs_changes = MilestoneStatus.in_progress

abbrev pub milestone_resolution_end : ResolutionType → MilestoneStatus
milestone_resolution_end ResolutionType.release = MilestoneStatus.approved
milestone_resolution_end _ = MilestoneStatus.disputed

agreement_dispute_open :
    (s : AgreementStatus) {path : List AgreementStatus}
    → agreement_path_for_dispute_open s ≡ ok path
    → AgreementChain s path × (path_end s path ≡ AgreementStatus.disputed)
unfolding agreement_path_for_dispute_open
agreement_dispute_open s h = ground arith

agreement_proof_submission :
    (s : AgreementStatus) {path : List AgreementStatus}
    → agreement_path_for_proof_submission s ≡ ok path
    → AgreementChain s path × (path_end s path ≡ AgreementStatus.proof_submitted)
unfolding agreement_path_for_proof_submission
agreement_proof_submission s h = ground arith

agreement_review_decision :
    (s : AgreementStatus) (d : ReviewDecision) {path : List AgreementStatus}
    → agreement_path_for_review_decision s d ≡ ok path
    → AgreementChain s path × (path_end s path ≡ agreement_review_end d)
unfolding agreement_path_for_review_decision
agreement_review_decision s d h = ground arith

agreement_dispute_resolution :
    (s : AgreementStatus) (r : ResolutionType) {path : List AgreementStatus}
    → agreement_path_for_dispute_resolution s r ≡ ok path
    → AgreementChain s path × (path_end s path ≡ agreement_resolution_end r)
unfolding agreement_path_for_dispute_resolution
agreement_dispute_resolution s r h = ground arith

milestone_dispute_open :
    (s : MilestoneStatus) {path : List MilestoneStatus}
    → milestone_path_for_dispute_open s ≡ ok path
    → MilestoneChain s path × (path_end s path ≡ MilestoneStatus.disputed)
unfolding milestone_path_for_dispute_open
milestone_dispute_open s h = ground arith

milestone_proof_submission :
    (s : MilestoneStatus) {path : List MilestoneStatus}
    → milestone_path_for_proof_submission s ≡ ok path
    → MilestoneChain s path × (path_end s path ≡ MilestoneStatus.proof_submitted)
unfolding milestone_path_for_proof_submission
milestone_proof_submission s h = ground arith

milestone_review_decision :
    (s : MilestoneStatus) (d : ReviewDecision) {path : List MilestoneStatus}
    → milestone_path_for_review_decision s d ≡ ok path
    → MilestoneChain s path × (path_end s path ≡ milestone_review_end d)
unfolding milestone_path_for_review_decision
milestone_review_decision s d h = ground arith

milestone_dispute_resolution :
    (s : MilestoneStatus) (r : ResolutionType) {path : List MilestoneStatus}
    → milestone_path_for_dispute_resolution s r ≡ ok path
    → MilestoneChain s path × (path_end s path ≡ milestone_resolution_end r)
unfolding milestone_path_for_dispute_resolution
milestone_dispute_resolution s r h = ground arith

-- If opening a dispute is accepted in the states `a` and `m`, the path of the agreement and that of
-- the milestone are made of allowed moves and end in `disputed`.
pub dispute_open_paths :
    (a : AgreementStatus) (m : MilestoneStatus) {for_a : List AgreementStatus}
    {for_m : List MilestoneStatus}
    → agreement_path_for_dispute_open a ≡ ok for_a
    → milestone_path_for_dispute_open m ≡ ok for_m
    → (AgreementChain a for_a × (path_end a for_a ≡ AgreementStatus.disputed))
      × (MilestoneChain m for_m × (path_end m for_m ≡ MilestoneStatus.disputed))
dispute_open_paths a m h k = (agreement_dispute_open a h, milestone_dispute_open m k)

-- If a proof is accepted in the states `a` and `m`, both paths are made of allowed moves and end in
-- `proof_submitted`.
pub proof_submission_paths :
    (a : AgreementStatus) (m : MilestoneStatus) {for_a : List AgreementStatus}
    {for_m : List MilestoneStatus}
    → agreement_path_for_proof_submission a ≡ ok for_a
    → milestone_path_for_proof_submission m ≡ ok for_m
    → (AgreementChain a for_a × (path_end a for_a ≡ AgreementStatus.proof_submitted))
      × (MilestoneChain m for_m × (path_end m for_m ≡ MilestoneStatus.proof_submitted))
proof_submission_paths a m h k = (agreement_proof_submission a h, milestone_proof_submission m k)

-- If a review is accepted in the states `a` and `m`, both paths are made of allowed moves and end in
-- the state that the decision stands for: approved, rejected, or back in progress.
pub review_decision_paths :
    (a : AgreementStatus) (m : MilestoneStatus) (d : ReviewDecision) {for_a : List AgreementStatus}
    {for_m : List MilestoneStatus}
    → agreement_path_for_review_decision a d ≡ ok for_a
    → milestone_path_for_review_decision m d ≡ ok for_m
    → (AgreementChain a for_a × (path_end a for_a ≡ agreement_review_end d))
      × (MilestoneChain m for_m × (path_end m for_m ≡ milestone_review_end d))
review_decision_paths a m d h k = (agreement_review_decision a d h, milestone_review_decision m d k)

-- If a dispute may be resolved in the states `a` and `m`, both paths are made of allowed moves; a
-- release ends in `approved`, and a refund or a split leaves both `disputed`.
pub dispute_resolution_paths :
    (a : AgreementStatus) (m : MilestoneStatus) (r : ResolutionType) {for_a : List AgreementStatus}
    {for_m : List MilestoneStatus}
    → agreement_path_for_dispute_resolution a r ≡ ok for_a
    → milestone_path_for_dispute_resolution m r ≡ ok for_m
    → (AgreementChain a for_a × (path_end a for_a ≡ agreement_resolution_end r))
      × (MilestoneChain m for_m × (path_end m for_m ≡ milestone_resolution_end r))
dispute_resolution_paths a m r h k =
    (agreement_dispute_resolution a r h, milestone_dispute_resolution m r k)
