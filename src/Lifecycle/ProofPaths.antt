-- ===== src/Lifecycle/ProofPaths.antt =====
-- server/src/modules/proofs/proof.lifecycle.ts: what the submission and the review of a proof do to
-- the life cycles of its agreement and its milestone.
use pactagent.Prelude.{List, [], ◌∷◌}
use pactagent.Errors.{Result, ok, err, invalid_request, ◌>>◌}
use pactagent.Lifecycle.Agreement.{AgreementStatus}
use pactagent.Lifecycle.Milestone.{MilestoneStatus}
use pactagent.Lifecycle.Proof.{ProofStatus}

pub data ReviewDecision : Type 0 where
  approved rejected needs_changes : ReviewDecision

abbrev pub proof_status_for_review_decision : ReviewDecision → ProofStatus
proof_status_for_review_decision ReviewDecision.approved = ProofStatus.accepted
proof_status_for_review_decision ReviewDecision.rejected = ProofStatus.rejected
proof_status_for_review_decision ReviewDecision.needs_changes = ProofStatus.needs_changes

-- `assertProofSubmissionAgreementAllowed`: the terminal words first, then all but the three active ones.
abbrev pub assert_proof_submission_agreement_allowed : AgreementStatus → Result (Unit {0})
assert_proof_submission_agreement_allowed AgreementStatus.released =
    err (invalid_request "proof_submission_not_allowed")
assert_proof_submission_agreement_allowed AgreementStatus.refunded =
    err (invalid_request "proof_submission_not_allowed")
assert_proof_submission_agreement_allowed AgreementStatus.cancelled =
    err (invalid_request "proof_submission_not_allowed")
assert_proof_submission_agreement_allowed AgreementStatus.expired =
    err (invalid_request "proof_submission_not_allowed")
assert_proof_submission_agreement_allowed AgreementStatus.funded = ok tt
assert_proof_submission_agreement_allowed AgreementStatus.in_progress = ok tt
assert_proof_submission_agreement_allowed AgreementStatus.rejected = ok tt
assert_proof_submission_agreement_allowed _ =
    err (invalid_request "proof_submission_requires_active_agreement")

abbrev agreement_submission_path : AgreementStatus → List AgreementStatus
agreement_submission_path AgreementStatus.funded =
    AgreementStatus.in_progress ∷ AgreementStatus.proof_submitted ∷ []
agreement_submission_path AgreementStatus.rejected =
    AgreementStatus.in_progress ∷ AgreementStatus.proof_submitted ∷ []
agreement_submission_path _ = AgreementStatus.proof_submitted ∷ []

unfoldable pub agreement_path_for_proof_submission : AgreementStatus → Result (List AgreementStatus)
agreement_path_for_proof_submission status = do
  assert_proof_submission_agreement_allowed status
  ok (agreement_submission_path status)

abbrev agreement_decision_path : ReviewDecision → List AgreementStatus
agreement_decision_path ReviewDecision.approved = AgreementStatus.approved ∷ []
agreement_decision_path ReviewDecision.rejected = AgreementStatus.rejected ∷ []
agreement_decision_path ReviewDecision.needs_changes =
    AgreementStatus.rejected ∷ AgreementStatus.in_progress ∷ []

unfoldable pub agreement_path_for_review_decision :
    AgreementStatus → ReviewDecision → Result (List AgreementStatus)
agreement_path_for_review_decision AgreementStatus.proof_submitted decision =
    ok (AgreementStatus.under_review ∷ agreement_decision_path decision)
agreement_path_for_review_decision AgreementStatus.under_review decision =
    ok (agreement_decision_path decision)
agreement_path_for_review_decision _ decision =
    err (invalid_request "proof_review_invalid_agreement_state")

-- `assertProofSubmissionMilestoneAllowed`: the terminal words first, then all but the three active ones.
abbrev pub assert_proof_submission_milestone_allowed : MilestoneStatus → Result (Unit {0})
assert_proof_submission_milestone_allowed MilestoneStatus.released =
    err (invalid_request "proof_submission_not_allowed")
assert_proof_submission_milestone_allowed MilestoneStatus.refunded =
    err (invalid_request "proof_submission_not_allowed")
assert_proof_submission_milestone_allowed MilestoneStatus.funded = ok tt
assert_proof_submission_milestone_allowed MilestoneStatus.in_progress = ok tt
assert_proof_submission_milestone_allowed MilestoneStatus.rejected = ok tt
assert_proof_submission_milestone_allowed _ =
    err (invalid_request "proof_submission_requires_active_milestone")

abbrev milestone_submission_path : MilestoneStatus → List MilestoneStatus
milestone_submission_path MilestoneStatus.funded =
    MilestoneStatus.in_progress ∷ MilestoneStatus.proof_submitted ∷ []
milestone_submission_path MilestoneStatus.rejected =
    MilestoneStatus.in_progress ∷ MilestoneStatus.proof_submitted ∷ []
milestone_submission_path _ = MilestoneStatus.proof_submitted ∷ []

unfoldable pub milestone_path_for_proof_submission : MilestoneStatus → Result (List MilestoneStatus)
milestone_path_for_proof_submission status = do
  assert_proof_submission_milestone_allowed status
  ok (milestone_submission_path status)

abbrev milestone_decision_path : ReviewDecision → List MilestoneStatus
milestone_decision_path ReviewDecision.approved = MilestoneStatus.approved ∷ []
milestone_decision_path ReviewDecision.rejected = MilestoneStatus.rejected ∷ []
milestone_decision_path ReviewDecision.needs_changes =
    MilestoneStatus.rejected ∷ MilestoneStatus.in_progress ∷ []

unfoldable pub milestone_path_for_review_decision :
    MilestoneStatus → ReviewDecision → Result (List MilestoneStatus)
milestone_path_for_review_decision MilestoneStatus.proof_submitted decision =
    ok (MilestoneStatus.under_review ∷ milestone_decision_path decision)
milestone_path_for_review_decision MilestoneStatus.under_review decision =
    ok (milestone_decision_path decision)
milestone_path_for_review_decision _ decision =
    err (invalid_request "proof_review_invalid_milestone_state")
