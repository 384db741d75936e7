-- ===== src/Lifecycle/DisputePaths.antt =====
-- server/src/modules/disputes/dispute.state-machine.ts: what a dispute does to the life cycles of
-- its agreement and its milestone.
use pactagent.Prelude.{List, [], ◌∷◌}
use pactagent.Errors.{Result, ok, err, invalid_request}
use pactagent.Lifecycle.Agreement.{AgreementStatus}
use pactagent.Lifecycle.Milestone.{MilestoneStatus}
use pactagent.Lifecycle.Dispute.{DisputeStatus}

pub data ResolutionType : Type 0 where
  release refund split : ResolutionType

abbrev pub status_for_resolution_type : ResolutionType → DisputeStatus
status_for_resolution_type ResolutionType.release = DisputeStatus.resolved_release
status_for_resolution_type ResolutionType.refund = DisputeStatus.resolved_refund
status_for_resolution_type ResolutionType.split = DisputeStatus.resolved_split

-- The words that begin with `resolved_`, and `cancelled`. The column holds no other text.
abbrev pub assert_dispute_resolvable : DisputeStatus → Result (Unit {0})
assert_dispute_resolvable DisputeStatus.opened = ok tt
assert_dispute_resolvable DisputeStatus.awaiting_response = ok tt
assert_dispute_resolvable DisputeStatus.under_review = ok tt
assert_dispute_resolvable _ = err (invalid_request "dispute_already_resolved")

unfoldable pub agreement_path_for_dispute_open : AgreementStatus → Result (List AgreementStatus)
agreement_path_for_dispute_open AgreementStatus.funded = ok (AgreementStatus.disputed ∷ [])
agreement_path_for_dispute_open AgreementStatus.in_progress = ok (AgreementStatus.disputed ∷ [])
agreement_path_for_dispute_open AgreementStatus.under_review = ok (AgreementStatus.disputed ∷ [])
agreement_path_for_dispute_open AgreementStatus.proof_submitted =
    ok (AgreementStatus.under_review ∷ AgreementStatus.disputed ∷ [])
agreement_path_for_dispute_open _ = err (invalid_request "invalid_state_transition")

unfoldable pub milestone_path_for_dispute_open : MilestoneStatus → Result (List MilestoneStatus)
milestone_path_for_dispute_open MilestoneStatus.funded = ok (MilestoneStatus.disputed ∷ [])
milestone_path_for_dispute_open MilestoneStatus.in_progress = ok (MilestoneStatus.disputed ∷ [])
milestone_path_for_dispute_open MilestoneStatus.under_review = ok (MilestoneStatus.disputed ∷ [])
milestone_path_for_dispute_open MilestoneStatus.proof_submitted =
    ok (MilestoneStatus.under_review ∷ MilestoneStatus.disputed ∷ [])
milestone_path_for_dispute_open _ = err (invalid_request "invalid_state_transition")

abbrev agreement_resolution_path : ResolutionType → List AgreementStatus
agreement_resolution_path ResolutionType.release = AgreementStatus.approved ∷ []
agreement_resolution_path _ = []

abbrev milestone_resolution_path : ResolutionType → List MilestoneStatus
milestone_resolution_path ResolutionType.release = MilestoneStatus.approved ∷ []
milestone_resolution_path _ = []

unfoldable pub agreement_path_for_dispute_resolution :
    AgreementStatus → ResolutionType → Result (List AgreementStatus)
agreement_path_for_dispute_resolution AgreementStatus.disputed type =
    ok (agreement_resolution_path type)
agreement_path_for_dispute_resolution _ type = err (invalid_request "invalid_state_transition")

unfoldable pub milestone_path_for_dispute_resolution :
    MilestoneStatus → ResolutionType → Result (List MilestoneStatus)
milestone_path_for_dispute_resolution MilestoneStatus.disputed type =
    ok (milestone_resolution_path type)
milestone_path_for_dispute_resolution _ type = err (invalid_request "invalid_state_transition")
