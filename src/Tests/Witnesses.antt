-- ===== src/Tests/Witnesses.antt =====
-- Each theorem with a hypothesis or a parameter, on a concrete input.
use pactagent.Prelude.{
  ℕ, ◌≡◌, ◌≤◌, ◌↔◌, ◌+◌, ◌⊎◌, ◌&&◌, refl, true, false, none, List, [], ◌∷◌, contains,
}
use pactagent.Errors.{ok}
use pactagent.Lifecycle.Agreement.{AgreementStatus, agreement_eq}
use pactagent.Lifecycle.Milestone.{MilestoneStatus}
use pactagent.Lifecycle.Escrow.{EscrowStatus, escrow_eq}
use pactagent.Lifecycle.DisputePaths.{
  ResolutionType, agreement_path_for_dispute_open, milestone_path_for_dispute_open,
  agreement_path_for_dispute_resolution, milestone_path_for_dispute_resolution,
}
use pactagent.Lifecycle.ProofPaths.{
  ReviewDecision, agreement_path_for_proof_submission, milestone_path_for_proof_submission,
  agreement_path_for_review_decision, milestone_path_for_review_decision,
}
use pactagent.Lifecycle.Chains.{
  AgreementChain, MilestoneChain, dispute_open_paths, proof_submission_paths, review_decision_paths,
  dispute_resolution_paths,
}
use pactagent.Lifecycle.Reachability.{released_needs_funding, settles_once}
use pactagent.Store.Rows.{codes}
use pactagent.Amounts.{
  AmountScope, assert_settlement_split, assert_escrow_amount_within_scope,
  parse_positive_integer_amount, parse_non_negative_integer_amount,
}
use pactagent.Amounts.Bounds.{split_exact, escrow_amount_bound}
use pactagent.Escrow.Settlement.{Operation}
use pactagent.Escrow.Flows.{execute_escrow_settlement, create_escrow_for_app, mark_escrow_funded}
use pactagent.Escrow.Reconciliation.{apply_observation}
use pactagent.Store.Action.{transaction}
use pactagent.Escrow.History.{AllKept, SettlesTo, FundsTo, settlement_history, funding_history}
use pactagent.Escrow.OnePerScope.{OnePerScope, creation-OnePerScope}
use pactagent.Tenancy.Isolation.{Isolates}
use pactagent.Tenancy.Requests.{
  settlement_isolated, creation_isolated, funding_isolated, reconciliation_isolated,
}
use pactagent.Tests.{
  env, adapters, two_apps, request, milestone_escrow, release_row, release_sent, observation,
}

settlement_isolated_example :
    Isolates 1 two_apps
      (execute_escrow_settlement env adapters 1 request 20 Operation.release two_apps).1
settlement_isolated_example =
    settlement_isolated env adapters 1 request two_apps 20 Operation.release

creation_isolated_example :
    Isolates 1 two_apps (create_escrow_for_app env adapters 1 request milestone_escrow two_apps).1
creation_isolated_example = creation_isolated env adapters 1 request two_apps milestone_escrow

funding_isolated_example :
    Isolates 1 two_apps (mark_escrow_funded env adapters 1 request 20 none two_apps).1
funding_isolated_example = funding_isolated env adapters 1 request two_apps 20 none

settlement_history_example :
    AllKept
      (SettlesTo Operation.release)
      two_apps.escrows
      (execute_escrow_settlement env adapters 1 request 20 Operation.release two_apps).1.escrows
settlement_history_example = settlement_history env adapters 1 request two_apps 20 Operation.release

funding_history_example :
    AllKept FundsTo two_apps.escrows
      (mark_escrow_funded env adapters 1 request 20 none two_apps).1.escrows
funding_history_example = funding_history env adapters 1 request two_apps 20 none

creation-OnePerScope_example :
    OnePerScope (create_escrow_for_app env adapters 1 request milestone_escrow two_apps).1.escrows
creation-OnePerScope_example =
    creation-OnePerScope env adapters 1 request two_apps ((refl, tt), (tt, tt)) milestone_escrow

agreement_dispute_path :
    agreement_path_for_dispute_open AgreementStatus.proof_submitted
    ≡ ok (AgreementStatus.under_review ∷ AgreementStatus.disputed ∷ [])
unfolding agreement_path_for_dispute_open
agreement_dispute_path = refl

milestone_dispute_path :
    milestone_path_for_dispute_open MilestoneStatus.proof_submitted
    ≡ ok (MilestoneStatus.under_review ∷ MilestoneStatus.disputed ∷ [])
unfolding milestone_path_for_dispute_open
milestone_dispute_path = refl

dispute_open_paths_example :
    (AgreementChain AgreementStatus.proof_submitted
        (AgreementStatus.under_review ∷ AgreementStatus.disputed ∷ [])
      × (AgreementStatus.disputed ≡ AgreementStatus.disputed))
    × (MilestoneChain MilestoneStatus.proof_submitted
          (MilestoneStatus.under_review ∷ MilestoneStatus.disputed ∷ [])
        × (MilestoneStatus.disputed ≡ MilestoneStatus.disputed))
dispute_open_paths_example =
    dispute_open_paths AgreementStatus.proof_submitted MilestoneStatus.proof_submitted
      agreement_dispute_path milestone_dispute_path

agreement_proof_path :
    agreement_path_for_proof_submission AgreementStatus.funded
    ≡ ok (AgreementStatus.in_progress ∷ AgreementStatus.proof_submitted ∷ [])
unfolding agreement_path_for_proof_submission
agreement_proof_path = refl

milestone_proof_path :
    milestone_path_for_proof_submission MilestoneStatus.funded
    ≡ ok (MilestoneStatus.in_progress ∷ MilestoneStatus.proof_submitted ∷ [])
unfolding milestone_path_for_proof_submission
milestone_proof_path = refl

proof_submission_paths_example :
    (AgreementChain AgreementStatus.funded
        (AgreementStatus.in_progress ∷ AgreementStatus.proof_submitted ∷ [])
      × (AgreementStatus.proof_submitted ≡ AgreementStatus.proof_submitted))
    × (MilestoneChain MilestoneStatus.funded
          (MilestoneStatus.in_progress ∷ MilestoneStatus.proof_submitted ∷ [])
        × (MilestoneStatus.proof_submitted ≡ MilestoneStatus.proof_submitted))
proof_submission_paths_example =
    proof_submission_paths AgreementStatus.funded MilestoneStatus.funded agreement_proof_path
      milestone_proof_path

agreement_review_path :
    agreement_path_for_review_decision AgreementStatus.under_review ReviewDecision.needs_changes
    ≡ ok (AgreementStatus.rejected ∷ AgreementStatus.in_progress ∷ [])
unfolding agreement_path_for_review_decision
agreement_review_path = refl

milestone_review_path :
    milestone_path_for_review_decision MilestoneStatus.under_review ReviewDecision.needs_changes
    ≡ ok (MilestoneStatus.rejected ∷ MilestoneStatus.in_progress ∷ [])
unfolding milestone_path_for_review_decision
milestone_review_path = refl

review_decision_paths_example :
    (AgreementChain AgreementStatus.under_review
        (AgreementStatus.rejected ∷ AgreementStatus.in_progress ∷ [])
      × (AgreementStatus.in_progress ≡ AgreementStatus.in_progress))
    × (MilestoneChain MilestoneStatus.under_review
          (MilestoneStatus.rejected ∷ MilestoneStatus.in_progress ∷ [])
        × (MilestoneStatus.in_progress ≡ MilestoneStatus.in_progress))
review_decision_paths_example =
    review_decision_paths AgreementStatus.under_review MilestoneStatus.under_review
      ReviewDecision.needs_changes agreement_review_path milestone_review_path

agreement_resolution :
    agreement_path_for_dispute_resolution AgreementStatus.disputed ResolutionType.release
    ≡ ok (AgreementStatus.approved ∷ [])
unfolding agreement_path_for_dispute_resolution
agreement_resolution = refl

milestone_resolution :
    milestone_path_for_dispute_resolution MilestoneStatus.disputed ResolutionType.release
    ≡ ok (MilestoneStatus.approved ∷ [])
unfolding milestone_path_for_dispute_resolution
milestone_resolution = refl

dispute_resolution_paths_example :
    (AgreementChain AgreementStatus.disputed (AgreementStatus.approved ∷ [])
      × (AgreementStatus.approved ≡ AgreementStatus.approved))
    × (MilestoneChain MilestoneStatus.disputed (MilestoneStatus.approved ∷ [])
        × (MilestoneStatus.approved ≡ MilestoneStatus.approved))
dispute_resolution_paths_example =
    dispute_resolution_paths AgreementStatus.disputed MilestoneStatus.disputed
      ResolutionType.release agreement_resolution milestone_resolution

abbrev whole_life : List AgreementStatus
whole_life =
    AgreementStatus.pending_acceptance ∷ AgreementStatus.accepted ∷ AgreementStatus.funding_required
    ∷ AgreementStatus.funded ∷ AgreementStatus.in_progress ∷ AgreementStatus.proof_submitted
    ∷ AgreementStatus.under_review ∷ AgreementStatus.approved ∷ AgreementStatus.release_pending
    ∷ AgreementStatus.released ∷ []

released_needs_funding_example :
    (contains whole_life AgreementStatus.funded ≡ true)
    × ((contains whole_life AgreementStatus.approved ≡ true)
        ⊎ (contains whole_life AgreementStatus.disputed ≡ true))
released_needs_funding_example =
    released_needs_funding whole_life
      (refl, (refl, (refl, (refl, (refl, (refl, (refl, (refl, (refl, (refl, tt)))))))))) refl

abbrev settled_life : List EscrowStatus
settled_life =
    EscrowStatus.awaiting_funding ∷ EscrowStatus.funded ∷ EscrowStatus.release_pending
    ∷ EscrowStatus.released ∷ []

settles_once_example :
    (contains (EscrowStatus.not_created ∷ settled_life) EscrowStatus.released
      && contains (EscrowStatus.not_created ∷ settled_life) EscrowStatus.refunded)
    ≡ false
settles_once_example =
    settles_once EscrowStatus.not_created settled_life (refl, (refl, (refl, (refl, tt)))) refl

parsed : parse_positive_integer_amount (codes "500") ≡ ok 500
unfolding parse_positive_integer_amount
parsed = refl

parsed_part : parse_positive_integer_amount (codes "200") ≡ ok 200
unfolding parse_positive_integer_amount
parsed_part = refl

parsed_worker : parse_non_negative_integer_amount (codes "500") ≡ ok 500
unfolding parse_non_negative_integer_amount
parsed_worker = refl

parsed_client : parse_non_negative_integer_amount (codes "0") ≡ ok 0
unfolding parse_non_negative_integer_amount
parsed_client = refl

split_exact_example :
    (assert_settlement_split (codes "500") (codes "0") (codes "500") ≡ ok tt) ↔ (500 + 0 ≡ 500)
split_exact_example =
    split_exact (codes "500") (codes "0") (codes "500") parsed_worker parsed_client parsed

escrow_amount_bound_example :
    (assert_escrow_amount_within_scope (codes "200") (codes "500") AmountScope.agreement true
      ≡ ok tt)
    ↔ ((200 ≤ 500) × (true ≡ true → ◌≡◌ {A = ℕ} 200 500))
escrow_amount_bound_example =
    escrow_amount_bound (codes "200") (codes "500") AmountScope.agreement true parsed_part parsed

reconciliation_isolated_example :
    Isolates 1 release_sent
      (transaction
        (apply_observation env 9 release_row (codes "0xab") 20 observation)
        release_sent).1
reconciliation_isolated_example =
    reconciliation_isolated env 9 release_row (codes "0xab") 20 observation release_sent
