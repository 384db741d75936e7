-- ===== src/Disputes.antt =====
-- server/src/modules/disputes/dispute.service.ts: the opening and the resolution of a dispute, each
-- the work of one idempotent transaction.
pub mod Keeps
use pactagent.Prelude.{
  ℕ, Bool, true, false, ◌==◌, nat_eq, Option, none, some, is_some, String, List, [], ◌∷◌,
}
use pactagent.Errors.{
  Error, Result, ok, err, invalid_request, conflict, not_found, internal, reject_if, require,
  unique_violation,
}
use pactagent.Lifecycle.Agreement.{AgreementStatus, assert_agreement_transition}
use pactagent.Lifecycle.Milestone.{MilestoneStatus, assert_milestone_transition}
use pactagent.Lifecycle.Escrow.{EscrowStatus, escrow_eq}
use pactagent.Lifecycle.DisputePaths.{
  ResolutionType, assert_dispute_resolvable, agreement_path_for_dispute_open,
  milestone_path_for_dispute_open, agreement_path_for_dispute_resolution,
  milestone_path_for_dispute_resolution,
}
use pactagent.Store.Rows.{Text, Agreement, Milestone, Escrow, Dispute, Resource}
use pactagent.Store.Tx.{Db, Tx, pure, lift, or_fail, ◌>>=◌, ◌>>◌}
use pactagent.Store.Action.{Action}
use pactagent.Amounts.{assert_settlement_split}
use pactagent.Repository.Agreements.{find_agreement_for_app, transition_agreement_status}
use pactagent.Repository.Milestones.{find_milestone_for_app, transition_milestone_status}
use pactagent.Repository.Escrows.{find_active_escrow_for_scope}
use pactagent.Repository.Disputes.{
  CreateDisputeInput, ResolveDisputeInput, find_unresolved_dispute_for_scope, create_dispute,
  find_dispute_for_app, resolve_dispute_row,
}
use pactagent.Repository.Events.{create_event, create_infrastructure_audit_log}
use pactagent.Repository.Idempotency.{Env, Context}
use pactagent.Idempotency.{Request, run_idempotent_transaction}

-- `advanceAgreement`
unfoldable pub advance_agreement :
    ℕ → ℕ → AgreementStatus → List AgreementStatus → ℕ → Tx (Unit {0})
advance_agreement app id current [] now = pure tt
advance_agreement app id current (to ∷ path) now = do
  lift (assert_agreement_transition current to)
  transition_agreement_status app id current to now
  advance_agreement app id to path now

-- `advanceMilestone`
unfoldable pub advance_milestone : ℕ → ℕ → MilestoneStatus → List MilestoneStatus → Tx (Unit {0})
advance_milestone app id current [] = pure tt
advance_milestone app id current (to ∷ path) = do
  lift (assert_milestone_transition current to)
  transition_milestone_status app id current to
  advance_milestone app id to path

-- The event and the audit row that close both requests.
unfoldable pub record_dispute : ℕ → Request → ℕ → ℕ → ℕ → String → Tx (Unit {0})
record_dispute app req agreement milestone dispute action = do
  create_event app
      (record {
        type = action;
        agreement_id = some agreement;
        milestone_id = some milestone;
        escrow_id = none;
        proof_submission_id = none;
        dispute_id = some dispute;
      })
      req.now
  create_infrastructure_audit_log (record {
    app_id = app;
    agreement_id = some agreement;
    actor_type = "api_key";
    actor_id = req.actor;
    action = action;
    target_type = "dispute";
    target_id = dispute;
  })

abbrev dispute_conflict : Result (Dispute × Db) → Result (Dispute × Db)
dispute_conflict (err unique_violation) = err (conflict "active_dispute_exists")
dispute_conflict r = r

-- The `try` around `createDispute`: a broken unique index is a conflict.
unfoldable pub create_dispute_or_conflict : ℕ → CreateDisputeInput → Tx Dispute
create_dispute_or_conflict app input db = dispute_conflict (create_dispute app input db)

-- The milestone of the agreement that both requests look up.
unfoldable pub find_disputed_milestone : ℕ → ℕ → Agreement → Tx Milestone
find_disputed_milestone app id agreement = do
  found ← find_milestone_for_app app id
  milestone ← or_fail found (not_found "milestone_not_found")
  lift (require (milestone.agreement_id == agreement.id) (not_found "milestone_not_found"))
  pure milestone

-- The `run` of `createDisputeForApp`
unfoldable pub open_dispute : ℕ → Request → CreateDisputeInput → Context → Tx Resource
open_dispute app req input context = do
  found ← find_agreement_for_app app input.agreement_id
  agreement ← or_fail found (not_found "agreement_not_found")
  milestone ← find_disputed_milestone app input.milestone_id agreement
  existing ← find_unresolved_dispute_for_scope app agreement.id milestone.id
  lift (reject_if (is_some existing) (conflict "active_dispute_exists"))
  agreement_path ← lift (agreement_path_for_dispute_open agreement.status)
  milestone_path ← lift (milestone_path_for_dispute_open milestone.status)
  created ← create_dispute_or_conflict app input
  advance_agreement app agreement.id agreement.status agreement_path req.now
  advance_milestone app milestone.id milestone.status milestone_path
  record_dispute app req agreement.id milestone.id created.id "dispute.opened"
  pure (Resource.dispute created)

-- `createDisputeForApp`
unfoldable pub create_dispute_for_app : Env → ℕ → Request → CreateDisputeInput → Action Resource
create_dispute_for_app env app req input =
    run_idempotent_transaction env app req 201 (open_dispute app req input)

abbrev or_empty : Option Text → Text
or_empty none = []
or_empty (some text) = text

unfoldable pub assert_split : ℕ → ℕ → ℕ → ResolveDisputeInput → Tx (Unit {0})
assert_split app agreement milestone input = do
  found ← find_active_escrow_for_scope app agreement (some milestone)
  escrow ← or_fail found (invalid_request "dispute_funded_escrow_required")
  lift (
      require (escrow.status == EscrowStatus.funded)
        (invalid_request "dispute_funded_escrow_required"))
  lift (
      assert_settlement_split (or_empty input.worker_amount) (or_empty input.client_amount)
        escrow.amount)

-- The funded escrow that a split asks for. The validation of the request has made sure that a split
-- comes with both amounts.
unfoldable pub assert_resolution : ResolutionType → ℕ → ℕ → ℕ → ResolveDisputeInput → Tx (Unit {0})
assert_resolution ResolutionType.split app agreement milestone input =
    assert_split app agreement milestone input
assert_resolution _ app agreement milestone input = pure tt

-- The `run` of `resolveDisputeForApp`
unfoldable pub resolve_dispute : ℕ → Request → ℕ → ResolveDisputeInput → Context → Tx Resource
resolve_dispute app req id input context = do
  found ← find_dispute_for_app app id
  dispute ← or_fail found (not_found "dispute_not_found")
  lift (assert_dispute_resolvable dispute.status)
  found_agreement ← find_agreement_for_app app dispute.agreement_id
  agreement ← or_fail found_agreement (not_found "agreement_not_found")
  milestone ← find_disputed_milestone app dispute.milestone_id agreement
  assert_resolution input.resolution_type app agreement.id milestone.id input
  agreement_path ←
      lift (agreement_path_for_dispute_resolution agreement.status input.resolution_type)
  milestone_path ←
      lift (milestone_path_for_dispute_resolution milestone.status input.resolution_type)
  resolved ← resolve_dispute_row app id dispute.status input req.now
  advance_agreement app agreement.id agreement.status agreement_path req.now
  advance_milestone app milestone.id milestone.status milestone_path
  record_dispute app req dispute.agreement_id dispute.milestone_id dispute.id "dispute.resolved"
  pure (Resource.dispute resolved)

-- `resolveDisputeForApp`
unfoldable pub resolve_dispute_for_app :
    Env → ℕ → Request → ℕ → ResolveDisputeInput → Action Resource
resolve_dispute_for_app env app req id input =
    run_idempotent_transaction env app req 200 (resolve_dispute app req id input)
