-- ===== src/Agreements.antt =====
-- server/src/modules/agreements/agreement.service.ts and agreement.events.ts beside it: an app
-- creates its agreements and moves them, each the work of one idempotent transaction.
pub mod Keeps
use pactagent.Prelude.{ℕ, Option, none, some, is_some, String}
use pactagent.Errors.{Error, Result, ok, err, conflict, not_found, unique_violation}
use pactagent.Lifecycle.Agreement.{AgreementStatus, assert_agreement_transition}
use pactagent.Store.Rows.{Agreement, Resource}
use pactagent.Store.Tx.{Db, Tx, pure, lift, or_fail, when_some, ◌>>=◌, ◌>>◌}
use pactagent.Store.Action.{Action}
use pactagent.Repository.Agreements.{
  CreateAgreementInput, create_agreement, find_agreement_for_app, transition_agreement_status,
}
use pactagent.Repository.Events.{create_event, create_infrastructure_audit_log}
use pactagent.Repository.Idempotency.{Env, Context}
use pactagent.Idempotency.{Request, run_idempotent_transaction}

-- `eventTypeForAgreementStatus`
abbrev pub event_type_for_agreement_status : AgreementStatus → Option String
event_type_for_agreement_status AgreementStatus.accepted = some "agreement.accepted"
event_type_for_agreement_status AgreementStatus.funding_required = some "agreement.funding_required"
event_type_for_agreement_status AgreementStatus.funded = some "agreement.funded"
event_type_for_agreement_status AgreementStatus.in_progress = some "agreement.in_progress"
event_type_for_agreement_status AgreementStatus.released = some "agreement.released"
event_type_for_agreement_status AgreementStatus.refunded = some "agreement.refunded"
event_type_for_agreement_status AgreementStatus.cancelled = some "agreement.cancelled"
event_type_for_agreement_status _ = none

-- The `createEvent` of the service, for the agreement.
unfoldable pub announce_agreement : ℕ → Request → ℕ → String → Tx (Unit {0})
announce_agreement app req agreement type =
    create_event app
      (record {
        type = type;
        agreement_id = some agreement;
        milestone_id = none;
        escrow_id = none;
        proof_submission_id = none;
        dispute_id = none;
      })
      req.now

-- `auditLifecycleChange`
unfoldable pub audit_lifecycle_change : ℕ → Request → ℕ → String → Tx (Unit {0})
audit_lifecycle_change app req agreement action = create_infrastructure_audit_log (record {
  app_id = app;
  agreement_id = some agreement;
  actor_type = "api_key";
  actor_id = req.actor;
  action = action;
  target_type = "agreement";
  target_id = agreement;
})

-- The `catch` around `createAgreement`: a taken reference is a conflict.
abbrev pub agreement_conflict : Option ℕ → Result (Agreement × Db) → Result (Agreement × Db)
agreement_conflict (some reference) (err unique_violation) =
    err (conflict "agreement_already_exists")
agreement_conflict _ r = r

unfoldable pub create_agreement_or_conflict : ℕ → CreateAgreementInput → Tx Agreement
create_agreement_or_conflict app input db =
    agreement_conflict input.external_reference_id (create_agreement app input db)

-- The `run` of `createAgreementForApp`
unfoldable pub open_agreement : ℕ → Request → CreateAgreementInput → Context → Tx Resource
open_agreement app req input context = do
  created ← create_agreement_or_conflict app input
  announce_agreement app req created.id "agreement.created"
  audit_lifecycle_change app req created.id "agreement.created"
  pure (Resource.agreement created)

-- `createAgreementForApp`
unfoldable pub create_agreement_for_app : Env → ℕ → Request → CreateAgreementInput → Action Resource
create_agreement_for_app env app req input =
    run_idempotent_transaction env app req 201 (open_agreement app req input)

-- The `run` of `transitionAgreement`
unfoldable pub move_agreement : ℕ → Request → ℕ → AgreementStatus → Context → Tx Resource
move_agreement app req id to context = do
  found ← find_agreement_for_app app id
  before ← or_fail found (not_found "agreement_not_found")
  lift (assert_agreement_transition before.status to)
  after ← transition_agreement_status app id before.status to req.now
  when_some (event_type_for_agreement_status to) (announce_agreement app req id)
  audit_lifecycle_change app req id "agreement.status_changed"
  pure (Resource.agreement after)

-- `transitionAgreement`
unfoldable pub transition_agreement : Env → ℕ → Request → ℕ → AgreementStatus → Action Resource
transition_agreement env app req id to =
    run_idempotent_transaction env app req 200 (move_agreement app req id to)

-- The `run` of `acceptAgreement`: two moves, of which the outside sees both or neither.
unfoldable pub accept : ℕ → Request → ℕ → Context → Tx Resource
accept app req id context = do
  found ← find_agreement_for_app app id
  before ← or_fail found (not_found "agreement_not_found")
  lift (assert_agreement_transition before.status AgreementStatus.pending_acceptance)
  lift (assert_agreement_transition AgreementStatus.pending_acceptance AgreementStatus.accepted)
  transition_agreement_status app id before.status AgreementStatus.pending_acceptance req.now
  accepted ←
      transition_agreement_status app id AgreementStatus.pending_acceptance AgreementStatus.accepted
        req.now
  announce_agreement app req id "agreement.accepted"
  audit_lifecycle_change app req id "agreement.status_changed"
  pure (Resource.agreement accepted)

-- `acceptAgreement`
unfoldable pub accept_agreement : Env → ℕ → Request → ℕ → Action Resource
accept_agreement env app req id = run_idempotent_transaction env app req 200 (accept app req id)

-- `cancelAgreement`
unfoldable pub cancel_agreement : Env → ℕ → Request → ℕ → Action Resource
cancel_agreement env app req id = transition_agreement env app req id AgreementStatus.cancelled

-- `moveAgreementToFundingRequired`
unfoldable pub move_agreement_to_funding_required : Env → ℕ → Request → ℕ → Action Resource
move_agreement_to_funding_required env app req id =
    transition_agreement env app req id AgreementStatus.funding_required
