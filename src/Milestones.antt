-- ===== src/Milestones.antt =====
-- server/src/modules/milestones/milestone.service.ts: an app adds a milestone to an agreement that
-- is not funded yet.
pub mod Keeps
pub mod Allocation
use pactagent.Prelude.{ℕ, suc, Bool, Option, none, some, String, List, [], ◌∷◌, contains}
use pactagent.Errors.{
  Error, Result, ok, err, conflict, not_found, invalid_request, unique_violation, reject_if,
  require,
}
use pactagent.Lifecycle.Agreement.{AgreementStatus, agreement_eq}
use pactagent.Store.Rows.{Text, Milestone, Resource}
use pactagent.Store.Tx.{Db, Tx, pure, lift, or_fail, ◌>>=◌, ◌>>◌}
use pactagent.Store.Action.{Action}
use pactagent.Amounts.{
  sum_integer_amounts, assert_currency_matches_agreement,
  assert_milestone_allocation_within_agreement,
}
use pactagent.Repository.Agreements.{find_agreement_for_app}
use pactagent.Repository.Milestones.{
  CreateMilestoneInput, create_milestone, lock_agreement_for_milestone_allocation,
  get_milestone_amount_sum_for_agreement, get_next_milestone_order,
}
use pactagent.Repository.Events.{create_event, create_infrastructure_audit_log}
use pactagent.Repository.Idempotency.{Env, Context}
use pactagent.Idempotency.{Request, run_idempotent_transaction}

-- The statuses from which the terms of an agreement are fixed.
abbrev pub funded_statuses : List AgreementStatus
funded_statuses =
    AgreementStatus.funded ∷ AgreementStatus.in_progress ∷ AgreementStatus.proof_submitted
    ∷ AgreementStatus.under_review ∷ AgreementStatus.approved ∷ AgreementStatus.release_pending
    ∷ AgreementStatus.released ∷ AgreementStatus.refunded ∷ AgreementStatus.disputed ∷ []

-- `input.order ?? ((lastMilestone?.sortOrder ?? 0) + 1)`
abbrev pub order_for : Option ℕ → Option ℕ → ℕ
order_for (some order) last = order
order_for none none = 1
order_for none (some last) = suc last

-- `input.currency ?? agreement.currency`
abbrev pub currency_for : Option Text → Text → Text
currency_for (some currency) agreement = currency
currency_for none agreement = agreement

-- The `catch` around `createMilestone`.
abbrev pub milestone_conflict : Result (Milestone × Db) → Result (Milestone × Db)
milestone_conflict (err unique_violation) = err (conflict "milestone_already_exists")
milestone_conflict r = r

unfoldable pub create_milestone_or_conflict : ℕ → ℕ → CreateMilestoneInput → ℕ → Text → Tx Milestone
create_milestone_or_conflict app agreement input order currency db =
    milestone_conflict (create_milestone app agreement input order currency db)

-- `auditMilestoneCreate`
unfoldable pub audit_milestone_create : ℕ → Request → ℕ → ℕ → Tx (Unit {0})
audit_milestone_create app req agreement milestone = create_infrastructure_audit_log (record {
  app_id = app;
  agreement_id = some agreement;
  actor_type = "api_key";
  actor_id = req.actor;
  action = "milestone.created";
  target_type = "milestone";
  target_id = milestone;
})

-- The `createEvent` of the service.
unfoldable pub announce_milestone : ℕ → Request → ℕ → ℕ → Tx (Unit {0})
announce_milestone app req agreement milestone =
    create_event app
      (record {
        type = "milestone.created";
        agreement_id = some agreement;
        milestone_id = some milestone;
        escrow_id = none;
        proof_submission_id = none;
        dispute_id = none;
      })
      req.now

-- The `run` of `createMilestoneForAgreement`
unfoldable pub open_milestone : ℕ → Request → ℕ → CreateMilestoneInput → Context → Tx Resource
open_milestone app req id input context = do
  locked ← lock_agreement_for_milestone_allocation app id
  lift (require locked (not_found "agreement_not_found"))
  found ← find_agreement_for_app app id
  agreement ← or_fail found (not_found "agreement_not_found")
  lift (
      reject_if (contains funded_statuses agreement.status)
        (invalid_request "funded_agreement_immutable"))
  existing ← get_milestone_amount_sum_for_agreement app id
  existing_total ← lift (sum_integer_amounts existing)
  lift (assert_milestone_allocation_within_agreement existing_total input.amount agreement.amount)
  last ← get_next_milestone_order app id
  lift (
      assert_currency_matches_agreement (currency_for input.currency agreement.currency)
        agreement.currency)
  created ←
      create_milestone_or_conflict app id input (order_for input.order last)
        (currency_for input.currency agreement.currency)
  announce_milestone app req id created.id
  audit_milestone_create app req id created.id
  pure (Resource.milestone created)

-- `createMilestoneForAgreement`
unfoldable pub create_milestone_for_agreement :
    Env → ℕ → Request → ℕ → CreateMilestoneInput → Action Resource
create_milestone_for_agreement env app req id input =
    run_idempotent_transaction env app req 201 (open_milestone app req id input)
