-- ===== src/Api.antt =====
-- The infrastructure API as its routers put it together (server/src/modules/agreements, milestones,
-- escrows, disputes, proofs and webhooks, the `*.routes.ts` and `*.controller.ts` files): a request passes the
-- API key, then the scope of its route, then its handler. The rate limits, the validation of the
-- body and the requests that only read are left out.
pub mod Keys
pub mod Apps
pub mod LastUse
pub mod Guard
pub mod History
pub mod Revocation
pub mod Access
use pactagent.Prelude.{ℕ, Bool, true, false, ◌||◌, Option, none, some, List, [], ◌∷◌, if◌then◌else◌}
use pactagent.Errors.{Error, Result, ok, err, permission_error}
use pactagent.Store.Rows.{Text, Rail, Resource, ActorId}
use pactagent.Store.Tx.{Db}
use pactagent.Store.Action.{Action}
use pactagent.Repository.Agreements.{CreateAgreementInput}
use pactagent.Repository.Milestones.{CreateMilestoneInput}
use pactagent.Repository.Escrows.{CreateEscrowInput}
use pactagent.Repository.Disputes.{CreateDisputeInput, ResolveDisputeInput}
use pactagent.Repository.Proofs.{CreateProofInput, ReviewProofInput}
use pactagent.Repository.Idempotency.{Env}
use pactagent.Idempotency.{Request}
use pactagent.Escrow.Adapter.{EscrowAdapter}
use pactagent.Escrow.Settlement.{Operation}
use pactagent.Escrow.Flows.{execute_escrow_settlement, create_escrow_for_app, mark_escrow_funded}
use pactagent.Agreements.{
  create_agreement_for_app, accept_agreement, cancel_agreement, move_agreement_to_funding_required,
}
use pactagent.Milestones.{create_milestone_for_agreement}
use pactagent.Disputes.{create_dispute_for_app, resolve_dispute_for_app}
use pactagent.Proofs.{create_proof_for_app, review_proof_for_app}
use pactagent.Webhooks.Routes.{WebhookRoute, Hooks, Hooked, answer, run_webhook}
use pactagent.Api.Keys.{ApiKeyScope, scope_beq, ApiKey, Accounts, Headers, require_api_key}

-- The routes of agreements, milestones, escrows, disputes and proofs that change the tables, each
-- with the id of its path and its body.
pub data LifecycleRoute : Type 0 where
  post_agreement : CreateAgreementInput → LifecycleRoute
  post_accept post_funding_required post_cancel : ℕ → LifecycleRoute
  post_milestone : ℕ → CreateMilestoneInput → LifecycleRoute
  post_escrow : CreateEscrowInput → LifecycleRoute
  post_mark_funded : ℕ → Option Text → LifecycleRoute
  post_release post_refund : ℕ → LifecycleRoute
  post_dispute : CreateDisputeInput → LifecycleRoute
  post_resolve : ℕ → ResolveDisputeInput → LifecycleRoute
  post_proof : CreateProofInput → LifecycleRoute
  post_review : ℕ → ReviewProofInput → LifecycleRoute

-- The routes behind an API key that change the tables. What an owner does with apps and keys is
-- behind a session, and what an administrator does behind a token; neither is among them.
pub data Route : Type 0 where
  lifecycle : LifecycleRoute → Route
  webhook : WebhookRoute → Route

-- The scope in the route's `requireScope`.
abbrev pub lifecycle_scope : LifecycleRoute → ApiKeyScope
lifecycle_scope (LifecycleRoute.post_agreement _) = ApiKeyScope.agreements_create
lifecycle_scope (LifecycleRoute.post_accept _) = ApiKeyScope.agreements_update
lifecycle_scope (LifecycleRoute.post_funding_required _) = ApiKeyScope.agreements_update
lifecycle_scope (LifecycleRoute.post_cancel _) = ApiKeyScope.agreements_cancel
lifecycle_scope (LifecycleRoute.post_milestone _ _) = ApiKeyScope.milestones_create
lifecycle_scope (LifecycleRoute.post_escrow _) = ApiKeyScope.escrows_create
lifecycle_scope (LifecycleRoute.post_mark_funded _ _) = ApiKeyScope.escrows_fund
lifecycle_scope (LifecycleRoute.post_release _) = ApiKeyScope.escrows_release
lifecycle_scope (LifecycleRoute.post_refund _) = ApiKeyScope.escrows_refund
lifecycle_scope (LifecycleRoute.post_dispute _) = ApiKeyScope.disputes_create
lifecycle_scope (LifecycleRoute.post_resolve _ _) = ApiKeyScope.disputes_resolve
lifecycle_scope (LifecycleRoute.post_proof _) = ApiKeyScope.proofs_create
lifecycle_scope (LifecycleRoute.post_review _ _) = ApiKeyScope.proofs_review

abbrev pub route_scope : Route → ApiKeyScope
route_scope (Route.lifecycle route) = lifecycle_scope route
route_scope (Route.webhook _) = ApiKeyScope.webhooks_manage

-- The `data` of a response.
pub data Answer : Type 0 where
  resource : Resource → Answer
  hooked : Hooked → Answer

abbrev pub has_scope : List ApiKeyScope → ApiKeyScope → Bool
has_scope [] scope = false
has_scope (x ∷ xs) scope = scope_beq x scope || has_scope xs scope

module _ (env : Env) (adapters : Rail → EscrowAdapter) where
  -- The route's handler, for the app of the key.
  abbrev pub run_lifecycle : ℕ → Request → LifecycleRoute → Action Resource
  run_lifecycle app req (LifecycleRoute.post_agreement input) =
      create_agreement_for_app env app req input
  run_lifecycle app req (LifecycleRoute.post_accept id) = accept_agreement env app req id
  run_lifecycle app req (LifecycleRoute.post_funding_required id) =
      move_agreement_to_funding_required env app req id
  run_lifecycle app req (LifecycleRoute.post_cancel id) = cancel_agreement env app req id
  run_lifecycle app req (LifecycleRoute.post_milestone id input) =
      create_milestone_for_agreement env app req id input
  run_lifecycle app req (LifecycleRoute.post_escrow input) =
      create_escrow_for_app env adapters app req input
  run_lifecycle app req (LifecycleRoute.post_mark_funded id hash) =
      mark_escrow_funded env adapters app req id hash
  run_lifecycle app req (LifecycleRoute.post_release id) =
      execute_escrow_settlement env adapters app req id Operation.release
  run_lifecycle app req (LifecycleRoute.post_refund id) =
      execute_escrow_settlement env adapters app req id Operation.refund
  run_lifecycle app req (LifecycleRoute.post_dispute input) =
      create_dispute_for_app env app req input
  run_lifecycle app req (LifecycleRoute.post_resolve id input) =
      resolve_dispute_for_app env app req id input
  run_lifecycle app req (LifecycleRoute.post_proof input) = create_proof_for_app env app req input
  run_lifecycle app req (LifecycleRoute.post_review id input) =
      review_proof_for_app env app req id input

  abbrev pub run_route : Hooks → ℕ → Request → Route → Action Answer
  run_route hooks app req (Route.lifecycle route) =
      answer Answer.resource (run_lifecycle app req route)
  run_route hooks app req (Route.webhook route) =
      answer Answer.hooked (run_webhook hooks app req route)

  -- `requireScope`, and the handler behind it.
  abbrev pub scoped : Bool → Action Answer → Action Answer
  scoped true m db = m db
  scoped false m db = (err permission_error, db)

  abbrev pub run_as : Hooks → ApiKey → Request → Route → Action Answer
  run_as hooks key req route =
      scoped (has_scope key.scopes (route_scope route))
        (run_route hooks key.app_id (record req { actor = some (ActorId.api_key key.id) }) route)

  abbrev pub handle_as :
      Hooks → Result ApiKey × Accounts → Request → Route → Db → Result Answer × Accounts × Db
  handle_as hooks (err e, accounts) req route db = (err e, accounts, db)
  handle_as hooks (ok key, accounts) req route db =
      let (result, db') = run_as hooks key req route db in (result, accounts, db')

  -- A request from its headers on.
  unfoldable pub serve :
      Hooks
      → (Text → Text)
      → Headers
      → Request
      → Route
      → Accounts
      → Db
      → Result Answer × Accounts × Db
  serve hooks hash_api_key headers req route accounts db =
      handle_as hooks (require_api_key hash_api_key headers req.now accounts) req route db
