-- ===== src/Api/Guard.antt =====
-- What a request can do, from its headers on.
use pactagent.Prelude.{ℕ, ◌≡◌, refl, Bool, true, false}
use pactagent.Errors.{Result, ok, err}
use pactagent.Store.Rows.{Rail}
use pactagent.Store.Tx.{Db}
use pactagent.Store.Action.{Action}
use pactagent.Store.Respects.{Keeping, Respects}
use pactagent.Store.Holds.{Holds}
use pactagent.Repository.Idempotency.{Env, Context}
use pactagent.Repository.Milestones.{CreateMilestoneInput}
use pactagent.Lifecycle.Agreement.{AgreementStatus}
use pactagent.Repository.Agreements.{CreateAgreementInput, create_agreement}
use pactagent.Idempotency.{Request}
use pactagent.Escrow.Adapter.{EscrowAdapter}
use pactagent.Escrow.Keeps.{any_settlement}
use pactagent.Escrow.FlowKeeps.{
  Serves, Creates, Holds-creation, Holds-settlement, Holds-funding, Holds-run,
}
use pactagent.Disputes.{create_dispute_for_app, resolve_dispute_for_app}
use pactagent.Disputes.Keeps.{AdmitsDisputes, Respects-open_dispute, Respects-resolve_dispute}
use pactagent.Proofs.{create_proof_for_app, review_proof_for_app}
use pactagent.Proofs.Keeps.{AdmitsProofs, Respects-submit_proof, Respects-review_proof}
use pactagent.Agreements.{
  create_agreement_for_app, accept_agreement, cancel_agreement, move_agreement_to_funding_required,
  transition_agreement,
}
use pactagent.Agreements.Keeps.{Respects-open_agreement, Respects-move_agreement, Respects-accept}
use pactagent.Milestones.{create_milestone_for_agreement, open_milestone}
use pactagent.Webhooks.Routes.{Hooks, AdmitsWebhooks, Holds-answer, Holds-webhook}
use pactagent.Api.{
  LifecycleRoute, Route, Answer, route_scope, has_scope, run_lifecycle, run_route, scoped,
  handle_as,
}
use pactagent.Api.Keys.{ApiKey, Accounts}

-- The relation admits all that the routes of the lifecycle write for the app.
pub record AdmitsApi (app : ℕ) (k : Keeping) : Type 1 where
  pub serves : Serves app k
  pub creates : Creates app k
  pub disputes : AdmitsDisputes app k
  pub proofs : AdmitsProofs app k
  pub agreement : (input : CreateAgreementInput) → Respects k (create_agreement app input)
  pub milestone :
      (req : Request) (id : ℕ) (input : CreateMilestoneInput) (context : Context)
      → Respects k (open_milestone app req id input context)

module _ (env : Env) (adapters : Rail → EscrowAdapter) {app : ℕ} {k : Keeping}
    (a : AdmitsApi app k) where
  Holds-transition :
      (req : Request) (id : ℕ) (to : AgreementStatus)
      → Holds k (transition_agreement env app req id to)
  unfolding transition_agreement
  Holds-transition req id to =
      Holds-run a.serves env req 200 _ λ c. Respects-move_agreement a.serves.writes req id to c

  pub Holds-lifecycle :
      (req : Request) (route : LifecycleRoute) → Holds k (run_lifecycle env adapters app req route)
  unfolding create_agreement_for_app accept_agreement cancel_agreement
      move_agreement_to_funding_required create_milestone_for_agreement create_dispute_for_app
      resolve_dispute_for_app create_proof_for_app review_proof_for_app
  Holds-lifecycle req (LifecycleRoute.post_agreement input) =
      Holds-run a.serves env req 201 _
        λ c. Respects-open_agreement a.serves.writes a.agreement req input c
  Holds-lifecycle req (LifecycleRoute.post_accept id) =
      Holds-run a.serves env req 200 _ λ c. Respects-accept a.serves.writes req id c
  Holds-lifecycle req (LifecycleRoute.post_funding_required id) = Holds-transition req id _
  Holds-lifecycle req (LifecycleRoute.post_cancel id) = Holds-transition req id _
  Holds-lifecycle req (LifecycleRoute.post_milestone id input) =
      Holds-run a.serves env req 201 _ λ c. a.milestone req id input c
  Holds-lifecycle req (LifecycleRoute.post_escrow input) =
      Holds-creation a.serves env adapters a.creates (λ s t. tt) req input
  Holds-lifecycle req (LifecycleRoute.post_mark_funded id hash) =
      Holds-funding a.serves env adapters req id hash λ s t h c. tt
  Holds-lifecycle req (LifecycleRoute.post_release id) =
      Holds-settlement a.serves env adapters req id _ any_settlement
  Holds-lifecycle req (LifecycleRoute.post_refund id) =
      Holds-settlement a.serves env adapters req id _ any_settlement
  Holds-lifecycle req (LifecycleRoute.post_dispute input) =
      Holds-run a.serves env req 201 _
        λ c. Respects-open_dispute a.serves.writes a.disputes req input c
  Holds-lifecycle req (LifecycleRoute.post_resolve id input) =
      Holds-run a.serves env req 200 _
        λ c. Respects-resolve_dispute a.serves.writes a.disputes req id input c
  Holds-lifecycle req (LifecycleRoute.post_proof input) =
      Holds-run a.serves env req 201 _
        λ c. Respects-submit_proof a.serves.writes a.proofs req input c
  Holds-lifecycle req (LifecycleRoute.post_review id input) =
      Holds-run a.serves env req 200 _
        λ c. Respects-review_proof a.serves.writes a.proofs req id input c

-- The relation is kept by each route's handler, for the app.
abbrev pub EachRoute : Env → (Rail → EscrowAdapter) → Hooks → ℕ → Keeping → Type 0
EachRoute env adapters hooks app k =
    (req : Request) (route : Route) → Holds k (run_route env adapters hooks app req route)

module _ (env : Env) (adapters : Rail → EscrowAdapter) (hooks : Hooks) where
  pub each_route :
      {app : ℕ} {k : Keeping}
      → ((req : Request) (route : LifecycleRoute)
          → Holds k (run_lifecycle env adapters app req route))
      → AdmitsWebhooks app k
      → EachRoute env adapters hooks app k
  each_route h w req (Route.lifecycle route) = Holds-answer _ _ (h req route)
  each_route h w req (Route.webhook route) = Holds-answer _ _ (Holds-webhook w req hooks route)

  module _ {k : Keeping} where
    scoped_at :
        (b : Bool) (m : Action Answer) (db : Db)
        → Holds k m
        → k.rel db (scoped env adapters b m db).1
    scoped_at true m db h = h.at db
    scoped_at false m db h = k.reflexive db

    pub handled_as_at :
        (entry : Result ApiKey × Accounts)
        → ((key : ApiKey) → entry.0 ≡ ok key → EachRoute env adapters hooks key.app_id k)
        → (req : Request) (route : Route) (db : Db)
        → k.rel db (handle_as env adapters hooks entry req route db).2
    handled_as_at (err e, accounts) a req route db = k.reflexive db
    handled_as_at (ok key, accounts) a req route db =
        scoped_at (has_scope key.scopes (route_scope route)) _ db (a key refl _ route)
