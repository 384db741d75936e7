-- ===== src/Api/Access.antt =====
-- Who can change what through the API.
use pactagent.Prelude.{
  ℕ, ◌≡◌, refl, sym, ap, ◌∙◌, Bool, true, false, ◌⊎◌, inl, inr, Bool-cases, subst,
}
use pactagent.Errors.{Error, Result, ok, err, authentication_error}
use pactagent.Store.Rows.{Text, Rail}
use pactagent.Store.Tx.{Db}
use pactagent.Store.Action.{Action}
use pactagent.Store.Respects.{err≢ok}
use pactagent.Repository.Idempotency.{Env}
use pactagent.Idempotency.{Request}
use pactagent.Escrow.Adapter.{EscrowAdapter}
use pactagent.Milestones.Keeps.{Respects-open_milestone}
use pactagent.Tenancy.Isolation.{isolation}
use pactagent.Tenancy.Requests.{isolation-Admits, isolation-Serves, isolation-Creates}
use pactagent.Tenancy.Disputes.{isolation-AdmitsDisputes}
use pactagent.Tenancy.Proofs.{isolation-AdmitsProofs}
use pactagent.Tenancy.Agreements.{create_agreement-Isolates, create_milestone-Isolates}
use pactagent.Store.Holds.{Holds-weaken}
use pactagent.Tenancy.Webhooks.{Apart, apart, isolated-Apart, apart-AdmitsWebhooks}
use pactagent.Webhooks.Routes.{Hooks}
use pactagent.Api.{Route, Answer, route_scope, has_scope, scoped, handle_as, serve}
use pactagent.Api.LastUse.{
  key_of, same_key, Named, answered, after_key, UsedOnly, require-UsedOnly, OwnId, OthersKept,
  use-OthersKept,
}
use pactagent.Api.Keys.{ApiKey, Accounts, Headers}
use pactagent.Api.Guard.{AdmitsApi, EachRoute, Holds-lifecycle, each_route, handled_as_at}

isolation-AdmitsApi : (app : ℕ) → AdmitsApi app (isolation app)
isolation-AdmitsApi app = record {
  serves = isolation-Serves app;
  creates = isolation-Creates app;
  disputes = isolation-AdmitsDisputes app;
  proofs = isolation-AdmitsProofs app;
  agreement = create_agreement-Isolates app;
  milestone = Respects-open_milestone (isolation-Admits app) (create_milestone-Isolates app);
}

apart_routes :
    (env : Env) (adapters : Rail → EscrowAdapter) (hooks : Hooks) (app : ℕ)
    → EachRoute env adapters hooks app (apart app)
apart_routes env adapters hooks app =
    each_route env adapters hooks
      (λ req route.
        Holds-weaken (isolated-Apart app)
          (Holds-lifecycle env adapters (isolation-AdmitsApi app) req route))
      (apart-AdmitsWebhooks app)

module _ (env : Env) (adapters : Rail → EscrowAdapter) (hooks : Hooks) (req : Request)
    (route : Route) (db : Db) where
  same_accounts :
      (entry : Result ApiKey × Accounts)
      → (handle_as env adapters hooks entry req route db).1 ≡ entry.1
  same_accounts (err e, accounts) = refl
  same_accounts (ok key, accounts) = refl

  refused_entry :
      (entry : Result ApiKey × Accounts) (e : Error)
      → entry.0 ≡ err e
      → (handle_as env adapters hooks entry req route db).2 ≡ db
  refused_entry (err x, accounts) e h = refl
  refused_entry (ok key, accounts) e h = absurd (err≢ok (sym h))

  unscoped : (b : Bool) (m : Action Answer) → b ≡ false → (scoped env adapters b m db).1 ≡ db
  unscoped true m h = cc
  unscoped false m h = refl

  unscoped_entry :
      (entry : Result ApiKey × Accounts) (key : ApiKey)
      → entry.0 ≡ ok key
      → has_scope key.scopes (route_scope route) ≡ false
      → (handle_as env adapters hooks entry req route db).2 ≡ db
  unscoped_entry (err x, accounts) key h out = absurd (err≢ok h)
  unscoped_entry (ok other, accounts) key h out =
      unscoped _ _ (ap (λ (x : ApiKey). has_scope x.scopes (route_scope route)) (same_key h) ∙ out)

-- A request that comes with a key of an app leaves the rows of every other app as they were, the
-- endpoints and the keys included, and the apps too, whatever its route, its body, the adapters and
-- the network are and however it ends, where no other app has a key under the same id. The job queue
-- is not part of this.
pub serve_isolated :
    (env : Env) (adapters : Rail → EscrowAdapter) (hooks : Hooks) (hash : Text → Text)
    (headers : Headers) (req : Request) (route : Route) (accounts : Accounts) (db : Db)
    (key : ApiKey)
    → key_of hash headers req.now accounts ≡ ok key
    → OwnId key accounts.api_keys
    → Apart key.app_id db (serve env adapters hooks hash headers req route accounts db).2
      × OthersKept key.app_id accounts
          (serve env adapters hooks hash headers req route accounts db).1
unfolding serve
serve_isolated env adapters hooks hash headers req route accounts db key h own = (
  handled_as_at env adapters hooks _
      (λ other e.
        subst (λ (x : ApiKey). EachRoute env adapters hooks x.app_id (apart key.app_id))
          (same_key (sym h ∙ e)) (apart_routes env adapters hooks key.app_id))
      req route db,
  subst (OthersKept key.app_id accounts)
      (sym (
        same_accounts env adapters hooks req route db _
        ∙ after_key hash headers req.now accounts key h))
      (use-OthersKept key req.now accounts own),
)

-- A key that a request comes with is in the table, active, of an active app, under the hash of what
-- the headers carry, and it has the route's scope.
pub record Authorized (hash : Text → Text) (headers : Headers) (route : Route) (accounts : Accounts)
    : Type 0 where
  pub key : ApiKey
  pub named : Named hash headers accounts key
  pub in_scope : has_scope key.scopes (route_scope route) ≡ true

-- A request to a route behind an API key that changes the tables: of the accounts it changes no more
-- than the times at which keys were last used, and every other table is as it was unless the request
-- carries a key that is stored, active, of an active app and has the route's scope.
pub serve-Authorized :
    (env : Env) (adapters : Rail → EscrowAdapter) (hooks : Hooks) (hash : Text → Text)
    (headers : Headers) (req : Request) (route : Route) (accounts : Accounts) (db : Db)
    → UsedOnly accounts (serve env adapters hooks hash headers req route accounts db).1
      × (((serve env adapters hooks hash headers req route accounts db).2 ≡ db)
          ⊎ Authorized hash headers route accounts)
unfolding serve
serve-Authorized env adapters hooks hash headers req route accounts db = (
  subst (UsedOnly accounts) (sym (same_accounts env adapters hooks req route db _))
      (require-UsedOnly hash headers req.now accounts),
  elim (answered hash headers req.now accounts) [
    | inl refused ↦ inl (
        refused_entry env adapters hooks req route db _ authentication_error
          (ap (λ p. p.0) refused))
    | inr accepted ↦ elim (Bool-cases (has_scope accepted.key.scopes (route_scope route))) [
      | inl in_scope ↦
          inr (record { key = accepted.key; named = accepted.named; in_scope = in_scope })
      | inr out ↦ inl (
          unscoped_entry env adapters hooks req route db _ accepted.key
            (ap (λ p. p.0) accepted.gives) out)
    ]
  ],
)
