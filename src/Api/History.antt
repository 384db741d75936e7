-- ===== src/Api/History.antt =====
-- The tables over any number of requests, of any apps and in any order.
use pactagent.Prelude.{ℕ, refl, [], arith}
use pactagent.Store.Rows.{Text, Rail}
use pactagent.Store.Tx.{Db}
use pactagent.Repository.Idempotency.{Env}
use pactagent.Idempotency.{Request}
use pactagent.Escrow.Adapter.{EscrowAdapter}
use pactagent.Milestones.Allocation.{Allocated, allocated}
use pactagent.Milestones.Allocation.Keeps.{
  allocation, allocation-Raw, allocation-Admits, other_rows, allocation-Serves, allocation-Creates,
  allocation-AdmitsDisputes, allocation-AdmitsProofs,
}
use pactagent.Milestones.Allocation.Requests.{create_agreement_kept}
use pactagent.Milestones.Allocation.Creation.{open_milestone_kept}
use pactagent.Store.Respects.{
  Respects-bind, Respects-reads, Respects-modify, Respects-pure, Respects-or_fail,
}
use pactagent.Repository.Writes.{Respects-new_id}
use pactagent.Repository.Endpoints.{create_webhook_endpoint, update_endpoint_row}
use pactagent.Webhooks.Delivery.{mark_webhook_delivery_for_retry}
use pactagent.Webhooks.Routes.{Hooks, AdmitsWebhooks}
use pactagent.Api.{Route, serve}
use pactagent.Api.Keys.{Accounts, Headers}
use pactagent.Api.Guard.{AdmitsApi, Holds-lifecycle, each_route, handled_as_at}

abbrev pub no_rows : Db
no_rows = record {
  agreements = [];
  milestones = [];
  escrows = [];
  transactions = [];
  disputes = [];
  proofs = [];
  reviews = [];
  events = [];
  webhook_endpoints = [];
  webhook_deliveries = [];
  jobs = [];
  audit_logs = [];
  idempotency_keys = [];
  next_id = 0;
}

-- What requests lead to from empty tables. The accounts, the adapters' answers and the settings may
-- be others for each request.
pub data Served (hash : Text → Text) : Db → Type 0 where
  start : Served hash no_rows
  request :
      {db : Db}
      → Served hash db
      → (env : Env) (adapters : Rail → EscrowAdapter) (hooks : Hooks) (headers : Headers)
        (req : Request) (route : Route) (accounts : Accounts)
      → Served hash (serve env adapters hooks hash headers req route accounts db).2

allocation-AdmitsApi : (app : ℕ) → AdmitsApi app allocation
allocation-AdmitsApi app = record {
  serves = allocation-Serves app;
  creates = allocation-Creates app;
  disputes = allocation-AdmitsDisputes app;
  proofs = allocation-AdmitsProofs app;
  agreement = create_agreement_kept app;
  milestone = open_milestone_kept app;
}

allocation-AdmitsWebhooks : (app : ℕ) → AdmitsWebhooks app allocation
unfolding create_webhook_endpoint update_endpoint_row mark_webhook_delivery_for_retry
allocation-AdmitsWebhooks app = record {
  endpoint = λ input normalized secret.
      Respects-bind _ _ (Respects-new_id (allocation-Raw {app = app})) λ id.
        Respects-bind _ _ (Respects-modify _ λ db. other_rows db _ refl refl refl)
          λ _. Respects-pure _;
  endpoint_row = λ id change h.
      Respects-bind _ _ (Respects-modify _ λ db. other_rows db _ refl refl refl)
        λ _. Respects-bind _ _ (Respects-reads _) λ found. Respects-or_fail _ _;
  mark = λ id now. Respects-bind _ _ (Respects-reads _) λ count.
      Respects-bind _ _ (Respects-modify _ λ db. other_rows db _ refl refl refl)
        λ _. Respects-bind _ _ (Respects-reads _) λ found. Respects-pure _;
  audit = (allocation-Admits app).audit;
  job = (allocation-Admits app).job;
}

no_rows-Allocated : Allocated no_rows
unfolding allocated
no_rows-Allocated = record {
  agreement_ids = tt;
  milestone_ids = tt;
  bound = λ app id a h. omega arith;
}

-- After any sequence of requests from empty tables, the milestones of an agreement come to no more
-- than the agreement's amount, for every agreement of every app.
pub served-Allocated : (hash : Text → Text) (db : Db) → Served hash db → Allocated db
unfolding serve
served-Allocated hash _ start = no_rows-Allocated
served-Allocated hash _ (request {db} before env adapters hooks headers req route accounts) =
    handled_as_at env adapters hooks _
      (λ key e.
        each_route env adapters hooks
          (Holds-lifecycle env adapters (allocation-AdmitsApi key.app_id))
          (allocation-AdmitsWebhooks key.app_id))
      req route db (served-Allocated hash db before)
