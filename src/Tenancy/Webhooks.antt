-- ===== src/Tenancy/Webhooks.antt =====
-- Every request on the webhooks of an app leaves the rows of the other apps as they were.
use pactagent.Prelude.{
  ℕ, Bool, ◌&&◌, update_rows, ◌≡◌, refl, ap, ◌∙◌, [], ◌==◌, nat_eq, arith, true,
}
use pactagent.Store.Rows.{Text, WebhookEndpoint, WebhookDelivery}
use pactagent.Store.Tx.{Db}
use pactagent.Store.Respects.{
  Keeping, Respects, Respects-bind, Respects-reads, Respects-modify, Respects-pure,
  Respects-or_fail, Respects-weaken,
}
use pactagent.Repository.Raw.{Within}
use pactagent.Repository.Writes.{Respects-new_id}
use pactagent.Repository.Endpoints.{
  CreateWebhookEndpointInput, Secret, create_webhook_endpoint, update_endpoint_row, is_endpoint,
}
use pactagent.Webhooks.Delivery.{mark_webhook_delivery_for_retry, is_delivery, can_be_retried}
use pactagent.Webhooks.Routes.{AdmitsWebhooks}
use pactagent.Tenancy.Isolation.{Isolates, isolation, others}
use pactagent.Tenancy.Writes.{isolation-Raw, update-Within, cons-Within}
use pactagent.Tenancy.Requests.{isolation-Admits}

-- The endpoints aside.
abbrev without_endpoints : Db → Db
without_endpoints db = record db { webhook_endpoints = [] }

-- Every row of an app other than `app` is where it was, with what it held: the rows of endpoints, too,
-- which the app itself may change here.
pub record Apart (app : ℕ) (before after : Db) : Type 0 where
  pub rest : Isolates app (without_endpoints before) (without_endpoints after)
  pub webhook_endpoints :
      others (λ row. row.app_id == app) after.webhook_endpoints
      ≡ others (λ row. row.app_id == app) before.webhook_endpoints

abbrev pub apart : ℕ → Keeping
apart app = record {
  rel = Apart app;
  reflexive = λ db. record {
    rest = (isolation app).reflexive (without_endpoints db);
    webhook_endpoints = refl;
  };
  transitive = λ a b c h k. record {
    rest = (isolation app).transitive _ (without_endpoints b) _ h.rest k.rest;
    webhook_endpoints = k.webhook_endpoints ∙ h.webhook_endpoints;
  };
}

pub isolated-Apart :
    (app : ℕ) (before after : Db) → Isolates app before after → Apart app before after
isolated-Apart app before after h = record {
  rest = record {
    agreements = h.agreements;
    milestones = h.milestones;
    escrows = h.escrows;
    transactions = h.transactions;
    disputes = h.disputes;
    proofs = h.proofs;
    reviews = h.reviews;
    events = h.events;
    webhook_endpoints = refl;
    webhook_deliveries = h.webhook_deliveries;
    audit_logs = h.audit_logs;
    idempotency_keys = h.idempotency_keys;
  };
  webhook_endpoints = ap (others (λ row. row.app_id == app)) h.webhook_endpoints;
}

module _ (app : ℕ) where
  create_endpoint-Apart :
      (input : CreateWebhookEndpointInput) (normalized : Text) (secret : Secret)
      → Respects (apart app) (create_webhook_endpoint app input normalized secret)
  unfolding create_webhook_endpoint
  create_endpoint-Apart input normalized secret =
      Respects-bind _ _ (Respects-weaken (isolated-Apart app) (Respects-new_id (isolation-Raw app)))
        λ id.
          Respects-bind _ _
            (Respects-modify _ λ db. record {
              rest = (isolation app).reflexive (without_endpoints db);
              webhook_endpoints = cons-Within (λ row. row.app_id) app _ _ refl;
            })
            λ _. Respects-pure _

  own_endpoint : (id : ℕ) (row : WebhookEndpoint) → is_endpoint app id row ≡ true → row.app_id ≡ app
  own_endpoint id row h = ground arith

  update_endpoint-Apart :
      (id : ℕ) (change : WebhookEndpoint → WebhookEndpoint)
      → ((row : WebhookEndpoint) → (change row).app_id ≡ row.app_id)
      → Respects (apart app) (update_endpoint_row app id change)
  unfolding update_endpoint_row
  update_endpoint-Apart id change h =
      Respects-bind _ _
        (Respects-modify _ λ db. record {
          rest = (isolation app).reflexive (without_endpoints db);
          webhook_endpoints =
              update-Within (λ row. row.app_id) app _ change _
                λ row t. (own_endpoint id row t, h row ∙ own_endpoint id row t);
        })
        λ _. Respects-bind _ _ (Respects-reads _) λ found. Respects-or_fail _ _

  own_delivery :
      (id : ℕ) (row : WebhookDelivery)
      → is_delivery app id row && can_be_retried row.status ≡ true
      → row.app_id ≡ app
  own_delivery id row h = ground arith

  deliveries-Isolates :
      (db : Db) (test : WebhookDelivery → Bool) (change : WebhookDelivery → WebhookDelivery)
      → Within (λ row. row.app_id) app test change
      → Isolates app db
          (record db { webhook_deliveries = update_rows test change db.webhook_deliveries })
  deliveries-Isolates db test change h = record {
    agreements = refl;
    milestones = refl;
    escrows = refl;
    transactions = refl;
    disputes = refl;
    proofs = refl;
    reviews = refl;
    events = refl;
    webhook_endpoints = refl;
    webhook_deliveries = update-Within (λ row. row.app_id) app test change _ h;
    audit_logs = refl;
    idempotency_keys = refl;
  }

  mark-Isolates :
      (id now : ℕ) → Respects (isolation app) (mark_webhook_delivery_for_retry app id now)
  unfolding mark_webhook_delivery_for_retry
  mark-Isolates id now = Respects-bind _ _ (Respects-reads _) λ count.
      Respects-bind _ _
        (Respects-modify _
          λ db. deliveries-Isolates db _ _ λ row t. (own_delivery id row t, own_delivery id row t))
        λ _. Respects-bind _ _ (Respects-reads _) λ found. Respects-pure _

  pub apart-AdmitsWebhooks : AdmitsWebhooks app (apart app)
  apart-AdmitsWebhooks = record {
    endpoint = create_endpoint-Apart;
    endpoint_row = update_endpoint-Apart;
    mark = λ id now. Respects-weaken (isolated-Apart app) (mark-Isolates id now);
    audit = λ row h. Respects-weaken (isolated-Apart app) ((isolation-Admits app).audit row h);
    job = λ job. Respects-weaken (isolated-Apart app) ((isolation-Admits app).job job);
  }
