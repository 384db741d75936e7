-- ===== src/Webhooks/Routes.antt =====
-- server/src/modules/webhooks/webhook.routes.ts and webhook.controller.ts: the requests on endpoints
-- and deliveries that change the tables, and the relations that keep through them.
use pactagent.Prelude.{ℕ, ◌≡◌, refl, String, Option, none, some}
use pactagent.Store.Rows.{Text, WebhookEndpoint, WebhookDelivery, AuditLog}
use pactagent.Store.Action.{Action, transaction, return, ◌>>=◌, ◌>>◌}
use pactagent.Store.Respects.{
  Keeping, Respects, Respects-bind, Respects-pure, Respects-reads, Respects-or_fail,
}
use pactagent.Store.Holds.{
  Holds, Holds-transaction, Holds-if, Holds-throw, Holds-return, Holds-bind, Holds-call,
}
use pactagent.Repository.Events.{create_infrastructure_audit_log}
use pactagent.Repository.Jobs.{NewJob, enqueue_job}
use pactagent.Repository.Endpoints.{
  CreateWebhookEndpointInput, UpdateWebhookEndpointInput, Secret, create_webhook_endpoint,
  find_webhook_endpoint_for_app, update_endpoint_row,
}
use pactagent.Idempotency.{Request}
use pactagent.Webhooks.Fetch.{Network, Environment}
use pactagent.Webhooks.Endpoints.{
  audit_webhook, create_webhook_endpoint_for_app, update_webhook_endpoint_for_app,
  delete_webhook_endpoint_for_app,
}
use pactagent.Webhooks.Delivery.{
  enqueue_webhook_delivery_job, mark_webhook_delivery_for_retry, queue_again, retry_found,
  retry_webhook_delivery_for_app,
}

-- Each with the id of its path and its body.
pub data WebhookRoute : Type 0 where
  post_endpoint : CreateWebhookEndpointInput → WebhookRoute
  patch_endpoint : ℕ → UpdateWebhookEndpointInput → WebhookRoute
  delete_endpoint post_retry : ℕ → WebhookRoute

-- What the handlers ask of the outside: the network, the environment in the row of an app and a new
-- secret.
pub record Hooks : Type 0 where
  pub network : Network
  pub environment : ℕ → Environment
  pub secret : Secret

pub data Hooked : Type 0 where
  endpoint : WebhookEndpoint → Hooked
  delivery : WebhookDelivery → Hooked

-- `sendSuccess`
abbrev pub answer : {A B : Type 0} → (A → B) → Action A → Action B
answer f m = m >>= λ a. return (f a)

-- The handler, for the app of the key.
abbrev pub run_webhook : Hooks → ℕ → Request → WebhookRoute → Action Hooked
run_webhook hooks app req (WebhookRoute.post_endpoint input) = answer Hooked.endpoint (
    create_webhook_endpoint_for_app hooks.network (hooks.environment app) app req hooks.secret
      input)
run_webhook hooks app req (WebhookRoute.patch_endpoint id input) =
    answer Hooked.endpoint
      (update_webhook_endpoint_for_app hooks.network (hooks.environment app) app req id input)
run_webhook hooks app req (WebhookRoute.delete_endpoint id) =
    answer Hooked.endpoint
      (delete_webhook_endpoint_for_app hooks.network (hooks.environment app) app req id)
run_webhook hooks app req (WebhookRoute.post_retry id) =
    answer Hooked.delivery (retry_webhook_delivery_for_app app req id)

-- The relation admits each write that they make for the app.
pub record AdmitsWebhooks (app : ℕ) (k : Keeping) : Type 0 where
  pub endpoint :
      (input : CreateWebhookEndpointInput) (normalized : Text) (secret : Secret)
      → Respects k (create_webhook_endpoint app input normalized secret)
  pub endpoint_row :
      (id : ℕ) (change : WebhookEndpoint → WebhookEndpoint)
      → ((row : WebhookEndpoint) → (change row).app_id ≡ row.app_id)
      → Respects k (update_endpoint_row app id change)
  pub mark : (id now : ℕ) → Respects k (mark_webhook_delivery_for_retry app id now)
  pub audit : (row : AuditLog) → row.app_id ≡ app → Respects k (create_infrastructure_audit_log row)
  pub job : (job : NewJob) → Respects k (enqueue_job job)

pub Holds-answer :
    {A B : Type 0} {k : Keeping} (f : A → B) (m : Action A) → Holds k m → Holds k (answer f m)
Holds-answer f m h = Holds-bind _ _ h λ row. Holds-return (f row)

module _ {app : ℕ} {k : Keeping} (a : AdmitsWebhooks app k) (req : Request) where
  Respects-find : (id : ℕ) → Respects k (find_webhook_endpoint_for_app app id)
  unfolding find_webhook_endpoint_for_app
  Respects-find id = Respects-reads _

  Holds-audited :
      (action : String) (id : ℕ) (row : WebhookEndpoint)
      → Holds k (transaction (audit_webhook app req action "webhook_endpoint" id) >> return row)
  unfolding audit_webhook
  Holds-audited action id row =
      Holds-bind _ _ (Holds-transaction _ (a.audit _ refl)) λ _. Holds-return row

  Respects-queue_again : (id : ℕ) → Respects k (queue_again app req id)
  unfolding queue_again enqueue_webhook_delivery_job
  Respects-queue_again id = Respects-bind _ _ (a.mark id req.now) λ marked.
      Respects-bind _ _ (Respects-or_fail _ _) λ updated. Respects-bind _ _ (a.audit _ refl) λ _.
        Respects-bind _ _ (Respects-bind _ _ (a.job _) λ _. Respects-pure tt)
          λ _. Respects-pure updated

  retried : (id : ℕ) (found : Option WebhookDelivery) → Holds k (retry_found app req id found)
  retried id none = Holds-throw _
  retried id (some before) =
      Holds-if _ _ _ (Holds-throw _) (Holds-transaction _ (Respects-queue_again id))

  module _ (hooks : Hooks) where
    pub Holds-webhook : (route : WebhookRoute) → Holds k (run_webhook hooks app req route)
    unfolding create_webhook_endpoint_for_app update_webhook_endpoint_for_app
        delete_webhook_endpoint_for_app retry_webhook_delivery_for_app
    Holds-webhook (WebhookRoute.post_endpoint input) = Holds-answer _ _ (
        Holds-bind _ _ (Holds-call _) λ normalized.
          Holds-bind _ _ (Holds-transaction _ (a.endpoint input normalized hooks.secret))
            λ row. Holds-audited _ row.id row)
    Holds-webhook (WebhookRoute.patch_endpoint id input) = Holds-answer _ _ (
        Holds-bind _ _ (Holds-transaction _ (Respects-find id)) λ found.
          Holds-bind _ _ (Holds-call _) λ before. Holds-bind _ _ (Holds-call _) λ _.
            Holds-bind _ _ (Holds-call _) λ normalized.
              Holds-bind _ _ (Holds-transaction _ (a.endpoint_row id _ λ row. refl))
                λ row. Holds-audited _ id row)
    Holds-webhook (WebhookRoute.delete_endpoint id) = Holds-answer _ _ (
        Holds-bind _ _ (Holds-transaction _ (Respects-find id)) λ found.
          Holds-bind _ _ (Holds-call _) λ before.
            Holds-bind _ _ (Holds-transaction _ (a.endpoint_row id _ λ row. refl))
              λ row. Holds-audited _ id row)
    Holds-webhook (WebhookRoute.post_retry id) =
        Holds-answer _ _ (record { at = λ db. (retried id _).at db })
