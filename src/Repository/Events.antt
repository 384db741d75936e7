-- ===== src/Repository/Events.antt =====
-- server/src/modules/events/event.repository.ts (`createEvent`), with the deliveries that
-- server/src/modules/webhooks/webhook.repository.ts (`createWebhookDeliveriesForEvent`) makes for
-- it, and server/src/modules/audit-logs/audit-log.repository.ts. The JSON payloads are left out.
use pactagent.Prelude.{
  ℕ, Bool, true, false, ◌&&◌, not, Option, none, some, List, [], ◌∷◌, String, ◌==◌, nat_eq, is_some,
}
use text.Mathlib.Text.{◌==◌ as str_eq}
use pactagent.Store.Rows.{
  Event, WebhookEndpoint, WebhookDelivery, DeliveryStatus, JobKind, DedupeKey, AuditLog,
}
use pactagent.Store.Tx.{Tx, pure, reads, modify, new_id, ◌>>=◌, ◌>>◌}
use pactagent.Repository.Jobs.{create_job}

-- The `data` of `createEvent`.
pub record EventData : Type 0 where
  pub type : String
  pub agreement_id : Option ℕ
  pub milestone_id : Option ℕ
  pub escrow_id : Option ℕ
  pub proof_submission_id : Option ℕ
  pub dispute_id : Option ℕ

abbrev pub event_row : ℕ → EventData → ℕ → Event
event_row app data' id = record {
  id = id;
  app_id = app;
  type = data'.type;
  agreement_id = data'.agreement_id;
  milestone_id = data'.milestone_id;
  escrow_id = data'.escrow_id;
  proof_submission_id = data'.proof_submission_id;
  dispute_id = data'.dispute_id;
}

abbrev has_event : String → List String → Bool
has_event type [] = false
has_event type (x ∷ xs) = elim (str_eq x type) [ true ↦ true | false ↦ has_event type xs ]

abbrev is_subscribed : Event → WebhookEndpoint → Bool
is_subscribed event endpoint =
    endpoint.app_id == event.app_id
    && endpoint.active
    && not (is_some endpoint.deleted_at)
    && has_event event.type endpoint.subscribed_events

unfoldable subscribers : Event → List WebhookEndpoint → List WebhookEndpoint
subscribers event [] = []
subscribers event (x ∷ xs) =
    let rest = subscribers event xs in
    elim (is_subscribed event x) [ true ↦ x ∷ rest | false ↦ rest ]

abbrev pub delivery_row : Event → WebhookEndpoint → ℕ → WebhookDelivery
delivery_row event endpoint id = record {
  id = id;
  app_id = event.app_id;
  endpoint_id = endpoint.id;
  event_id = event.id;
  agreement_id = event.agreement_id;
  event_type = event.type;
  status = DeliveryStatus.pending;
  attempts = 0;
  status_code = none;
  last_error = none;
  next_retry_at = none;
  delivered_at = none;
}

-- One round of the loop: the delivery, and the job that will make it.
unfoldable pub create_delivery : Event → ℕ → WebhookEndpoint → Tx (Unit {0})
create_delivery event now endpoint = do
  id ← new_id
  modify (λ db. record db {
    webhook_deliveries = delivery_row event endpoint id ∷ db.webhook_deliveries;
  })
  create_job (record {
    app_id = event.app_id;
    agreement_id = event.agreement_id;
    kind = JobKind.deliver_webhook;
    payload = some (record {
      agreement_id = event.agreement_id;
      delivery_id = some id;
      transaction_id = none;
    });
    available_at = now;
    max_attempts = 1;
    dedupe_key = some (DedupeKey.infra_webhook_delivery id 0);
  })
  pure tt

unfoldable pub create_deliveries : Event → ℕ → List WebhookEndpoint → Tx (Unit {0})
unfolding create_delivery
create_deliveries event now [] = pure tt
create_deliveries event now (x ∷ xs) = do
  create_delivery event now x
  create_deliveries event now xs

unfoldable pub create_webhook_deliveries_for_event : Event → ℕ → Tx (Unit {0})
unfolding subscribers create_deliveries
create_webhook_deliveries_for_event event now = do
  endpoints ← reads (λ db. subscribers event db.webhook_endpoints)
  create_deliveries event now endpoints

unfoldable pub create_event : ℕ → EventData → ℕ → Tx (Unit {0})
unfolding create_webhook_deliveries_for_event
create_event app data' now = do
  id ← new_id
  modify (λ db. record db { events = event_row app data' id ∷ db.events })
  create_webhook_deliveries_for_event (event_row app data' id) now

-- `createInfrastructureAuditLog`
unfoldable pub create_infrastructure_audit_log : AuditLog → Tx (Unit {0})
create_infrastructure_audit_log row = modify (λ db. record db { audit_logs = row ∷ db.audit_logs })
