-- ===== src/Webhooks/Delivery.antt =====
-- server/src/modules/webhooks/webhook.service.ts, webhook.repository.ts and webhook.retry.ts: the
-- attempts at a delivery, their results and the retries. The decryption of the signing secret and
-- the request itself (`executeProviderRequest` around `fetchWebhookUrl`) are parameters. The payload,
-- the response's text and the number in the message on its status are left out.
pub mod Keeps
pub mod Retries
pub mod Stale
use pactagent.Prelude.{
  ℕ, zero, suc, ◌+◌, ◌*◌, Bool, true, false, not, ◌&&◌, ◌||◌, ◌==◌, nat_eq, leb, String, Option,
  none, some, is_some, List, [], ◌∷◌, find_first, update_rows, count_rows, if◌then◌else◌,
}
use text.Mathlib.Text.{◌==◌ as str_eq}
use pactagent.Errors.{
  Error, Result, ok, err, invalid_request, not_found, internal, require, reject_if,
}
use pactagent.Store.Rows.{
  Text, WebhookDelivery, WebhookEndpoint, DeliveryStatus, JobKind, DedupeKey,
}
use pactagent.Store.Tx.{Db, Tx, pure, lift, reads, modify, or_fail, when, when_some, ◌>>=◌, ◌>>◌}
use pactagent.Store.Action
use pactagent.Store.Action.{Action, return, throw, transaction, catch}
use pactagent.Repository.Jobs.{enqueue_job}
use pactagent.Repository.Events.{create_event, create_infrastructure_audit_log}
use pactagent.Idempotency.{Request}

-- `WEBHOOK_RETRY_DELAYS_MS`
abbrev pub webhook_retry_delays_ms : List ℕ
webhook_retry_delays_ms =
    60 * 1000 ∷ 5 * 60 * 1000 ∷ 15 * 60 * 1000 ∷ 60 * 60 * 1000 ∷ 6 * 60 * 60 * 1000 ∷ []

abbrev pub element_at : ℕ → List ℕ → Option ℕ
element_at index [] = none
element_at zero (x ∷ xs) = some x
element_at (suc index) (x ∷ xs) = element_at index xs

-- `getWebhookRetryDelayMs`
abbrev pub get_webhook_retry_delay_ms : ℕ → Option ℕ
get_webhook_retry_delay_ms zero = some (60 * 1000)
get_webhook_retry_delay_ms (suc failed) = element_at failed webhook_retry_delays_ms

abbrev pub delivery_status_tag : DeliveryStatus → ℕ
delivery_status_tag DeliveryStatus.pending = 0
delivery_status_tag DeliveryStatus.retry = 1
delivery_status_tag DeliveryStatus.delivered = 2
delivery_status_tag DeliveryStatus.failed = 3

abbrev pub is_delivery : ℕ → ℕ → WebhookDelivery → Bool
is_delivery app id row = row.id == id && row.app_id == app

-- `findWebhookDeliveryForApp`
unfoldable pub find_webhook_delivery_for_app : ℕ → ℕ → Tx (Option WebhookDelivery)
find_webhook_delivery_for_app app id =
    reads (λ db. find_first (is_delivery app id) db.webhook_deliveries)

-- The `data` of `updateWebhookDeliveryResult`.
pub record DeliveryData : Type 0 where
  pub status : DeliveryStatus
  pub status_code : Option ℕ
  pub last_error : Option String
  pub next_retry_at : Option ℕ
  pub delivered_at : Option ℕ

-- The row as the worker has read it.
abbrev pub is_delivery_as_read : WebhookDelivery → WebhookDelivery → Bool
is_delivery_as_read read row =
    is_delivery read.app_id read.id row
    && delivery_status_tag row.status == delivery_status_tag read.status
    && row.attempts == read.attempts

abbrev pub with_result : DeliveryData → WebhookDelivery → WebhookDelivery
with_result data' row = record row {
  status = data'.status;
  status_code = data'.status_code;
  last_error = data'.last_error;
  next_retry_at = data'.next_retry_at;
  delivered_at = data'.delivered_at;
  attempts = suc row.attempts;
}

-- `updateWebhookDeliveryResult`: whether the row was still as read, and the row.
unfoldable pub update_webhook_delivery_result :
    WebhookDelivery → DeliveryData → Tx (Bool × WebhookDelivery)
unfolding find_webhook_delivery_for_app
update_webhook_delivery_result read data' = do
  count ← reads (λ db. count_rows (is_delivery_as_read read) db.webhook_deliveries)
  modify (λ db. record db {
    webhook_deliveries =
        update_rows (is_delivery_as_read read) (with_result data') db.webhook_deliveries;
  })
  found ← find_webhook_delivery_for_app read.app_id read.id
  delivery ← or_fail found (internal "P2025")
  pure (count == 1, delivery)

-- `enqueueWebhookDeliveryJob`
unfoldable pub enqueue_webhook_delivery_job : WebhookDelivery → DedupeKey → ℕ → Tx (Unit {0})
enqueue_webhook_delivery_job delivery key available_at = do
  enqueue_job (record {
    app_id = delivery.app_id;
    agreement_id = delivery.agreement_id;
    kind = JobKind.deliver_webhook;
    payload = some (record {
      agreement_id = delivery.agreement_id;
      delivery_id = some delivery.id;
      transaction_id = none;
    });
    available_at = available_at;
    max_attempts = 1;
    dedupe_key = some key;
  })
  pure tt

-- `recordFinalDeliveryFailure`: a failure to deliver the news of a failure makes no more of them.
unfoldable pub record_final_delivery_failure : WebhookDelivery → ℕ → Tx (Unit {0})
record_final_delivery_failure delivery now =
    when (not (str_eq delivery.event_type "webhook.delivery_failed")) (
      create_event delivery.app_id
        (record {
          type = "webhook.delivery_failed";
          agreement_id = none;
          milestone_id = none;
          escrow_id = none;
          proof_submission_id = none;
          dispute_id = none;
        })
        now)

abbrev is_given : String → Bool
is_given String.[] = false
is_given (String.◌∷◌ c s) = true

-- What follows a result that was applied: the news of a final failure, or the job of the next
-- attempt.
pub data Then : Type 0 where
  nothing : Then
  final_failure : String → Then
  retry_at : ℕ → Then

abbrev pub follow_up : WebhookDelivery → Then → ℕ → Tx (Unit {0})
follow_up delivery Then.nothing now = pure tt
follow_up delivery (Then.final_failure reason) now =
    when (is_given reason) (record_final_delivery_failure delivery now)
follow_up delivery (Then.retry_at time) now =
    enqueue_webhook_delivery_job delivery
      (DedupeKey.infra_webhook_delivery delivery.id (suc delivery.attempts)) time

-- `recordDeliveryResult`: nothing follows a result that came too late.
unfoldable pub record_delivery_result :
    WebhookDelivery → DeliveryData → Then → ℕ → Tx WebhookDelivery
unfolding update_webhook_delivery_result
record_delivery_result read data' next now = do
  (applied, delivery) ← update_webhook_delivery_result read data'
  when applied (follow_up read next now)
  pure delivery

-- How an attempt ended: a response, by its status, or an error, by its message.
pub data Attempt : Type 0 where
  responded : ℕ → Attempt
  failed : String → Attempt

-- `response.ok`
abbrev pub is_ok : ℕ → Bool
is_ok status = leb 200 status && leb status 299

abbrev pub failure_data : String → Option ℕ → DeliveryData
failure_data message none = record {
  status = DeliveryStatus.failed;
  status_code = none;
  last_error = some message;
  next_retry_at = none;
  delivered_at = none;
}
failure_data message (some time) = record {
  status = DeliveryStatus.retry;
  status_code = none;
  last_error = some message;
  next_retry_at = some time;
  delivered_at = none;
}

abbrev pub delivered_data : ℕ → ℕ → DeliveryData
delivered_data status now = record {
  status = DeliveryStatus.delivered;
  status_code = some status;
  last_error = none;
  next_retry_at = none;
  delivered_at = some now;
}

abbrev pub retry_time : ℕ → Option ℕ → Option ℕ
retry_time now none = none
retry_time now (some delay) = some (now + delay)

abbrev after_failure : String → Option ℕ → Then
after_failure message none = Then.final_failure message
after_failure message (some time) = Then.retry_at time

-- The `catch` of an attempt.
abbrev pub record_failure : WebhookDelivery → String → ℕ → Action WebhookDelivery
record_failure delivery message now =
    let time = retry_time now (get_webhook_retry_delay_ms (suc delivery.attempts)) in
    transaction
      (record_delivery_result delivery (failure_data message time) (after_failure message time) now)

-- The `try` of an attempt, in which the result of a delivery is recorded too.
abbrev pub record_attempt :
    (Error → String) → WebhookDelivery → Attempt → ℕ → Action WebhookDelivery
record_attempt message_of delivery (Attempt.failed message) now =
    record_failure delivery message now
record_attempt message_of delivery (Attempt.responded status) now =
    if is_ok status
    then catch
        (transaction (record_delivery_result delivery (delivered_data status now) Then.nothing now))
        (λ e. record_failure delivery (message_of e) now)
    else record_failure delivery "Webhook responded with status" now

-- An endpoint that cannot be delivered to.
abbrev pub record_unusable : WebhookDelivery → String → ℕ → Action WebhookDelivery
record_unusable delivery reason now =
    transaction
      (record_delivery_result delivery (failure_data reason none) (Then.final_failure reason) now)

abbrev is_delivered : DeliveryStatus → Bool
is_delivered DeliveryStatus.delivered = true
is_delivered _ = false

abbrev is_usable : WebhookEndpoint → Bool
is_usable endpoint = elim endpoint.url [ [] ↦ false | (c ∷ cs) ↦ endpoint.active ]

module _ (decrypt_webhook_secret : Text → Result Text)
    (attempt : WebhookDelivery → WebhookEndpoint → Text → Attempt)
    (message_of : Error → String) where
  abbrev pub attempt_with :
      WebhookDelivery → WebhookEndpoint → ℕ → Result Text → Action WebhookDelivery
  attempt_with delivery endpoint now (err e) = throw e
  attempt_with delivery endpoint now (ok secret) =
      record_attempt message_of delivery (attempt delivery endpoint secret) now

  abbrev pub deliver_signed :
      WebhookDelivery → WebhookEndpoint → ℕ → Option Text → Action WebhookDelivery
  deliver_signed delivery endpoint now none =
      record_unusable delivery "Webhook endpoint signing secret is unavailable." now
  deliver_signed delivery endpoint now (some ciphertext) =
      attempt_with delivery endpoint now (decrypt_webhook_secret ciphertext)

  abbrev pub deliver_to : WebhookDelivery → Option WebhookEndpoint → ℕ → Action WebhookDelivery
  deliver_to delivery none now = throw (not_found "webhook_endpoint_not_found")
  deliver_to delivery (some endpoint) now =
      if is_delivered delivery.status
      then return delivery
      else if is_usable endpoint
      then deliver_signed delivery endpoint now endpoint.secret_ciphertext
      else record_unusable delivery "Webhook endpoint is inactive." now

  abbrev pub deliver_found : Option WebhookDelivery → ℕ → Action WebhookDelivery
  deliver_found none now db = (err (not_found "webhook_delivery_not_found"), db)
  deliver_found (some delivery) now db =
      deliver_to delivery
        (find_first (λ (row : WebhookEndpoint). row.id == delivery.endpoint_id)
          db.webhook_endpoints)
        now db

  -- `deliverWebhookDelivery`
  unfoldable pub deliver_webhook_delivery : ℕ → ℕ → Action WebhookDelivery
  deliver_webhook_delivery id now db =
      deliver_found (find_first (λ (row : WebhookDelivery). row.id == id) db.webhook_deliveries) now
        db

abbrev pub can_be_retried : DeliveryStatus → Bool
can_be_retried DeliveryStatus.failed = true
can_be_retried DeliveryStatus.retry = true
can_be_retried _ = false

abbrev pub queued_again : ℕ → WebhookDelivery → WebhookDelivery
queued_again now row = record row {
  status = DeliveryStatus.pending;
  next_retry_at = some now;
  last_error = none;
}

-- `markWebhookDeliveryForRetry`
unfoldable pub mark_webhook_delivery_for_retry : ℕ → ℕ → ℕ → Tx (Option WebhookDelivery)
unfolding find_webhook_delivery_for_app
mark_webhook_delivery_for_retry app id now = do
  count ← reads (λ db.
      count_rows (λ row. is_delivery app id row && can_be_retried row.status) db.webhook_deliveries)
  modify (λ db. record db {
    webhook_deliveries =
        update_rows (λ row. is_delivery app id row && can_be_retried row.status) (queued_again now)
          db.webhook_deliveries;
  })
  found ← find_webhook_delivery_for_app app id
  pure (if count == 1 then found else none)

-- The transaction of `retryWebhookDeliveryForApp`
unfoldable pub queue_again : ℕ → Request → ℕ → Tx WebhookDelivery
unfolding mark_webhook_delivery_for_retry enqueue_webhook_delivery_job
queue_again app req id = do
  marked ← mark_webhook_delivery_for_retry app id req.now
  updated ← or_fail marked (invalid_request "webhook_delivery_retry_in_progress")
  create_infrastructure_audit_log (record {
    app_id = app;
    agreement_id = none;
    actor_type = if is_some req.actor then "api_key" else "system";
    actor_id = req.actor;
    action = "webhook_delivery.retried";
    target_type = "webhook_delivery";
    target_id = id;
  })
  enqueue_webhook_delivery_job updated (DedupeKey.manual_webhook_delivery id req.now) req.now
  pure updated

abbrev pub retry_found : ℕ → Request → ℕ → Option WebhookDelivery → Action WebhookDelivery
retry_found app req id none = throw (not_found "webhook_delivery_not_found")
retry_found app req id (some before) =
    if is_delivered before.status
    then throw (invalid_request "webhook_delivery_already_delivered")
    else transaction (queue_again app req id)

-- `retryWebhookDeliveryForApp`
unfoldable pub retry_webhook_delivery_for_app : ℕ → Request → ℕ → Action WebhookDelivery
retry_webhook_delivery_for_app app req id db =
    retry_found app req id (find_first (is_delivery app id) db.webhook_deliveries) db
