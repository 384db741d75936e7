-- ===== src/Webhooks/Delivery/Keeps.antt =====
-- The attempts and the retries of deliveries keep every relation that admits their writes.
use pactagent.Prelude.{
  ℕ, zero, suc, length, ◌≤◌, ◌≡◌, refl, Option, none, some, String, List, [], ◌∷◌, arith,
}
use pactagent.Errors.{Error, Result, ok, err}
use pactagent.Store.Rows.{Text, WebhookDelivery, WebhookEndpoint, DeliveryStatus, DedupeKey}
use pactagent.Store.Tx.{Db}
use pactagent.Store.Respects.{
  Keeping, Respects, Respects-bind, Respects-pure, Respects-when, Respects-or_fail,
}
use pactagent.Store.Holds.{
  Holds, Holds-transaction, Holds-if, Holds-throw, Holds-return, Holds-catch,
}
use pactagent.Repository.Admits.{Admits}
use pactagent.Idempotency.{Request}
use pactagent.Webhooks.Delivery.{
  DeliveryData, Then, nothing, final_failure, retry_at, Attempt, responded, failed,
  update_webhook_delivery_result, enqueue_webhook_delivery_job, record_final_delivery_failure,
  follow_up, record_delivery_result, failure_data, retry_time, record_failure, record_attempt,
  record_unusable, get_webhook_retry_delay_ms, webhook_retry_delays_ms, element_at, attempt_with,
  deliver_signed, deliver_to, deliver_found, deliver_webhook_delivery,
  mark_webhook_delivery_for_retry, queue_again, retry_found, retry_webhook_delivery_for_app,
}

-- What the service writes into a row: a delivery waits for a retry after five attempts at most.
abbrev pub IsWithinRetries : WebhookDelivery → DeliveryData → Type 0
IsWithinRetries read data' = data'.status ≡ DeliveryStatus.retry → suc read.attempts ≤ 5

-- The relation admits what is written to the deliveries.
pub record AdmitsDeliveries (k : Keeping) : Type 0 where
  pub result :
      (read : WebhookDelivery) (data' : DeliveryData)
      → IsWithinRetries read data'
      → Respects k (update_webhook_delivery_result read data')
  pub mark : (app id now : ℕ) → Respects k (mark_webhook_delivery_for_retry app id now)

element_at-bound :
    (index : ℕ) (xs : List ℕ) {x : ℕ} → element_at index xs ≡ some x → suc index ≤ length xs
element_at-bound index [] h = absurd (cc)
element_at-bound zero (x ∷ xs) h = omega arith
element_at-bound (suc index) (x ∷ xs) h = omega (arith, element_at-bound index xs h)

-- The delays are five.
some_delay : (n delay : ℕ) → get_webhook_retry_delay_ms (suc n) ≡ some delay → suc n ≤ 5
some_delay n delay h = element_at-bound n webhook_retry_delays_ms h

failure-IsWithinRetries :
    (read : WebhookDelivery) (message : String) (now : ℕ) (delay : Option ℕ)
    → get_webhook_retry_delay_ms (suc read.attempts) ≡ delay
    → IsWithinRetries read (failure_data message (retry_time now delay))
failure-IsWithinRetries read message now none h e = absurd (cc)
failure-IsWithinRetries read message now (some delay) h e = some_delay read.attempts delay h

module _ {k : Keeping} (w : (app : ℕ) → Admits app k) (d : AdmitsDeliveries k) where
  Respects-enqueue :
      (delivery : WebhookDelivery) (key : DedupeKey) (time : ℕ)
      → Respects k (enqueue_webhook_delivery_job delivery key time)
  unfolding enqueue_webhook_delivery_job
  Respects-enqueue delivery key time =
      Respects-bind _ _ ((w delivery.app_id).job _) λ _. Respects-pure tt

  Respects-final :
      (delivery : WebhookDelivery) (now : ℕ)
      → Respects k (record_final_delivery_failure delivery now)
  unfolding record_final_delivery_failure
  Respects-final delivery now = Respects-when _ _ λ _. (w delivery.app_id).event _ now

  Respects-follow_up :
      (delivery : WebhookDelivery) (next : Then) (now : ℕ)
      → Respects k (follow_up delivery next now)
  Respects-follow_up delivery nothing now = Respects-pure tt
  Respects-follow_up delivery (final_failure reason) now =
      Respects-when _ _ λ _. Respects-final delivery now
  Respects-follow_up delivery (retry_at time) now = Respects-enqueue delivery _ time

  pub Respects-record :
      (read : WebhookDelivery) (data' : DeliveryData) (next : Then) (now : ℕ)
      → IsWithinRetries read data'
      → Respects k (record_delivery_result read data' next now)
  unfolding record_delivery_result
  Respects-record read data' next now fits = Respects-bind _ _ (d.result read data' fits) λ found.
      Respects-bind _ _ (Respects-when found.0 _ λ _. Respects-follow_up read next now)
        λ _. Respects-pure _

  Holds-failure :
      (delivery : WebhookDelivery) (message : String) (now : ℕ)
      → Holds k (record_failure delivery message now)
  Holds-failure delivery message now =
      Holds-transaction _
        (Respects-record delivery _ _ now (failure-IsWithinRetries delivery message now _ refl))

  Holds-unusable :
      (delivery : WebhookDelivery) (reason : String) (now : ℕ)
      → Holds k (record_unusable delivery reason now)
  Holds-unusable delivery reason now =
      Holds-transaction _ (Respects-record delivery _ _ now λ e. absurd (cc))

  Holds-attempt :
      (message_of : Error → String) (delivery : WebhookDelivery) (attempt : Attempt) (now : ℕ)
      → Holds k (record_attempt message_of delivery attempt now)
  Holds-attempt message_of delivery (failed message) now = Holds-failure delivery message now
  Holds-attempt message_of delivery (responded status) now =
      Holds-if _ _ _
        (Holds-catch _ _ (Holds-transaction _ (Respects-record delivery _ _ now λ e. absurd (cc)))
          λ e. Holds-failure delivery (message_of e) now)
        (Holds-failure delivery _ now)

  module _ (decrypt : Text → Result Text)
      (attempt : WebhookDelivery → WebhookEndpoint → Text → Attempt)
      (message_of : Error → String) where
    Holds-attempt_with :
        (delivery : WebhookDelivery) (endpoint : WebhookEndpoint) (now : ℕ) (secret : Result Text)
        → Holds k (attempt_with decrypt attempt message_of delivery endpoint now secret)
    Holds-attempt_with delivery endpoint now (err e) = Holds-throw e
    Holds-attempt_with delivery endpoint now (ok secret) =
        Holds-attempt message_of delivery (attempt delivery endpoint secret) now

    Holds-signed :
        (delivery : WebhookDelivery) (endpoint : WebhookEndpoint) (now : ℕ) (secret : Option Text)
        → Holds k (deliver_signed decrypt attempt message_of delivery endpoint now secret)
    Holds-signed delivery endpoint now none = Holds-unusable delivery _ now
    Holds-signed delivery endpoint now (some text) =
        Holds-attempt_with delivery endpoint now (decrypt text)

    Holds-to :
        (delivery : WebhookDelivery) (endpoint : Option WebhookEndpoint) (now : ℕ)
        → Holds k (deliver_to decrypt attempt message_of delivery endpoint now)
    Holds-to delivery none now = Holds-throw _
    Holds-to delivery (some endpoint) now = Holds-if _ _ _ (Holds-return delivery) (
        Holds-if _ _ _ (Holds-signed delivery endpoint now endpoint.secret_ciphertext)
          (Holds-unusable delivery _ now))

    found_at :
        (found : Option WebhookDelivery) (now : ℕ) (db : Db)
        → k.rel db (deliver_found decrypt attempt message_of found now db).1
    found_at none now db = k.reflexive db
    found_at (some delivery) now db = (Holds-to delivery _ now).at db

    pub Holds-deliver :
        (id now : ℕ) → Holds k (deliver_webhook_delivery decrypt attempt message_of id now)
    unfolding deliver_webhook_delivery
    Holds-deliver id now = record { at = λ db. found_at _ now db }

  Respects-queue_again : (app : ℕ) (req : Request) (id : ℕ) → Respects k (queue_again app req id)
  unfolding queue_again
  Respects-queue_again app req id = Respects-bind _ _ (d.mark app id req.now) λ marked.
      Respects-bind _ _ (Respects-or_fail _ _) λ updated.
        Respects-bind _ _ ((w app).audit _ refl)
          λ _. Respects-bind _ _ (Respects-enqueue updated _ req.now) λ _. Respects-pure updated

  retried_at :
      (app : ℕ) (req : Request) (id : ℕ) (found : Option WebhookDelivery)
      → Holds k (retry_found app req id found)
  retried_at app req id none = Holds-throw _
  retried_at app req id (some before) =
      Holds-if _ _ _ (Holds-throw _) (Holds-transaction _ (Respects-queue_again app req id))

  pub Holds-retry :
      (app : ℕ) (req : Request) (id : ℕ) → Holds k (retry_webhook_delivery_for_app app req id)
  unfolding retry_webhook_delivery_for_app
  Holds-retry app req id = record { at = λ db. (retried_at app req id _).at db }
