-- ===== src/Tests/Limits.antt =====
-- A key's window, a failing provider, and the deliveries of one endpoint.
use pactagent.Prelude.{
  ℕ, ◌≡◌, ◌≤◌, refl, true, none, some, List, [], ◌∷◌, String, arith, update_rows, count_rows,
  find_first,
}
use pactagent.Errors.{Error, Result, ok}
use pactagent.Store.Rows.{Text, WebhookDelivery, WebhookEndpoint, DeliveryStatus, codes}
use pactagent.Store.Tx.{Db, when, pure, ◌>>=◌}
use pactagent.RateLimit.{Bucket, find_bucket}
use pactagent.RateLimit.Window.{passed, window-bound}
use pactagent.Resilience.{
  Cause, Outcome, State, default_options, execute_provider_request, attempts_from,
}
use pactagent.Resilience.Circuit.{Later, total_runs, circuit_opens}
use pactagent.Webhooks.Delivery.{
  Then, Attempt, with_result, delivered_data, failure_data, record_delivery_result,
  update_webhook_delivery_result, find_webhook_delivery_for_app, deliver_webhook_delivery,
  retry_webhook_delivery_for_app,
}
use pactagent.Webhooks.Delivery.Retries.{RetriesBounded, deliveries-RetriesBounded}
use pactagent.Webhooks.Delivery.Stale.{delivered_once}
use pactagent.Tests.{two_apps, request}

nothing_before : (old : Bucket) → find_bucket 1 [] ≡ some old → old.reset_at ≤ 100
unfolding find_bucket
nothing_before old h = absurd (cc)

window-bound_example :
    passed 50 2 1 ((1, 100) ∷ (1, 110) ∷ (2, 115) ∷ (1, 120) ∷ (1, 149) ∷ []) [] ≤ 2
window-bound_example =
    window-bound 50 2 1 100 ((1, 110) ∷ (2, 115) ∷ (1, 120) ∷ (1, 149) ∷ []) [] (omega arith)
      nothing_before (omega arith)

abbrev failing : ℕ → Outcome ℕ Cause
failing attempt = Outcome.threw Cause.timed_out

abbrev four_failures : State
four_failures = record { failures = 4; open_until = 0 }

fifth_fails :
    (execute_provider_request default_options failing 1000 1000 four_failures).outcome
    ≡ Outcome.threw (record { retryable = true; status = none })
unfolding execute_provider_request attempts_from
fifth_fails = refl

abbrev two_more : List (Later ℕ)
two_more =
    record { run = failing; time = 2000; failed_at = 2000 }
    ∷ record { run = failing; time = 9000; failed_at = 9000 }
    ∷ []

circuit_opens_example :
    total_runs default_options two_more
      (execute_provider_request default_options failing 1000 1000 four_failures).state
    ≡ 0
circuit_opens_example =
    circuit_opens default_options failing 1000 1000 2 two_more four_failures
      (record { retryable = true; status = none }) refl (omega arith) (omega arith) fifth_fails
      (omega arith, (omega arith, tt))

abbrev endpoint : WebhookEndpoint
endpoint = record {
  id = 61;
  app_id = 1;
  url = codes "https://a.example/";
  secret_hash = some (codes "h1");
  secret_ciphertext = some (codes "s1");
  encryption_key_version = some (codes "k1");
  active = true;
  deleted_at = none;
  subscribed_events = "agreement.created" ∷ [];
}

abbrev waiting : WebhookDelivery
waiting = record {
  id = 60;
  app_id = 1;
  endpoint_id = 61;
  event_id = 62;
  agreement_id = none;
  event_type = "agreement.created";
  status = DeliveryStatus.retry;
  attempts = 5;
  status_code = none;
  last_error = some "Webhook responded with status";
  next_retry_at = some 7;
  delivered_at = none;
}

abbrev with_delivery : WebhookDelivery → Db
with_delivery delivery = record two_apps {
  webhook_endpoints = endpoint ∷ [];
  webhook_deliveries = delivery ∷ [];
}

waiting-RetriesBounded : RetriesBounded (with_delivery waiting)
waiting-RetriesBounded = (λ e. omega arith, tt)

abbrev plain_secret : Text → Result Text
plain_secret text = ok text

abbrev unavailable : WebhookDelivery → WebhookEndpoint → Text → Attempt
unavailable delivery to secret = Attempt.responded 503

abbrev no_message : Error → String
no_message e = "error"

deliveries-RetriesBounded_example :
    RetriesBounded
      (deliver_webhook_delivery plain_secret unavailable no_message 60 9 (with_delivery waiting)).1
    × RetriesBounded (retry_webhook_delivery_for_app 1 request 60 (with_delivery waiting)).1
deliveries-RetriesBounded_example =
    deliveries-RetriesBounded plain_secret unavailable no_message 1 request 60 9
      (with_delivery waiting) waiting-RetriesBounded

abbrev received : WebhookDelivery
received = with_result (delivered_data 200 9) waiting

first_report :
    record_delivery_result waiting (delivered_data 200 9) Then.nothing 9 (with_delivery waiting)
    ≡ ok (received, with_delivery received)
unfolding record_delivery_result update_webhook_delivery_result find_webhook_delivery_for_app ◌>>=◌
    update_rows count_rows find_first when pure
first_report = refl

late_report :
    record_delivery_result waiting
      (failure_data "timeout" none)
      (Then.final_failure "timeout")
      11
      (with_delivery received)
    ≡ ok (received, with_delivery received)
unfolding record_delivery_result update_webhook_delivery_result find_webhook_delivery_for_app ◌>>=◌
    update_rows count_rows find_first when pure
late_report = refl

delivered_once_example : with_delivery received ≡ with_delivery received
delivered_once_example =
    delivered_once waiting 200 9 11 (failure_data "timeout" none) (Then.final_failure "timeout")
      (with_delivery waiting) (with_delivery received) (with_delivery received) received received
      first_report late_report
