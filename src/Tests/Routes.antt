-- ===== src/Tests/Routes.antt =====
-- Requests with the keys of the first app.
use pactagent.Prelude.{◌≡◌, ◌⊎◌, refl, none, some, [], ◌∷◌, find_first}
use pactagent.Errors.{ok}
use pactagent.Store.Rows.{Text, codes}
use pactagent.Store.Tx.{Db}
use pactagent.Tenancy.Webhooks.{Apart}
use pactagent.Milestones.Allocation.{Allocated}
use pactagent.Webhooks.Fetch.{Environment}
use pactagent.Webhooks.Routes.{WebhookRoute, Hooks}
use pactagent.Api.{LifecycleRoute, Route, serve}
use pactagent.Api.LastUse.{key_of, UsedOnly, OthersKept}
use pactagent.Api.Keys.{
  ApiKeyScope, AppStatus, ApiKey, ApiKeyStatus, Accounts, Headers, extract_api_key,
  find_active_api_key_by_hash, authenticate_api_key, require_api_key, find_api_key_for_owner,
  revoke_api_key,
}
use pactagent.Api.Access.{Authorized, serve_isolated, serve-Authorized}
use pactagent.Api.History.{Served, no_rows, served-Allocated}
use pactagent.Api.Revocation.{revoked_unusable}
use pactagent.Idempotency.{Request}
use pactagent.Tests.Rails.{two_hosts}
use pactagent.Tests.Endpoints.{endpoint, secret}
use pactagent.Tests.{env, adapters, two_apps, request}

abbrev no_hash : Text → Text
no_hash text = text

abbrev key : ApiKey
key = record {
  id = 60;
  app_id = 1;
  key_hash = codes "pa_test_k";
  status = ApiKeyStatus.active;
  scopes =
      ApiKeyScope.webhooks_manage ∷ ApiKeyScope.escrows_release ∷ ApiKeyScope.agreements_create
      ∷ ApiKeyScope.milestones_create ∷ [];
  last_used_at = none;
  revoked_at = none;
}

abbrev accounts : Accounts
accounts = record {
  apps = record { id = 1; owner_id = 70; slug = codes "a"; status = AppStatus.active } ∷ [];
  api_keys = key ∷ [];
}

abbrev headers : Headers
headers = record { x_api_key = none; authorization = some (codes "Bearer pa_test_k") }

known : key_of no_hash headers 7 accounts ≡ ok key
unfolding require_api_key extract_api_key authenticate_api_key find_active_api_key_by_hash
    find_first
known = refl

abbrev hooks : Hooks
hooks = record { network = two_hosts; environment = λ app. Environment.production; secret = secret }

abbrev delete_it : Route
delete_it = Route.webhook (WebhookRoute.delete_endpoint 61)

abbrev with_endpoint : Db
with_endpoint = record two_apps { webhook_endpoints = endpoint ∷ [] }

serve_isolated_example :
    Apart 1 with_endpoint
      (serve env adapters hooks no_hash headers request delete_it accounts with_endpoint).2
    × OthersKept 1 accounts
        (serve env adapters hooks no_hash headers request delete_it accounts with_endpoint).1
serve_isolated_example =
    serve_isolated env adapters hooks no_hash headers request delete_it accounts with_endpoint key
      known ((λ h. refl), tt)

abbrev release_it : Route
release_it = Route.lifecycle (LifecycleRoute.post_release 20)

serve-Authorized_example :
    UsedOnly accounts
      (serve env adapters hooks no_hash headers request release_it accounts two_apps).1
    × (((serve env adapters hooks no_hash headers request release_it accounts two_apps).2
          ≡ two_apps)
        ⊎ Authorized no_hash headers release_it accounts)
serve-Authorized_example =
    serve-Authorized env adapters hooks no_hash headers request release_it accounts two_apps

abbrev new_agreement : Route
new_agreement = Route.lifecycle (
    LifecycleRoute.post_agreement (record {
      external_reference_id = some 5;
      total_amount = codes "500";
      currency = codes "CKB";
    }))

abbrev new_milestone : Route
new_milestone = Route.lifecycle (
    LifecycleRoute.post_milestone 0 (record {
      external_reference_id = none;
      amount = codes "200";
      currency = none;
      order = none;
    }))

abbrev second_request : Request
second_request = record request { idempotency_key = some (codes "k2") }

abbrev with_agreement : Db
with_agreement = (serve env adapters hooks no_hash headers request new_agreement accounts no_rows).2

abbrev with_milestone : Db
with_milestone =
    (serve env adapters hooks no_hash headers second_request new_milestone accounts
      with_agreement).2

served-Allocated_example : Allocated with_milestone
served-Allocated_example = served-Allocated no_hash with_milestone (
    Served.request
      (Served.request Served.start env adapters hooks headers request new_agreement accounts) env
      adapters hooks headers second_request new_milestone accounts)

named : find_api_key_for_owner 70 60 accounts ≡ some key
unfolding find_api_key_for_owner find_first
named = refl

revoked_unusable_example :
    find_active_api_key_by_hash (codes "pa_test_k") (revoke_api_key 70 60 8 accounts) ≡ none
revoked_unusable_example = revoked_unusable 70 60 8 accounts key named (λ h. refl, tt)
