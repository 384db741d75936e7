-- ===== src/Tests/Endpoints.antt =====
-- An endpoint at one host, and requests that bring a second host.
use pactagent.Prelude.{refl, true, none, some, [], ◌∷◌}
use pactagent.Store.Rows.{WebhookEndpoint, codes}
use pactagent.Store.Tx.{Db}
use pactagent.Repository.Endpoints.{CreateWebhookEndpointInput, UpdateWebhookEndpointInput, Secret}
use pactagent.Api.History.{no_rows}
use pactagent.Webhooks.Addresses.{is_blocked_hostname, is_blocked_ipv4_address, parse_ipv4}
use pactagent.Webhooks.Fetch.{Environment}
use pactagent.Webhooks.Endpoints.{
  create_webhook_endpoint_for_app, update_webhook_endpoint_for_app, delete_webhook_endpoint_for_app,
}
use pactagent.Webhooks.Endpoints.Allowed.{AllReachable, endpoints-AllReachable}
use pactagent.Tests.{request}
use pactagent.Tests.Rails.{old_url, two_hosts, two_hosts-IsStable}

abbrev pub endpoint : WebhookEndpoint
endpoint = record {
  id = 61;
  app_id = 1;
  url = codes "https://a.example/";
  secret_hash = some (codes "h1");
  secret_ciphertext = some (codes "s1");
  encryption_key_version = some (codes "k1");
  active = true;
  deleted_at = none;
  subscribed_events = "agreement.created" ∷ [];
}

abbrev one_endpoint : Db
one_endpoint = record no_rows { webhook_endpoints = endpoint ∷ [] }

abbrev pub secret : Secret
secret = record { hash = codes "h2"; ciphertext = codes "s2"; key_id = codes "k1" }

abbrev created : CreateWebhookEndpointInput
created = record { url = codes "https://b.example/"; subscribed_events = "escrow.locked" ∷ [] }

abbrev updated : UpdateWebhookEndpointInput
updated = record {
  url = some (codes "https://b.example/");
  subscribed_events = none;
  active = none;
}

one_endpoint-AllReachable : AllReachable two_hosts one_endpoint
unfolding is_blocked_hostname is_blocked_ipv4_address parse_ipv4
one_endpoint-AllReachable = (record { url = old_url; read = refl; host = refl }, tt)

endpoints-AllReachable_example :
    AllReachable two_hosts
      (create_webhook_endpoint_for_app two_hosts Environment.production 1 request secret created
        one_endpoint).1
    × AllReachable two_hosts
        (update_webhook_endpoint_for_app two_hosts Environment.production 1 request 61 updated
          one_endpoint).1
    × AllReachable two_hosts
        (delete_webhook_endpoint_for_app two_hosts Environment.production 1 request 61
          one_endpoint).1
endpoints-AllReachable_example =
    endpoints-AllReachable two_hosts Environment.production 1 request secret created updated 61
      one_endpoint two_hosts-IsStable one_endpoint-AllReachable
