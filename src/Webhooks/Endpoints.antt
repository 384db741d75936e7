-- ===== src/Webhooks/Endpoints.antt =====
-- server/src/modules/webhooks/webhook.service.ts: the endpoints of an app. The generation and the
-- encryption of a secret are a parameter; the queries that only read are left out.
pub mod Allowed
use pactagent.Prelude.{
  ℕ, Bool, true, false, not, ◌&&◌, ◌||◌, String, Option, none, some, is_some, [], ◌∷◌,
  if◌then◌else◌,
}
use pactagent.Errors.{Result, ok, err, invalid_request, not_found, reject_if}
use pactagent.Store.Rows.{Text, WebhookEndpoint}
use pactagent.Store.Action.{Action, return, throw, transaction, call, ◌>>=◌, ◌>>◌}
use pactagent.Store.Tx.{Tx}
use pactagent.Repository.Events.{create_infrastructure_audit_log}
use pactagent.Repository.Endpoints.{
  CreateWebhookEndpointInput, UpdateWebhookEndpointInput, Secret, create_webhook_endpoint,
  find_webhook_endpoint_for_app, update_webhook_endpoint, delete_webhook_endpoint,
}
use pactagent.Idempotency.{Request}
use pactagent.Webhooks.Fetch.{Network, Environment, assert_webhook_url_allowed}

-- `auditWebhook`
unfoldable pub audit_webhook : ℕ → Request → String → String → ℕ → Tx (Unit {0})
audit_webhook app req action target_type id = create_infrastructure_audit_log (record {
  app_id = app;
  agreement_id = none;
  actor_type = if is_some req.actor then "api_key" else "system";
  actor_id = req.actor;
  action = action;
  target_type = target_type;
  target_id = id;
})

abbrev pub found_or_missing : Option WebhookEndpoint → Result WebhookEndpoint
found_or_missing none = err (not_found "webhook_endpoint_not_found")
found_or_missing (some endpoint) = ok endpoint

abbrev is_true : Option Bool → Bool
is_true (some true) = true
is_true _ = false

abbrev is_false : Option Bool → Bool
is_false (some false) = true
is_false _ = false

abbrev is_filled : Option Text → Bool
is_filled (some (c ∷ cs)) = true
is_filled _ = false

-- A migrated endpoint may lack a part of its secret.
abbrev pub has_usable_secret : WebhookEndpoint → Bool
has_usable_secret row =
    is_filled row.secret_hash
    && is_filled row.secret_ciphertext
    && is_filled row.encryption_key_version

abbrev pub normalized_as : Result Text → Result (Option Text)
normalized_as (err e) = err e
normalized_as (ok text) = ok (some text)

-- `input.url ? await assertWebhookUrlAllowed(…) : undefined`
abbrev pub normalized_if_given : Network → Environment → Option Text → Result (Option Text)
normalized_if_given net environment (some (c ∷ cs)) =
    normalized_as (assert_webhook_url_allowed net (c ∷ cs) environment)
normalized_if_given net environment _ = ok none

module _ (net : Network) (environment : Environment) (app : ℕ) (req : Request) where
  -- `createWebhookEndpointForApp`
  unfoldable pub create_webhook_endpoint_for_app :
      Secret → CreateWebhookEndpointInput → Action WebhookEndpoint
  create_webhook_endpoint_for_app secret input = do
    normalized ← call (assert_webhook_url_allowed net input.url environment)
    endpoint ← transaction (create_webhook_endpoint app input normalized secret)
    transaction (audit_webhook app req "webhook_endpoint.created" "webhook_endpoint" endpoint.id)
    return endpoint

  -- `updateWebhookEndpointForApp`
  unfoldable pub update_webhook_endpoint_for_app :
      ℕ → UpdateWebhookEndpointInput → Action WebhookEndpoint
  update_webhook_endpoint_for_app id input = do
    found ← transaction (find_webhook_endpoint_for_app app id)
    before ← call (found_or_missing found)
    call (
        reject_if (is_true input.active && not (has_usable_secret before))
          (invalid_request "webhook_secret_rotation_required"))
    normalized ← call (normalized_if_given net environment input.url)
    updated ← transaction (update_webhook_endpoint app id normalized input)
    transaction (
        audit_webhook app req
          (if is_false input.active
            then "webhook_endpoint.disabled"
            else "webhook_endpoint.updated")
          "webhook_endpoint" id)
    return updated

  -- `deleteWebhookEndpointForApp`
  unfoldable pub delete_webhook_endpoint_for_app : ℕ → Action WebhookEndpoint
  delete_webhook_endpoint_for_app id = do
    found ← transaction (find_webhook_endpoint_for_app app id)
    before ← call (found_or_missing found)
    deleted ← transaction (delete_webhook_endpoint app id req.now)
    transaction (audit_webhook app req "webhook_endpoint.disabled" "webhook_endpoint" id)
    return deleted
