-- ===== src/Repository/Endpoints.antt =====
-- server/src/modules/webhooks/webhook.repository.ts: the rows of webhook endpoints. The secret of a new
-- endpoint comes as its hash, its ciphertext and the id of the key that encrypted it. Descriptions are
-- left out.
use pactagent.Prelude.{
  ℕ, Bool, true, false, not, ◌&&◌, ◌==◌, nat_eq, String, Option, none, some, is_some, List, ◌∷◌,
  find_first, update_rows,
}
use pactagent.Errors.{internal}
use pactagent.Store.Rows.{Text, WebhookEndpoint}
use pactagent.Store.Tx.{Tx, pure, reads, modify, new_id, or_fail, ◌>>=◌, ◌>>◌}

pub record CreateWebhookEndpointInput : Type 0 where
  pub url : Text
  pub subscribed_events : List String

-- `active` is whether the status is `active`; the other one is `disabled`.
pub record UpdateWebhookEndpointInput : Type 0 where
  pub url : Option Text
  pub subscribed_events : Option (List String)
  pub active : Option Bool

pub record Secret : Type 0 where
  pub hash : Text
  pub ciphertext : Text
  pub key_id : Text

abbrev pub new_endpoint : ℕ → CreateWebhookEndpointInput → Text → Secret → ℕ → WebhookEndpoint
new_endpoint app input normalized secret id = record {
  id = id;
  app_id = app;
  url = normalized;
  secret_hash = some secret.hash;
  secret_ciphertext = some secret.ciphertext;
  encryption_key_version = some secret.key_id;
  active = true;
  deleted_at = none;
  subscribed_events = input.subscribed_events;
}

-- `createWebhookEndpoint`
unfoldable pub create_webhook_endpoint :
    ℕ → CreateWebhookEndpointInput → Text → Secret → Tx WebhookEndpoint
create_webhook_endpoint app input normalized secret = do
  id ← new_id
  modify (λ db. record db {
    webhook_endpoints = new_endpoint app input normalized secret id ∷ db.webhook_endpoints;
  })
  pure (new_endpoint app input normalized secret id)

abbrev pub is_endpoint : ℕ → ℕ → WebhookEndpoint → Bool
is_endpoint app id row = row.id == id && row.app_id == app

-- `findWebhookEndpointForApp`
unfoldable pub find_webhook_endpoint_for_app : ℕ → ℕ → Tx (Option WebhookEndpoint)
find_webhook_endpoint_for_app app id = reads (λ db.
    find_first (λ row. is_endpoint app id row && not (is_some row.deleted_at)) db.webhook_endpoints)

abbrev pub given_or : {A : Type 0} → Option A → A → A
given_or none before = before
given_or (some a) before = a

-- An empty text is falsy.
abbrev pub given_text : Option Text → Text → Text
given_text (some (c ∷ cs)) before = c ∷ cs
given_text _ before = before

-- The `data` of the update; `normalizedUrl` is the first argument.
abbrev pub updated_endpoint :
    Option Text → UpdateWebhookEndpointInput → WebhookEndpoint → WebhookEndpoint
updated_endpoint normalized input row = record row {
  url = given_text normalized row.url;
  subscribed_events = given_or input.subscribed_events row.subscribed_events;
  active = given_or input.active row.active;
}

-- `prisma.webhookEndpoint.update`: the row by its id and its app, deleted or not.
unfoldable pub update_endpoint_row :
    ℕ → ℕ → (WebhookEndpoint → WebhookEndpoint) → Tx WebhookEndpoint
update_endpoint_row app id change = do
  modify (λ db. record db {
    webhook_endpoints = update_rows (is_endpoint app id) change db.webhook_endpoints;
  })
  found ← reads (λ db. find_first (is_endpoint app id) db.webhook_endpoints)
  or_fail found (internal "P2025")

-- `updateWebhookEndpointForApp`
abbrev pub update_webhook_endpoint :
    ℕ → ℕ → Option Text → UpdateWebhookEndpointInput → Tx WebhookEndpoint
update_webhook_endpoint app id normalized input =
    update_endpoint_row app id (updated_endpoint normalized input)

abbrev pub deleted_endpoint : ℕ → WebhookEndpoint → WebhookEndpoint
deleted_endpoint now row = record row { active = false; deleted_at = some now }

-- `deleteWebhookEndpointForApp`
abbrev pub delete_webhook_endpoint : ℕ → ℕ → ℕ → Tx WebhookEndpoint
delete_webhook_endpoint app id now = update_endpoint_row app id (deleted_endpoint now)
