-- ===== src/Webhooks/Endpoints/Allowed.antt =====
-- Which URLs the rows of webhook endpoints hold.
use pactagent.Prelude.{
  ℕ, ◌≡◌, sym, ap, subst, ◌∙◌, Bool, false, List, [], ◌∷◌, All, Option, none, some, Bool-cases, inl,
  inr, update_rows, String,
}
use pactagent.Errors.{Result, ok, err, bound_ok, same_ok}
use pactagent.Store.Rows.{Text, WebhookEndpoint}
use pactagent.Store.Tx.{Db, new_id}
use pactagent.Store.Respects.{
  Keeping, Respects, Respects-bind, Respects-reads, Respects-modify, Respects-pure,
  Respects-or_fail, Respects-step,
}
use pactagent.Store.Holds.{
  Holds, Holds-bind, Holds-check, Holds-call, Holds-transaction, Holds-return,
}
use pactagent.Store.Action.{transaction, return, ◌>>◌}
use pactagent.Repository.Events.{create_infrastructure_audit_log}
use pactagent.Repository.Endpoints.{
  CreateWebhookEndpointInput, UpdateWebhookEndpointInput, Secret, given_text, updated_endpoint,
  deleted_endpoint, create_webhook_endpoint, find_webhook_endpoint_for_app, update_endpoint_row,
}
use pactagent.Idempotency.{Request}
use pactagent.Webhooks.Addresses.{is_blocked_hostname}
use pactagent.Webhooks.Fetch.{
  Url, Network, Environment, assert_webhook_url_allowed, assert_webhook_url_shape_allowed,
  resolve_allowed_target, resolve_hostname, or_malformed,
}
use pactagent.Webhooks.Fetch.Targets.{IsStable, pinned, target-IsAllowed}
use pactagent.Webhooks.Endpoints.{
  audit_webhook, normalized_as, normalized_if_given, create_webhook_endpoint_for_app,
  update_webhook_endpoint_for_app, delete_webhook_endpoint_for_app,
}

-- The text is a URL whose host name is not blocked.
pub record IsReachable (net : Network) (text : Text) : Type 0 where
  pub url : Url
  pub read : net.parse_url text ≡ some url
  pub host : is_blocked_hostname net.runtime url.hostname ≡ false

abbrev pub AllReachable : Network → Db → Type 0
AllReachable net db = All (λ (row : WebhookEndpoint). IsReachable net row.url) db.webhook_endpoints

abbrev reachable : Network → Keeping
reachable net = record {
  rel = λ before after. AllReachable net before → AllReachable net after;
  reflexive = λ db h. h;
  transitive = λ a b c h k o. k (h o);
}

read_url : (net : Network) (o : Option Url) {url : Url} → or_malformed net o ≡ ok url → o ≡ some url
read_url net none h = absurd (cc)
read_url net (some x) h = ap some (same_ok h)

was_checked : (r : Result Text) {text : Text} → normalized_as r ≡ ok (some text) → r ≡ ok text
was_checked (err e) h = absurd (cc)
was_checked (ok text) h = cc

module _ (net : Network) (stable : IsStable net) (environment : Environment) where
  checked-IsReachable :
      (raw : Text) {text : Text}
      → assert_webhook_url_allowed net raw environment ≡ ok text
      → IsReachable net text
  unfolding assert_webhook_url_allowed resolve_allowed_target
  checked-IsReachable raw {text} h =
      let (target, ht, written) = bound_ok (resolve_allowed_target net raw environment) _ h in
      let (normalized, shape, h₁) =
        bound_ok (assert_webhook_url_shape_allowed net raw environment) _ ht in
      let (url, parsed, h₂) = bound_ok (or_malformed net (net.parse_url normalized)) _ h₁ in
      let (addresses, resolved, h₃) = bound_ok (resolve_hostname net url.hostname) _ h₂ in
      let same = (pinned net environment url addresses h₃).0 in
      let again = stable normalized url (read_url net (net.parse_url normalized) parsed) in
      record {
        url = target.url;
        read =
            subst (λ t. net.parse_url t ≡ some target.url) (same_ok written)
              (ap (λ (u : Url). net.parse_url u.href) same ∙ again ∙ ap some (sym same));
        host = (target-IsAllowed net environment stable raw target ht).host;
      }

  given-IsReachable :
      (input : Option Text) (normalized : Option Text) (before : Text)
      → normalized_if_given net environment input ≡ ok normalized
      → IsReachable net before
      → IsReachable net (given_text normalized before)
  given-IsReachable input none before h r = r
  given-IsReachable input (some []) before h r = r
  given-IsReachable none (some (c ∷ cs)) before h r = absurd (cc)
  given-IsReachable (some []) (some (c ∷ cs)) before h r = absurd (cc)
  given-IsReachable (some (d ∷ ds)) (some (c ∷ cs)) before h r =
      checked-IsReachable (d ∷ ds)
        (was_checked (assert_webhook_url_allowed net (d ∷ ds) environment) h)

All-updated :
    {A : Type 0} (P : A → Type 0) (test : A → Bool) (change : A → A) (xs : List A)
    → ((x : A) → P x → P (change x))
    → All P xs
    → All P (update_rows test change xs)
unfolding update_rows
All-updated P test change [] h o = tt
All-updated P test change (x ∷ xs) h o = (
  elim (Bool-cases (test x)) [ inl t ↦ rw t (h x o.0) | inr f ↦ rw f o.0 ],
  All-updated P test change xs h o.1,
)

module _ (net : Network) (stable : IsStable net) (environment : Environment) (app : ℕ)
    (req : Request) where
  Respects-audit :
      (action target_type : String) (id : ℕ)
      → Respects (reachable net) (audit_webhook app req action target_type id)
  unfolding audit_webhook create_infrastructure_audit_log
  Respects-audit action target_type id = Respects-modify _ λ db o. o

  Respects-find : (id : ℕ) → Respects (reachable net) (find_webhook_endpoint_for_app app id)
  unfolding find_webhook_endpoint_for_app
  Respects-find id = Respects-reads _

  Respects-row :
      (id : ℕ) (change : WebhookEndpoint → WebhookEndpoint)
      → ((row : WebhookEndpoint) → IsReachable net row.url → IsReachable net (change row).url)
      → Respects (reachable net) (update_endpoint_row app id change)
  unfolding update_endpoint_row
  Respects-row id change h =
      Respects-bind _ _
        (Respects-modify _
          λ db. All-updated (λ (row : WebhookEndpoint). IsReachable net row.url) _ _ _ h)
        λ _. Respects-bind _ _ (Respects-reads _) λ found. Respects-or_fail _ _

  Respects-id : Respects (reachable net) new_id
  unfolding new_id
  Respects-id = Respects-step (λ db. db.next_id) _ λ db o. o

  Respects-new :
      (input : CreateWebhookEndpointInput) (normalized : Text) (secret : Secret)
      → IsReachable net normalized
      → Respects (reachable net) (create_webhook_endpoint app input normalized secret)
  unfolding create_webhook_endpoint
  Respects-new input normalized secret h =
      Respects-bind _ _ Respects-id
        λ id. Respects-bind _ _ (Respects-modify _ λ db o. (h, o)) λ _. Respects-pure _

  Holds-audited :
      (action : String) (id : ℕ) (row : WebhookEndpoint)
      → Holds
          (reachable net)
          (transaction (audit_webhook app req action "webhook_endpoint" id) >> return row)
  Holds-audited action id row =
      Holds-bind _ _ (Holds-transaction _ (Respects-audit action "webhook_endpoint" id))
        λ _. Holds-return row

  Holds-create :
      (secret : Secret) (input : CreateWebhookEndpointInput)
      → Holds (reachable net) (create_webhook_endpoint_for_app net environment app req secret input)
  unfolding create_webhook_endpoint_for_app
  Holds-create secret input =
      Holds-check (assert_webhook_url_allowed net input.url environment) _ λ normalized h.
        Holds-bind _ _
          (Holds-transaction _ (
            Respects-new input normalized secret
              (checked-IsReachable net stable environment input.url h)))
          λ row. Holds-audited "webhook_endpoint.created" row.id row

  Holds-update :
      (id : ℕ) (input : UpdateWebhookEndpointInput)
      → Holds (reachable net) (update_webhook_endpoint_for_app net environment app req id input)
  unfolding update_webhook_endpoint_for_app
  Holds-update id input = Holds-bind _ _ (Holds-transaction _ (Respects-find id)) λ found.
      Holds-bind _ _ (Holds-call _) λ before. Holds-bind _ _ (Holds-call _) λ _.
        Holds-check (normalized_if_given net environment input.url) _ λ normalized h.
          Holds-bind _ _
            (Holds-transaction _ (
              Respects-row id (updated_endpoint normalized input)
                λ row. given-IsReachable net stable environment input.url normalized row.url h))
            λ row. Holds-audited _ id row

  Holds-delete :
      (id : ℕ) → Holds (reachable net) (delete_webhook_endpoint_for_app net environment app req id)
  unfolding delete_webhook_endpoint_for_app
  Holds-delete id = Holds-bind _ _ (Holds-transaction _ (Respects-find id)) λ found.
      Holds-bind _ _ (Holds-call _) λ before.
        Holds-bind _ _ (Holds-transaction _ (Respects-row id (deleted_endpoint req.now) λ row o. o))
          λ row. Holds-audited "webhook_endpoint.disabled" id row

-- Where a URL's own text is read as that URL, the creation, the update and the deletion of an endpoint
-- keep it so that every endpoint's URL has a host name that is not blocked, whatever the input is and
-- however the request ends.
pub endpoints-AllReachable :
    (net : Network) (environment : Environment) (app : ℕ) (req : Request) (secret : Secret)
    (created : CreateWebhookEndpointInput) (updated : UpdateWebhookEndpointInput) (id : ℕ) (db : Db)
    → IsStable net
    → AllReachable net db
    → AllReachable net (create_webhook_endpoint_for_app net environment app req secret created db).1
      × AllReachable net (update_webhook_endpoint_for_app net environment app req id updated db).1
      × AllReachable net (delete_webhook_endpoint_for_app net environment app req id db).1
endpoints-AllReachable net environment app req secret created updated id db stable h = (
  (Holds-create net stable environment app req secret created).at db h,
  (Holds-update net stable environment app req id updated).at db h,
  (Holds-delete net stable environment app req id).at db h,
)
