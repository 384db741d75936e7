-- ===== src/Webhooks/Fetch.antt =====
-- server/src/modules/webhooks/webhook.security.ts: the checks of a webhook's URL, and the request
-- that follows redirects. The URL parser, the resolver and the pinned request are parameters.
pub mod Bounds
pub mod Targets
use pactagent.Prelude.{
  ℕ, zero, suc, ◌+◌, Bool, true, false, not, ◌&&◌, ◌||◌, ◌==◌, nat_eq, Option, none, some, is_some,
  List, [], ◌∷◌, map, if◌then◌else◌,
}
use pactagent.Errors.{
  Error, Result, ok, err, invalid_request, internal, require, reject_if, ◌>>=◌, ◌>>◌,
}
use pactagent.Store.Rows.{Text, text_eq, codes}
use pactagent.Webhooks.Addresses.{
  Runtime, IpVersion, without_brackets, is_blocked_hostname, is_blocked_ip_address,
}

-- What is read of a `URL`.
pub record Url : Type 0 where
  pub href : Text
  pub protocol : Text
  pub username : Text
  pub password : Text
  pub hostname : Text

-- What is read of a `Response`.
pub record Response : Type 0 where
  pub status : ℕ
  pub location : Option Text

-- The calls out: `new URL(text)` and `new URL(text, base)`, which throw on a malformed text, the
-- DNS lookup, and `requestImpl`, which sends one request to the address.
pub record Network : Type 0 where
  pub runtime : Runtime
  pub parse_url : Text → Option Url
  pub resolve_url : Text → Url → Option Url
  pub lookup_all : Text → Result (List Text)
  pub send : Url → Text → Result Response

pub data Environment : Type 0 where
  sandbox production : Environment

abbrev pub is_production : Environment → Bool
is_production Environment.production = true
is_production Environment.sandbox = false

abbrev is_empty : Text → Bool
is_empty [] = true
is_empty (c ∷ cs) = false

-- A request that went out: the URL and the address that it was pinned to.
pub record Sent : Type 0 where
  pub url : Url
  pub address : Text

pub record Target : Type 0 where
  pub url : Url
  pub first : Text
  pub others : List Text

-- What a response leads to: it is the answer, it is refused, or the text of the next URL.
pub data Next : Type 0 where
  answer : Response → Next
  refuse : Error → Next
  follow : Text → Next

module _ (net : Network) where
  abbrev pub checked_shape : Option Url → Environment → Result Text
  checked_shape none environment = err (invalid_request "invalid_webhook_url")
  checked_shape (some url) environment = do
    require (url.protocol == codes "http:" || url.protocol == codes "https:")
        (invalid_request "invalid_webhook_url_protocol")
    reject_if (is_production environment && not (url.protocol == codes "https:"))
        (invalid_request "webhook_https_required")
    require (is_empty url.username && is_empty url.password)
        (invalid_request "invalid_webhook_url_credentials")
    reject_if (is_blocked_hostname net.runtime url.hostname)
        (invalid_request "webhook_url_not_allowed")
    ok url.href

  -- `assertWebhookUrlShapeAllowed`
  unfoldable pub assert_webhook_url_shape_allowed : Text → Environment → Result Text
  assert_webhook_url_shape_allowed raw environment = checked_shape (net.parse_url raw) environment

  abbrev addresses_of : IpVersion → Text → Result (List Text)
  addresses_of IpVersion.neither name = net.lookup_all name
  addresses_of _ name = ok (name ∷ [])

  -- `resolveHostname`
  abbrev pub resolve_hostname : Text → Result (List Text)
  resolve_hostname hostname =
      addresses_of (net.runtime.is_ip (without_brackets hostname)) (without_brackets hostname)

  abbrev pub any_blocked : List Text → Bool
  any_blocked [] = false
  any_blocked (x ∷ xs) = is_blocked_ip_address net.runtime x || any_blocked xs

  abbrev pub allowed_target : Url → List Text → Result Target
  allowed_target url [] = err (invalid_request "webhook_url_not_allowed")
  allowed_target url (x ∷ xs) = do
    reject_if (any_blocked (x ∷ xs)) (invalid_request "webhook_url_not_allowed")
    ok (record { url = url; first = x; others = xs })

  abbrev pub or_malformed : Option Url → Result Url
  or_malformed none = err (internal "invalid_url")
  or_malformed (some url) = ok url

  -- `resolveAllowedTarget`
  unfoldable pub resolve_allowed_target : Text → Environment → Result Target
  unfolding assert_webhook_url_shape_allowed
  resolve_allowed_target raw environment = do
    normalized ← assert_webhook_url_shape_allowed raw environment
    url ← or_malformed (net.parse_url normalized)
    addresses ← resolve_hostname url.hostname
    allowed_target url addresses

  -- `assertWebhookUrlAllowed`
  unfoldable pub assert_webhook_url_allowed : Text → Environment → Result Text
  unfolding resolve_allowed_target
  assert_webhook_url_allowed raw environment = do
    target ← resolve_allowed_target raw environment
    ok target.url.href

  abbrev pub is_redirect : ℕ → Bool
  is_redirect status =
      status == 301 || status == 302 || status == 303 || status == 307 || status == 308

  abbrev followed : Option Url → Next
  followed none = refuse (internal "invalid_url")
  followed (some url) = follow url.href

  abbrev redirected : Url → Option Text → Bool → Next
  redirected url none last = refuse (invalid_request "webhook_redirect_missing_location")
  redirected url (some []) last = refuse (invalid_request "webhook_redirect_missing_location")
  redirected url (some location) true = refuse (invalid_request "webhook_redirect_limit_exceeded")
  redirected url (some location) false = followed (net.resolve_url location url)

  abbrev pub next_after : Url → Response → Bool → Next
  next_after url response last =
      if is_redirect response.status then redirected url response.location last else answer response

  abbrev pub sent : Url → Text → Result Response × List Sent → Result Response × List Sent
  sent url address (result, later) = (result, record { url = url; address = address } ∷ later)

  abbrev pub go_on : Next → (Text → Result Response × List Sent) → Result Response × List Sent
  go_on (answer response) continue = (ok response, [])
  go_on (refuse e) continue = (err e, [])
  go_on (follow text) continue = continue text

  abbrev pub after_send :
      Target
      → Bool
      → Result Response
      → (Text → Result Response × List Sent)
      → Result Response × List Sent
  after_send target last (err e) continue = (err e, [])
  after_send target last (ok response) continue =
      go_on (next_after target.url response last) continue

  -- One round of the loop; `last` is `redirectCount === maxRedirects`.
  abbrev pub round :
      Result Target → Bool → (Text → Result Response × List Sent) → Result Response × List Sent
  round (err e) last continue = (err e, [])
  round (ok target) last continue =
      sent target.url target.first
        (after_send target last (net.send target.url target.first) continue)

  -- The rounds that are left after `left` more redirects, with the requests that they send.
  unfoldable pub fetch_rounds : ℕ → Environment → Text → Result Response × List Sent
  unfolding resolve_allowed_target
  fetch_rounds zero environment current =
      round (resolve_allowed_target current environment) true
        (λ text. (err (invalid_request "webhook_redirect_limit_exceeded"), []))
  fetch_rounds (suc left) environment current =
      round (resolve_allowed_target current environment) false
        (λ text. fetch_rounds left environment text)

  -- `fetchWebhookUrl`
  unfoldable pub fetch_webhook_url : Text → Environment → ℕ → Result Response × List Sent
  unfolding fetch_rounds
  fetch_webhook_url raw environment max_redirects = fetch_rounds max_redirects environment raw
