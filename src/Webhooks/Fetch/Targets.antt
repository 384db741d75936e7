-- ===== src/Webhooks/Fetch/Targets.antt =====
-- Where the requests of a delivery go.
use pactagent.Prelude.{
  ℕ, zero, suc, ◌≡◌, refl, sym, ap, subst, ◌∙◌, Bool, true, false, not, ◌&&◌, ◌==◌, List, [], ◌∷◌,
  All, Option, none, some, arith,
}
use pactagent.Errors.{Result, ok, err, bound_ok}
use pactagent.Store.Rows.{Text, text_eq, text_beq_iff, codes}
use pactagent.Webhooks.Addresses.{is_blocked_hostname, is_blocked_ip_address}
use pactagent.Webhooks.Fetch.{
  Url, Response, Network, Environment, Sent, Target, Next, answer, refuse, follow, go_on,
  after_send, round, fetch_rounds, fetch_webhook_url, resolve_allowed_target, checked_shape,
  allowed_target, resolve_hostname, assert_webhook_url_shape_allowed, or_malformed, is_production,
}

-- What a request may go to: an address that is not blocked, for a host that is not, and in
-- production over HTTPS.
pub record IsAllowed (net : Network) (environment : Environment) (s : Sent) : Type 0 where
  pub address : is_blocked_ip_address net.runtime s.address ≡ false
  pub host : is_blocked_hostname net.runtime s.url.hostname ≡ false
  pub secure : is_production environment ≡ true → s.url.protocol ≡ codes "https:"

-- The URL standard: what a URL is written as is read as that URL.
abbrev pub IsStable : Network → Type 0
IsStable net =
    (text : Text) (url : Url) → net.parse_url text ≡ some url → net.parse_url url.href ≡ some url

-- The checks of the shape, for a URL that passes them.
record Shaped (net : Network) (environment : Environment) (url : Url) : Type 0 where
  host : is_blocked_hostname net.runtime url.hostname ≡ false
  secure : is_production environment ≡ true → url.protocol ≡ codes "https:"

https_only : {b c : Bool} → b ≡ true → (b && not c) ≡ false → c ≡ true
https_only {b = true} {c = true} p h = refl
https_only {b = true} {c = false} p h = absurd (cc)
https_only {b = false} p h = absurd (cc)

module _ (net : Network) (environment : Environment) where
  shaped :
      (o : Option Url) {normalized : Text}
      → checked_shape net o environment ≡ ok normalized
      → (url : Url) × (o ≡ some url) × (url.href ≡ normalized) × Shaped net environment url
  shaped none h = absurd (cc)
  shaped (some url) {normalized} h =
      let facts : (is_blocked_hostname net.runtime url.hostname ≡ false)
          × ((is_production environment && not (url.protocol == codes "https:")) ≡ false)
          × (url.href ≡ normalized) =
        ground arith in
      let (reachable, https, written) = facts in
      (
        url,
        refl,
        written,
        record {
          host = reachable;
          secure = λ p. (text_beq_iff url.protocol (codes "https:")).0 (https_only p https);
        },
      )

  -- The address that is taken is the first one, and none is blocked.
  pub pinned :
      (url : Url) (addresses : List Text) {target : Target}
      → allowed_target net url addresses ≡ ok target
      → (target.url ≡ url) × (is_blocked_ip_address net.runtime target.first ≡ false)
  pinned url [] h = absurd (cc)
  pinned url (x ∷ xs) {target} h =
      let facts : (is_blocked_ip_address net.runtime x ≡ false)
          × ◌≡◌ {A = Target} (record { url = url; first = x; others = xs }) target =
        ground arith in
      (
        ap (λ (t : Target). t.url) (sym facts.1),
        subst (λ (t : Target). is_blocked_ip_address net.runtime t.first ≡ false) facts.1 facts.0,
      )

  parsed_as :
      {o : Option Url} {url other : Url}
      → or_malformed net o ≡ ok url
      → o ≡ some other
      → url ≡ other
  parsed_as {o = none} h k = absurd (cc)
  parsed_as {o = some x} h k = cc

  -- A target as the requests need it.
  pub target-IsAllowed :
      IsStable net
      → (raw : Text) (target : Target) → resolve_allowed_target net raw environment ≡ ok target
      → IsAllowed net environment (record { url = target.url; address = target.first })
  unfolding resolve_allowed_target assert_webhook_url_shape_allowed
  target-IsAllowed stable raw target h =
      let (normalized, shape, h₁) =
        bound_ok (checked_shape net (net.parse_url raw) environment) _ h in
      let (url, parsed, h₂) = bound_ok (or_malformed net (net.parse_url normalized)) _ h₁ in
      let (addresses, found, h₃) = bound_ok (resolve_hostname net url.hostname) _ h₂ in
      let (first_url, read, written, fits) = shaped (net.parse_url raw) shape in
      let again =
        subst (λ text. net.parse_url text ≡ some first_url) written (stable raw first_url read) in
      let (url_same, clear) = pinned url addresses h₃ in
      let same : target.url ≡ first_url = url_same ∙ parsed_as parsed again in
      record {
        address = clear;
        host = ap (λ (u : Url). is_blocked_hostname net.runtime u.hostname) same ∙ fits.host;
        secure = λ p. ap (λ (u : Url). u.protocol) same ∙ fits.secure p;
      }

  AllAllowed : List Sent → Type 0
  AllAllowed requests = All (λ (s : Sent). IsAllowed net environment s) requests

  go_on-AllAllowed :
      (next : Next) (continue : Text → Result Response × List Sent)
      → ((text : Text) → AllAllowed (continue text).1)
      → AllAllowed (go_on net next continue).1
  unfolding AllAllowed
  go_on-AllAllowed (answer response) continue h = tt
  go_on-AllAllowed (refuse e) continue h = tt
  go_on-AllAllowed (follow text) continue h = h text

  after_send-AllAllowed :
      (target : Target) (last : Bool) (r : Result Response)
      (continue : Text → Result Response × List Sent)
      → ((text : Text) → AllAllowed (continue text).1)
      → AllAllowed (after_send net target last r continue).1
  unfolding AllAllowed
  after_send-AllAllowed target last (err e) continue h = tt
  after_send-AllAllowed target last (ok response) continue h = go_on-AllAllowed _ continue h

  round-AllAllowed :
      (entry : Result Target) (last : Bool) (continue : Text → Result Response × List Sent)
      → ((target : Target)
          → entry ≡ ok target
          → IsAllowed net environment (record { url = target.url; address = target.first }))
      → ((text : Text) → AllAllowed (continue text).1)
      → AllAllowed (round net entry last continue).1
  unfolding AllAllowed
  round-AllAllowed (err e) last continue t h = tt
  round-AllAllowed (ok target) last continue t h = (
    t target refl,
    after_send-AllAllowed target last (net.send target.url target.first) continue h,
  )

  rounds-AllAllowed :
      IsStable net
      → (left : ℕ) (current : Text) → AllAllowed (fetch_rounds net left environment current).1
  unfolding fetch_rounds AllAllowed
  rounds-AllAllowed stable zero current =
      round-AllAllowed _ true _ (target-IsAllowed stable current) λ text. tt
  rounds-AllAllowed stable (suc left) current =
      round-AllAllowed _ false _ (target-IsAllowed stable current)
        λ text. rounds-AllAllowed stable left text

-- Where a URL's own text is read as that URL, every request of a fetch, after a redirect too, goes
-- to an address that is not blocked, for a host name that is not, and in production over HTTPS,
-- whatever the resolver and the servers answer.
pub requests-IsAllowed :
    (net : Network) (raw : Text) (environment : Environment) (max_redirects : ℕ)
    → IsStable net
    → All
        (λ (s : Sent). IsAllowed net environment s)
        (fetch_webhook_url net raw environment max_redirects).1
unfolding fetch_webhook_url AllAllowed
requests-IsAllowed net raw environment max_redirects stable =
    rounds-AllAllowed net environment stable max_redirects raw
