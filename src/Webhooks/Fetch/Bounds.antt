-- ===== src/Webhooks/Fetch/Bounds.antt =====
-- How many requests a delivery sends, and where to.
use pactagent.Prelude.{ℕ, zero, suc, ◌≤◌, Bool, true, false, List, length, arith}
use pactagent.Errors.{Result, ok, err}
use pactagent.Store.Rows.{Text}
use pactagent.Webhooks.Fetch.{
  Response, Network, Environment, Sent, Target, Next, answer, refuse, follow, go_on, after_send,
  round, fetch_rounds, fetch_webhook_url,
}

module _ (net : Network) where
  go_on-bound :
      (n : ℕ) (next : Next) (continue : Text → Result Response × List Sent)
      → ((text : Text) → length (continue text).1 ≤ n)
      → length (go_on net next continue).1 ≤ n
  go_on-bound n (answer response) continue h = omega arith
  go_on-bound n (refuse e) continue h = omega arith
  go_on-bound n (follow text) continue h = h text

  after_send-bound :
      (n : ℕ) (target : Target) (last : Bool) (r : Result Response)
      (continue : Text → Result Response × List Sent)
      → ((text : Text) → length (continue text).1 ≤ n)
      → length (after_send net target last r continue).1 ≤ n
  after_send-bound n target last (err e) continue h = omega arith
  after_send-bound n target last (ok response) continue h = go_on-bound n _ continue h

  round-bound :
      (n : ℕ) (target : Result Target) (last : Bool) (continue : Text → Result Response × List Sent)
      → ((text : Text) → length (continue text).1 ≤ n)
      → length (round net target last continue).1 ≤ suc n
  round-bound n (err e) last continue h = omega arith
  round-bound n (ok target) last continue h =
      omega (arith, after_send-bound n target last (net.send target.url target.first) continue h)

  rounds-bound :
      (left : ℕ) (environment : Environment) (current : Text)
      → length (fetch_rounds net left environment current).1 ≤ suc left
  unfolding fetch_rounds
  rounds-bound zero environment current = round-bound 0 _ true _ λ text. omega arith
  rounds-bound (suc left) environment current =
      round-bound (suc left) _ false _ λ text. rounds-bound left environment text

-- A fetch ends after at most one request more than the redirects that it may follow, whatever the
-- servers answer.
pub fetch_webhook_url-bound :
    (net : Network) (raw : Text) (environment : Environment) (max_redirects : ℕ)
    → length (fetch_webhook_url net raw environment max_redirects).1 ≤ suc max_redirects
unfolding fetch_webhook_url
fetch_webhook_url-bound net raw environment max_redirects =
    rounds-bound net max_redirects environment raw
