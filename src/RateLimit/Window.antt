-- ===== src/RateLimit/Window.antt =====
-- How many requests a key gets through in a window.
use pactagent.Prelude.{
  ℕ, suc, ◌+◌, ◌-◌, ◌≤◌, ◌<◌, ◌≡◌, refl, sym, ap, subst, ◌∙◌, true, false, ◌==◌, nat_eq, ltb, leb,
  Option, none, some, List, [], ◌∷◌, All, arith, Bool-cases, inl, inr, if◌then◌else◌, length,
}
use pactagent.Errors.{Result, ok, err}
use pactagent.RateLimit.{
  Bucket, Buckets, find_bucket, set_bucket, delete_expired, next_bucket, swept, consume_memory,
  max_buckets, decide, infrastructure_rate_limit,
}

-- A request: its key and its time.
abbrev pub Call : Type 0
Call = ℕ × ℕ

abbrev pub is_passed : Result (Unit {0}) → ℕ
is_passed (ok x) = 1
is_passed (err e) = 0

-- How many of the calls under the key get through.
unfoldable pub passed : ℕ → ℕ → ℕ → List Call → Buckets → ℕ
passed window_ms max key [] buckets = 0
passed window_ms max key ((k, now) ∷ calls) buckets =
    let (result, buckets') = infrastructure_rate_limit window_ms max (some k) now buckets in
    let rest = passed window_ms max key calls buckets' in
    if k == key then is_passed result + rest else rest

find-set_own :
    (key : ℕ) (bucket : Bucket) (buckets : Buckets)
    → find_bucket key (set_bucket key bucket buckets) ≡ some bucket
unfolding find_bucket set_bucket
find-set_own key bucket [] = ground arith
find-set_own key bucket ((k, old) ∷ rest) = elim (Bool-cases (k == key)) [
  | inl same ↦ rw (same, same) refl
  | inr other ↦ rw (other, other) (find-set_own key bucket rest)
]

find-set_other :
    (key other : ℕ) (bucket : Bucket) (buckets : Buckets)
    → (other == key) ≡ false
    → find_bucket key (set_bucket other bucket buckets) ≡ find_bucket key buckets
unfolding find_bucket set_bucket
find-set_other key other bucket [] h = rw h refl
find-set_other key other bucket ((k, old) ∷ rest) h = elim (Bool-cases (k == other)) [
  | inl same ↦ let apart : (k == key) ≡ false = ground arith in rw (same, apart) refl
  | inr differ ↦ rw (differ, find-set_other key other bucket rest h) refl
]

find-delete_expired :
    (key now : ℕ) (buckets : Buckets) {bucket : Bucket}
    → now < bucket.reset_at
    → find_bucket key buckets ≡ some bucket
    → find_bucket key (delete_expired now buckets) ≡ some bucket
unfolding find_bucket delete_expired
find-delete_expired key now [] live h = h
find-delete_expired key now ((k, old) ∷ rest) {bucket} live h = elim (Bool-cases (k == key)) [
  | inl same ↦
      let own : old ≡ bucket = ground arith in
      let stays : leb old.reset_at now ≡ false = ground (arith, own) in
      rw (stays, same) (ap some own)
  | inr other ↦
      let there : find_bucket key rest ≡ some bucket = ground arith in
      elim (Bool-cases (leb old.reset_at now)) [
        | inl gone ↦ rw gone (find-delete_expired key now rest live there)
        | inr stays ↦ rw (stays, other) (find-delete_expired key now rest live there)
      ]
]

find-swept :
    (key now : ℕ) (buckets : Buckets) {bucket : Bucket}
    → now < bucket.reset_at
    → find_bucket key buckets ≡ some bucket
    → find_bucket key (swept now buckets) ≡ some bucket
find-swept key now buckets live h = elim (Bool-cases (ltb max_buckets (length buckets))) [
  | inl full ↦ rw full (find-delete_expired key now buckets live h)
  | inr room ↦ rw room h
]

abbrev counted : Bucket → Bucket
counted bucket = record { count = suc bucket.count; reset_at = bucket.reset_at }

live_bucket :
    (window_ms now : ℕ) (bucket : Bucket)
    → now < bucket.reset_at
    → next_bucket window_ms now (some bucket) ≡ counted bucket
live_bucket window_ms now bucket live =
    let stays : leb bucket.reset_at now ≡ false = ground arith in rw stays refl

one_more :
    (max rest : ℕ) (bucket : Bucket) (now : ℕ)
    → rest ≤ max - suc bucket.count
    → is_passed (decide max now (counted bucket)).outcome + rest ≤ max - bucket.count
one_more max rest bucket now h = ground arith

-- From a bucket whose window lasts over all the calls.
passed-bound :
    (window_ms max key : ℕ) (calls : List Call) (buckets : Buckets) (bucket : Bucket)
    → find_bucket key buckets ≡ some bucket
    → All (λ (call : Call). call.1 < bucket.reset_at) calls
    → passed window_ms max key calls buckets ≤ max - bucket.count
unfolding passed infrastructure_rate_limit consume_memory
passed-bound window_ms max key [] buckets bucket h within = omega arith
passed-bound window_ms max key ((k, now) ∷ calls) buckets bucket h within =
    elim (Bool-cases (k == key)) [
      | inl own ↦
          let same : key ≡ k = ground arith in
          let there : find_bucket k buckets ≡ some bucket =
            subst (λ x. find_bucket x buckets ≡ some bucket) same h in
          let next =
            ap (next_bucket window_ms now) there ∙ live_bucket window_ms now bucket within.0 in
          let after : find_bucket key (swept now (set_bucket k (counted bucket) buckets))
              ≡ some (counted bucket) =
            subst
              (λ x.
                find_bucket x (swept now (set_bucket k (counted bucket) buckets))
                ≡ some (counted bucket))
              (sym same)
              (find-swept k now _ {bucket = counted bucket} within.0
                (find-set_own k (counted bucket) buckets)) in
          rw (own, next)
            (one_more max _ bucket now
              (passed-bound window_ms max key calls _ (counted bucket) after within.1))
      | inr other ↦ rw other (
          passed-bound window_ms max key calls _ bucket
            (find-swept key now _ {bucket = bucket} within.0
              (find-set_other key k _ buckets other ∙ h))
            within.1)
    ]

abbrev opened : ℕ → ℕ → Bucket
opened window_ms now = record { count = 1; reset_at = now + window_ms }

opening_bucket :
    (window_ms now : ℕ) (o : Option Bucket)
    → ((old : Bucket) → o ≡ some old → old.reset_at ≤ now)
    → next_bucket window_ms now o ≡ opened window_ms now
opening_bucket window_ms now none over = refl
opening_bucket window_ms now (some old) over =
    let gone : leb old.reset_at now ≡ true = ground (arith, over old refl) in rw gone refl

first_one :
    (window_ms max rest now : ℕ)
    → rest ≤ max - 1
    → is_passed (decide max now (opened window_ms now)).outcome + rest ≤ max
first_one window_ms max rest now h = ground arith

-- In a window that opens with a request of the key's, at most as many of the key's requests as the
-- limit says get through, whatever other keys ask for meanwhile. The requests that follow come
-- before the window's end, and the key's last window, if it had one, is over.
pub window-bound :
    (window_ms max key opening : ℕ) (calls : List Call) (buckets : Buckets)
    → 0 < window_ms
    → ((old : Bucket) → find_bucket key buckets ≡ some old → old.reset_at ≤ opening)
    → All (λ (call : Call). call.1 < opening + window_ms) calls
    → passed window_ms max key ((key, opening) ∷ calls) buckets ≤ max
unfolding passed infrastructure_rate_limit consume_memory
window-bound window_ms max key opening calls buckets pos over within =
    let own : (key == key) ≡ true = ground arith in
    let next = opening_bucket window_ms opening (find_bucket key buckets) over in
    let after =
      find-swept key opening _ {bucket = opened window_ms opening} (omega arith)
        (find-set_own key (opened window_ms opening) buckets) in
    rw (own, next)
      (first_one window_ms max _ opening
        (passed-bound window_ms max key calls _ (opened window_ms opening) after within))
