-- ===== src/RateLimit.antt =====
-- server/src/common/rate-limit/infrastructure-rate-limit.ts: the limiter and its store in memory. A
-- key is the number of its digest; the Redis store is left out, and what it throws reaches the
-- limiter as an error.
pub mod Window
use pactagent.Prelude.{
  ℕ, suc, ◌+◌, ◌-◌, ◌/◌, Bool, true, false, ◌==◌, nat_eq, ltb, leb, Option, none, some, List, [],
  ◌∷◌, length, if◌then◌else◌,
}
use pactagent.Errors.{Error, Result, ok, err, rate_limit_error}

pub record Bucket : Type 0 where
  pub count : ℕ
  pub reset_at : ℕ

-- `memoryBuckets`, in the order of insertion.
abbrev pub Buckets : Type 0
Buckets = List (ℕ × Bucket)

unfoldable pub find_bucket : ℕ → Buckets → Option Bucket
find_bucket key [] = none
find_bucket key ((k, bucket) ∷ rest) = if k == key then some bucket else find_bucket key rest

unfoldable pub set_bucket : ℕ → Bucket → Buckets → Buckets
set_bucket key bucket [] = (key, bucket) ∷ []
set_bucket key bucket ((k, old) ∷ rest) =
    if k == key then (k, bucket) ∷ rest else (k, old) ∷ set_bucket key bucket rest

unfoldable pub delete_expired : ℕ → Buckets → Buckets
delete_expired now [] = []
delete_expired now ((k, bucket) ∷ rest) =
    if leb bucket.reset_at now
    then delete_expired now rest
    else (k, bucket) ∷ delete_expired now rest

abbrev pub next_bucket : ℕ → ℕ → Option Bucket → Bucket
next_bucket window_ms now none = record { count = 1; reset_at = now + window_ms }
next_bucket window_ms now (some existing) =
    if leb existing.reset_at now
    then record { count = 1; reset_at = now + window_ms }
    else record { count = suc existing.count; reset_at = existing.reset_at }

abbrev pub max_buckets : ℕ
max_buckets = 10000

abbrev pub swept : ℕ → Buckets → Buckets
swept now buckets = if ltb max_buckets (length buckets) then delete_expired now buckets else buckets

-- `consumeMemory`
unfoldable pub consume_memory : ℕ → ℕ → ℕ → Buckets → Bucket × Buckets
consume_memory key window_ms now buckets =
    let bucket = next_bucket window_ms now (find_bucket key buckets) in
    (bucket, swept now (set_bucket key bucket buckets))

-- What the limiter answers, with the headers that it sets. `retry_after` is set when it refuses.
pub record Decision : Type 0 where
  pub outcome : Result (Unit {0})
  pub limit : ℕ
  pub remaining : ℕ
  pub reset : ℕ
  pub retry_after : Option ℕ

-- `Math.ceil(ms / 1000)`
abbrev seconds : ℕ → ℕ
seconds ms = (ms + 999) / 1000

abbrev at_least_one : ℕ → ℕ
at_least_one n = if ltb n 1 then 1 else n

-- `infrastructureRateLimit` once the store has answered. A time that is past leaves no wait, so the
-- difference may stop at 0.
abbrev pub decide : ℕ → ℕ → Bucket → Decision
decide max now bucket = record {
  outcome = if ltb max bucket.count then err rate_limit_error else ok tt;
  limit = max;
  remaining = max - bucket.count;
  reset = seconds bucket.reset_at;
  retry_after =
      if ltb max bucket.count then some (at_least_one (seconds (bucket.reset_at - now))) else none;
}

-- And when the store has thrown.
abbrev pub decide_without_store : Bool → Result (Unit {0})
decide_without_store fail_closed = if fail_closed then err rate_limit_error else ok tt

-- A request that the limiter sees: no key passes it by.
unfoldable pub infrastructure_rate_limit :
    ℕ → ℕ → Option ℕ → ℕ → Buckets → Result (Unit {0}) × Buckets
unfolding consume_memory
infrastructure_rate_limit window_ms max none now buckets = (ok tt, buckets)
infrastructure_rate_limit window_ms max (some key) now buckets =
    let (bucket, buckets') = consume_memory key window_ms now buckets in
    ((decide max now bucket).outcome, buckets')
