-- ===== src/Resilience.antt =====
-- server/src/common/resilience/provider.ts: a request to a provider with its retries, behind a
-- circuit breaker. The concurrency limit, the waits between the attempts, the metrics and the log are
-- left out: one request runs at a time. The run itself is a parameter.
pub mod Circuit
use pactagent.Prelude.{
  ℕ, zero, suc, ◌+◌, Bool, true, false, not, ◌||◌, ◌==◌, nat_eq, ltb, leb, String, Option, none,
  some, List, [], ◌∷◌, if◌then◌else◌,
}
use text.Mathlib.Text.{◌==◌ as str_eq}

-- What a run throws: an error of this module's, a timeout or an abort, a `TypeError`, or an error
-- with the runtime's code.
pub data Cause : Type 0 where
  provider_error : Bool → Option ℕ → Cause
  timed_out type_error : Cause
  with_code : String → Cause

-- `ProviderError`, by what callers read of it.
pub record ProviderError : Type 0 where
  pub retryable : Bool
  pub status : Option ℕ

pub data Outcome (A E : Type 0) : Type 0 where
  done : A → Outcome A E
  threw : E → Outcome A E

-- `State`
pub record State : Type 0 where
  pub failures : ℕ
  pub open_until : ℕ

abbrev pub initial : State
initial = record { failures = 0; open_until = 0 }

-- `retryableStatus`
abbrev pub retryable_status : ℕ → Bool
retryable_status status = status == 408 || status == 425 || status == 429 || leb 500 status

abbrev is_listed : String → List String → Bool
is_listed code [] = false
is_listed code (x ∷ xs) = elim (str_eq x code) [ true ↦ true | false ↦ is_listed code xs ]

abbrev retryable_codes : List String
retryable_codes =
    "ECONNRESET" ∷ "ECONNREFUSED" ∷ "EHOSTUNREACH" ∷ "ENETUNREACH" ∷ "ETIMEDOUT" ∷ "EAI_AGAIN" ∷ []

-- `classifyProviderFailure`
abbrev pub classify_provider_failure : Cause → ProviderError
classify_provider_failure (provider_error retryable status) = record {
  retryable = retryable;
  status = status;
}
classify_provider_failure timed_out = record { retryable = true; status = none }
classify_provider_failure type_error = record { retryable = true; status = none }
classify_provider_failure (with_code code) = record {
  retryable = is_listed code retryable_codes;
  status = none;
}

-- The options with their defaults: `maxAttempts ?? 3`, `failureThreshold ?? 5` and
-- `circuitResetMs ?? 30_000`.
pub record Options : Type 0 where
  pub max_attempts : ℕ
  pub failure_threshold : ℕ
  pub circuit_reset_ms : ℕ

abbrev pub default_options : Options
default_options = record { max_attempts = 3; failure_threshold = 5; circuit_reset_ms = 30000 }

-- What a call gives: its outcome, the state after it, and how many runs it has made.
pub record Called (A : Type 0) : Type 0 where
  pub outcome : Outcome A ProviderError
  pub state : State
  pub runs : ℕ

abbrev pub after_failure : Options → ℕ → State → State
after_failure options failed_at state = record {
  failures = suc state.failures;
  open_until =
      if leb options.failure_threshold (suc state.failures)
      then failed_at + options.circuit_reset_ms
      else state.open_until;
}

module _ {A : Type 0} (options : Options) (run : ℕ → Outcome A Cause) (failed_at : ℕ) where
  abbrev one_more : Called A → Called A
  one_more called = record called { runs = suc called.runs }

  -- What follows an attempt; `rest` is the loop's next rounds.
  abbrev pub after_attempt : Outcome A Cause → Bool → State → Called A → Called A
  after_attempt (done a) last state rest = record {
    outcome = done a;
    state = record state { failures = 0 };
    runs = 1;
  }
  after_attempt (threw cause) last state rest =
      if not (classify_provider_failure cause).retryable || last
      then record {
        outcome = threw (classify_provider_failure cause);
        state = after_failure options failed_at state;
        runs = 1;
      }
      else one_more rest

  -- The loop, with the rounds that are left; the last round knows that it is.
  unfoldable pub attempts_from : ℕ → ℕ → State → Called A
  attempts_from zero attempt state = record {
    outcome = threw (record { retryable = true; status = none });
    state = state;
    runs = 0;
  }
  attempts_from (suc left) attempt state =
      after_attempt (run attempt) (left == 0) state (attempts_from left (suc attempt) state)

  -- `executeProviderRequest`, called at `now`; `failed_at` is the clock when the last attempt fails.
  unfoldable pub execute_provider_request : ℕ → State → Called A
  unfolding attempts_from
  execute_provider_request now state =
      if ltb now state.open_until
      then record {
        outcome = threw (record { retryable = true; status = none });
        state = state;
        runs = 0;
      }
      else attempts_from options.max_attempts 1 (record state { open_until = 0 })
