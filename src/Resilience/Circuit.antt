-- ===== src/Resilience/Circuit.antt =====
-- When a provider is not called at all.
use pactagent.Prelude.{
  ℕ, zero, suc, ◌+◌, ◌≤◌, ◌<◌, ◌≡◌, refl, sym, ap, ◌∙◌, Bool, true, false, not, ◌||◌, ◌==◌, nat_eq,
  List, [], ◌∷◌, All, ltb, leb, arith, if◌then◌else◌,
}
use pactagent.Resilience.{
  Cause, ProviderError, Outcome, done, threw, State, Options, Called, after_failure, after_attempt,
  attempts_from, execute_provider_request, classify_provider_failure,
}

module _ {A : Type 0} (options : Options) (run : ℕ → Outcome A Cause) (failed_at : ℕ) where
  -- An attempt that fails for good has been counted, and one that is tried again is counted later.
  chosen_failed :
      (final : Bool) (first rest : Called A) (counted : State)
      → (final ≡ true → first.state ≡ counted)
      → (final ≡ false → rest.state ≡ counted)
      → (if final then first else record rest { runs = suc rest.runs }).state ≡ counted
  chosen_failed true first rest counted h k = h refl
  chosen_failed false first rest counted h k = k refl

  retried_failed :
      (final : Bool) (first rest : Called A) (e : ProviderError)
      → final ≡ false
      → (if final then first else record rest { runs = suc rest.runs }).outcome ≡ threw e
      → rest.outcome ≡ threw e
  retried_failed true first rest e f h = absurd (cc)
  retried_failed false first rest e f h = h

  last_off : (a b : Bool) → (a || b) ≡ false → b ≡ false
  last_off true b h = absurd (cc)
  last_off false b h = h

  attempt_failed :
      (o : Outcome A Cause) (last : Bool) (state : State) (rest : Called A) (e : ProviderError)
      → (rest.outcome ≡ threw e → last ≡ false → rest.state ≡ after_failure options failed_at state)
      → (after_attempt options run failed_at o last state rest).outcome ≡ threw e
      → (after_attempt options run failed_at o last state rest).state
        ≡ after_failure options failed_at state
  attempt_failed (done a) last state rest e h k = absurd (cc)
  attempt_failed (threw cause) last state rest e h k =
      chosen_failed (not (classify_provider_failure cause).retryable || last) _ rest
        (after_failure options failed_at state) (λ t. refl)
        (λ f. h (retried_failed _ _ rest e f k) (last_off _ last f))

  attempts_failed :
      (left attempt : ℕ) (state : State) (e : ProviderError)
      → (attempts_from options run failed_at (suc left) attempt state).outcome ≡ threw e
      → (attempts_from options run failed_at (suc left) attempt state).state
        ≡ after_failure options failed_at state
  unfolding attempts_from
  attempts_failed zero attempt state e h =
      attempt_failed (run attempt) true state
        (attempts_from options run failed_at 0 (suc attempt) state) e (λ r l. absurd (cc)) h
  attempts_failed (suc left) attempt state e h =
      attempt_failed (run attempt) (suc left == 0) state
        (attempts_from options run failed_at (suc left) (suc attempt) state) e
        (λ r l. attempts_failed left (suc attempt) state e r) h

counted_call :
    {A : Type 0} (options : Options) (run : ℕ → Outcome A Cause) (failed_at now more : ℕ)
    (state : State) (e : ProviderError)
    → options.max_attempts ≡ suc more
    → state.open_until ≤ now
    → (execute_provider_request options run failed_at now state).outcome ≡ threw e
    → (execute_provider_request options run failed_at now state).state
      ≡ after_failure options failed_at (record state { open_until = 0 })
unfolding execute_provider_request
counted_call options run failed_at now more state e some_attempts closed h =
    let live : ltb now state.open_until ≡ false = ground arith in
    let begun = record state { open_until = 0 } in
    let called : execute_provider_request options run failed_at now state
        ≡ attempts_from options run failed_at (suc more) 1 begun =
      rw (live, some_attempts) refl in
    let failed = ap (λ (c : Called _). c.outcome) (sym called) ∙ h in
    ap (λ (c : Called _). c.state) called
    ∙ attempts_failed options run failed_at more 1 begun e failed

-- A call that is made later: what its runs would give, its time, and when its last attempt fails.
pub record Later (A : Type 0) : Type 0 where
  pub run : ℕ → Outcome A Cause
  pub time : ℕ
  pub failed_at : ℕ

-- The runs of a sequence of calls, each of which finds the state that the one before has left.
unfoldable pub total_runs : {A : Type 0} → Options → List (Later A) → State → ℕ
total_runs options [] state = 0
total_runs options (c ∷ cs) state =
    let called = execute_provider_request options c.run c.failed_at c.time state in
    called.runs + total_runs options cs called.state

-- An open circuit refuses, and stays as it is.
refused :
    {A : Type 0} (options : Options) (run : ℕ → Outcome A Cause) (failed_at now : ℕ) (state : State)
    → now < state.open_until
    → ((execute_provider_request options run failed_at now state).runs ≡ 0)
      × ((execute_provider_request options run failed_at now state).state ≡ state)
unfolding execute_provider_request
refused options run failed_at now state h =
    let shut : ltb now state.open_until ≡ true = ground arith in rw shut (refl, refl)

each_refused :
    {A : Type 0} (options : Options) (calls : List (Later A)) (state : State)
    → All (λ (c : Later A). c.time < state.open_until) calls
    → total_runs options calls state ≡ 0
unfolding total_runs
each_refused options [] state h = refl
each_refused options (c ∷ cs) state h =
    let (none_run, kept) = refused options c.run c.failed_at c.time state h.0 in
    let rest = each_refused options cs state h.1 in rw (none_run, kept) (omega (arith, rest))

-- A call that fails after as many failed calls before it as the threshold allows opens the circuit:
-- of any sequence of calls after it that are made before the reset time has passed, none runs. The
-- call itself was made with the circuit closed and was allowed an attempt at least.
pub circuit_opens :
    {A : Type 0} (options : Options) (run : ℕ → Outcome A Cause) (failed_at now more : ℕ)
    (calls : List (Later A)) (state : State) (e : ProviderError)
    → options.max_attempts ≡ suc more
    → state.open_until ≤ now
    → options.failure_threshold ≤ suc state.failures
    → (execute_provider_request options run failed_at now state).outcome ≡ threw e
    → All (λ (c : Later A). c.time < failed_at + options.circuit_reset_ms) calls
    → total_runs options calls (execute_provider_request options run failed_at now state).state ≡ 0
circuit_opens options run failed_at now more calls state e some_attempts closed reached h soon =
    let counted = counted_call options run failed_at now more state e some_attempts closed h in
    let tripped : leb options.failure_threshold (suc state.failures) ≡ true = ground arith in
    rw counted (
      each_refused options calls (after_failure options failed_at (record state { open_until = 0 }))
        (rw tripped soon))
