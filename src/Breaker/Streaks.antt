-- ===== src/Breaker/Streaks.antt =====
-- Runs of failures and of successes through infrastructure/circuit_breaker.rs.
use ara_chat_service.Base.{
  ℕ, ltb, ◌+◌, ◌≤◌, true, false, List, [], ◌∷◌, ◌≡◌, ◌≢◌, refl, ◌⊎◌, inl, inr, arith, length,
  if◌then◌else◌, wrapping_add,
}
use ara_chat_service.Breaker.{
  CircuitBreaker, closed, opened, half_open, Outcome, succeeds, fails, times_out, CallResult, ok,
  err, circuit_open, operation_failed, timeout, call, timeout_passed, settle,
}
use ara_chat_service.Breaker.Invariant.{IsValid, call-IsValid}

-- An operation with its end, and the times when the call starts and ends.
pub record Attempt (T E : Type 0) : Type 0 where
  pub start : ℕ
  pub outcome : Outcome T E
  pub end : ℕ

module _ {T E : Type 0} where
  pub call_all : CircuitBreaker → List (Attempt T E) → CircuitBreaker
  call_all b [] = b
  call_all b (a ∷ as') = call_all (call b a.start a.outcome a.end).0 as'

  abbrev pub Fails : Outcome T E → Type 0
  Fails (succeeds v) = ⊥
  Fails _ = Unit {0}

  abbrev pub AllFail : List (Attempt T E) → Type 0
  AllFail [] = Unit {0}
  AllFail (a ∷ as') = Fails a.outcome × AllFail as'

  abbrev pub AllSucceed : List (Attempt T E) → Type 0
  AllSucceed [] = Unit {0}
  AllSucceed (a ∷ as') = ((v : T) × (a.outcome ≡ succeeds v)) × AllSucceed as'

  -- The result of an operation that is run.
  abbrev pub expected : Outcome T E → CallResult T E
  expected (succeeds v) = ok v
  expected (fails e) = err (operation_failed e)
  expected times_out = err timeout

  settle_result : (b : CircuitBreaker) (o : Outcome T E) (end : ℕ) → (settle b o end).1 ≡ expected o
  unfolding settle
  settle_result b (succeeds v) end = refl
  settle_result b (fails e) end = refl
  settle_result b times_out end = refl

  -- A call is refused just when the circuit is open and the reset timeout has not passed, and then
  -- only the calls are counted; otherwise the operation runs, and its end is the result.
  call_result :
      (b : CircuitBreaker) (start : ℕ) (o : Outcome T E) (end : ℕ)
      → ((b.state ≡ opened)
          × (timeout_passed b start ≡ false)
          × (call b start o end
              ≡ (record b { total_calls = wrapping_add 64 b.total_calls 1 }, err circuit_open)))
        ⊎ (((b.state ≢ opened) ⊎ (timeout_passed b start ≡ true))
            × ((call b start o end).1 ≡ expected o))
  unfolding call
  call_result b start o end = ground (arith, settle_result b o end)

  closed_failure :
      (b : CircuitBreaker) (a : Attempt T E)
      → IsValid b
      → b.state ≡ closed
      → Fails a.outcome
      → let b' = (call b a.start a.outcome a.end).0 in
        (b'.failure_count ≡ b.failure_count + 1)
        × (b'.config ≡ b.config)
        × (b'.state
            ≡ (if ltb (b.failure_count + 1) b.config.failure_threshold then closed else opened))
        × (b'.last_failure_time ≡ a.end)
  unfolding call
  closed_failure b a v e f = ground arith

  -- Failures in a row on a closed circuit are counted, and the one with which their number reaches
  -- the threshold opens it.
  failures_open :
      (b : CircuitBreaker) (as' : List (Attempt T E))
      → IsValid b
      → b.state ≡ closed
      → AllFail as'
      → b.failure_count + length as' ≤ b.config.failure_threshold
      → ((call_all b as').failure_count ≡ b.failure_count + length as')
        × ((call_all b as').state ≡ (
            if ltb (b.failure_count + length as') b.config.failure_threshold
            then closed
            else opened))
  unfolding call_all
  failures_open b [] v e fs h = ground (arith, v.failing)
  failures_open b (x ∷ []) v e fs h = ground (arith, closed_failure b x v e fs.0)
  failures_open b (x ∷ y ∷ as') v e fs h =
      let (count, same, state, _) = closed_failure b x v e fs.0 in
      let b' = (call b x.start x.outcome x.end).0 in
      let w = call-IsValid b x.start x.outcome x.end v in
      let ih = failures_open b' (y ∷ as') w (ground arith) fs.1 (ground arith) in ground (arith, ih)

  tested_success :
      (b : CircuitBreaker) (a : Attempt T E) (value : T)
      → IsValid b
      → (b.state ≡ half_open) ⊎ ((b.state ≡ opened) × (timeout_passed b a.start ≡ true))
      → a.outcome ≡ succeeds value
      → let b' = (call b a.start a.outcome a.end).0 in
        (b'.config ≡ b.config)
        × (b'.failure_count ≡ 0)
        × (if ltb (b.success_count + 1) b.config.success_threshold
            then (b'.state ≡ half_open) × (b'.success_count ≡ b.success_count + 1)
            else b'.state ≡ closed)
  unfolding call
  tested_success b a value v e f = ground arith

  -- Successes in a row on a half-open circuit are counted, and the one with which their number
  -- reaches the threshold closes it.
  half_open_successes :
      (b : CircuitBreaker) (as' : List (Attempt T E))
      → IsValid b
      → b.state ≡ half_open
      → AllSucceed as'
      → b.success_count + length as' ≤ b.config.success_threshold
      → (call_all b as').state ≡ (
          if ltb (b.success_count + length as') b.config.success_threshold
          then half_open
          else closed)
  unfolding call_all
  half_open_successes b [] v e ss h = ground (arith, v.testing)
  half_open_successes b (x ∷ []) v e ss h =
      ground (arith, tested_success b x ss.0.0 v (inl e) ss.0.1)
  half_open_successes b (x ∷ y ∷ as') v e ss h =
      let t = tested_success b x ss.0.0 v (inl e) ss.0.1 in
      let b' = (call b x.start x.outcome x.end).0 in
      let w = call-IsValid b x.start x.outcome x.end v in
      ground
        (arith, t, half_open_successes b' (y ∷ as') w (ground (arith, t)) ss.1 (ground (arith, t)))

  -- A circuit that has been open for longer than the reset timeout recovers by successes in a row:
  -- it is half-open after fewer than the threshold, and closed after as many.
  pub successes_close :
      (b : CircuitBreaker) (x : Attempt T E) (as' : List (Attempt T E))
      → IsValid b
      → b.state ≡ opened
      → timeout_passed b x.start ≡ true
      → AllSucceed (x ∷ as')
      → length (x ∷ as') ≤ b.config.success_threshold
      → (call_all b (x ∷ as')).state
        ≡ (if ltb (length (x ∷ as')) b.config.success_threshold then half_open else closed)
  unfolding call_all
  successes_close b x [] v e p ss h =
      ground (arith, tested_success b x ss.0.0 v (inr (e, p)) ss.0.1, v.idle (λ k. cc))
  successes_close b x (y ∷ as') v e p ss h =
      let t = tested_success b x ss.0.0 v (inr (e, p)) ss.0.1 in
      let z = v.idle (λ k. cc) in
      let b' = (call b x.start x.outcome x.end).0 in
      let w = call-IsValid b x.start x.outcome x.end v in
      ground (
        arith,
        t,
        z,
        half_open_successes b' (y ∷ as') w (ground (arith, t, z)) ss.1 (ground (arith, t, z)),
      )

  -- One failure of a half-open circuit opens it again, and the wait for the next test starts anew.
  failure_reopens :
      (b : CircuitBreaker) (a : Attempt T E)
      → b.state ≡ half_open
      → Fails a.outcome
      → let b' = (call b a.start a.outcome a.end).0 in
        (b'.state ≡ opened) × (b'.last_failure_time ≡ a.end) × (b'.success_count ≡ 0)
  unfolding call
  failure_reopens b a e f = ground arith
