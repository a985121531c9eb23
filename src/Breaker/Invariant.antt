-- ===== src/Breaker/Invariant.antt =====
-- What the counters of infrastructure/circuit_breaker.rs say in each state.
use ara_chat_service.Base.{
  ℕ, ◌<◌, ◌^◌, List, [], ◌∷◌, inl, inr, Bool-cases, wrapping_add, ◌≡◌, ◌≢◌, refl, arith,
}
use ara_chat_service.Breaker.{
  CircuitBreaker, CircuitBreakerConfig, closed, half_open, Outcome, succeeds, fails, times_out, new,
  is_available, record_success, record_failure, settle, call, reset, force_open,
}

-- A configuration with thresholds that are not 0 and fit a `u32`.
pub record IsSound (c : CircuitBreakerConfig) : Type 0 where
  pub failures : 0 < c.failure_threshold
  pub failures_u32 : c.failure_threshold < 2 ^ 32
  pub successes : 0 < c.success_threshold
  pub successes_u32 : c.success_threshold < 2 ^ 32

-- The failures counted stay under the threshold while the circuit is closed, the successes count
-- only while it is tested, and the exported state is the state.
pub record IsValid (b : CircuitBreaker) : Type 0 where
  pub sound : IsSound b.config
  pub failing : b.state ≡ closed → b.failure_count < b.config.failure_threshold
  pub idle : b.state ≢ half_open → b.success_count ≡ 0
  pub testing :
      b.state ≡ half_open → (b.failure_count ≡ 0) × (b.success_count < b.config.success_threshold)
  pub exported : b.gauge ≡ b.state

pub new-IsValid : (c : CircuitBreakerConfig) (now : ℕ) → IsSound c → IsValid (new c now)
unfolding new
new-IsValid c now s = record {
  sound = s;
  failing = λ _. s.failures;
  idle = λ _. refl;
  testing = λ e. cc;
  exported = refl;
}

record_success-IsValid : (b : CircuitBreaker) → IsValid b → IsValid (record_success b)
unfolding record_success
record_success-IsValid b v = ground arith

record_failure-IsValid : (b : CircuitBreaker) (now : ℕ) → IsValid b → IsValid (record_failure b now)
unfolding record_failure
record_failure-IsValid b now v = ground arith

is_available-IsValid : (b : CircuitBreaker) (now : ℕ) → IsValid b → IsValid (is_available b now).0
unfolding is_available
is_available-IsValid b now v = ground arith

total_calls-IsValid :
    (b : CircuitBreaker) (n : ℕ) → IsValid b → IsValid (record b { total_calls = n })
total_calls-IsValid b n v = record {
  sound = v.sound;
  failing = v.failing;
  idle = v.idle;
  testing = v.testing;
  exported = v.exported;
}

reset-IsValid : (b : CircuitBreaker) → IsValid b → IsValid (reset b)
unfolding reset
reset-IsValid b v = ground arith

force_open-IsValid : (b : CircuitBreaker) → IsValid b → IsValid (force_open b)
unfolding force_open
force_open-IsValid b v = ground arith

-- What the owner of a breaker does with it.
pub data Use (T E : Type 0) : Type 0 where
  calls : ℕ → Outcome T E → ℕ → Use T E
  checks : ℕ → Use T E
  resets forces_open : Use T E

module _ {T E : Type 0} where
  pub settle-IsValid :
      (b : CircuitBreaker) (o : Outcome T E) (now : ℕ) → IsValid b → IsValid (settle b o now).0
  unfolding settle
  settle-IsValid b (succeeds value) now v = record_success-IsValid b v
  settle-IsValid b (fails e) now v = record_failure-IsValid b now v
  settle-IsValid b times_out now v = record_failure-IsValid b now v

  pub call-IsValid :
      (b : CircuitBreaker) (start : ℕ) (o : Outcome T E) (end : ℕ)
      → IsValid b
      → IsValid (call b start o end).0
  unfolding call
  call-IsValid b start o end v =
      let b' = record b { total_calls = wrapping_add 64 b.total_calls 1 } in
      let w = is_available-IsValid b' start (total_calls-IsValid b _ v) in
      elim (Bool-cases (is_available b' start).1) [
        | inl e ↦ ground (arith, e, w, settle-IsValid (is_available b' start).0 o end w)
        | inr e ↦ ground (arith, e, w)
      ]

  pub use_breaker : CircuitBreaker → Use T E → CircuitBreaker
  use_breaker b (calls start o end) = (call b start o end).0
  use_breaker b (checks now) = (is_available b now).0
  use_breaker b resets = reset b
  use_breaker b forces_open = force_open b

  pub use_all : CircuitBreaker → List (Use T E) → CircuitBreaker
  use_all b [] = b
  use_all b (u ∷ us) = use_all (use_breaker b u) us

  use_breaker-IsValid : (b : CircuitBreaker) (u : Use T E) → IsValid b → IsValid (use_breaker b u)
  unfolding use_breaker
  use_breaker-IsValid b (calls start o end) v = call-IsValid b start o end v
  use_breaker-IsValid b (checks now) v = is_available-IsValid b now v
  use_breaker-IsValid b resets v = reset-IsValid b v
  use_breaker-IsValid b forces_open v = force_open-IsValid b v

  use_all-IsValid : (b : CircuitBreaker) (us : List (Use T E)) → IsValid b → IsValid (use_all b us)
  unfolding use_all
  use_all-IsValid b [] v = v
  use_all-IsValid b (u ∷ us) v = use_all-IsValid (use_breaker b u) us (use_breaker-IsValid b u v)

  -- After any use of a new breaker with sound thresholds: the failures counted stay under the
  -- threshold while it is closed, successes are counted only while it is half-open and stay under
  -- theirs, and the exported state is the state.
  pub use_all-new-IsValid :
      (c : CircuitBreakerConfig) (now : ℕ) (us : List (Use T E))
      → IsSound c
      → IsValid (use_all (new c now) us)
  use_all-new-IsValid c now us s = use_all-IsValid (new c now) us (new-IsValid c now s)
