-- ===== src/Breaker.antt =====
-- infrastructure/circuit_breaker.rs: calls of an external service behind a breaker. Times are in
-- milliseconds and arguments; integer operations wrap, as in a release build. The future that a call
-- runs is an argument too, by its outcome.
pub mod Invariant
pub mod Streaks
pub mod Forced
mod Examples
use Prim.Native.String.{String}
use ara_chat_service.Base.{
  ℕ, ◌+◌, ◌%◌, ◌^◌, Bool, true, false, ltb, leb, if◌then◌else◌, wrapping_add, wrapping_sub,
}

-- Durations are in milliseconds.
pub record CircuitBreakerConfig : Type 0 where
  pub name : String
  pub failure_threshold : ℕ
  pub success_threshold : ℕ
  pub reset_timeout : ℕ
  pub call_timeout : ℕ
  pub window_size : ℕ

abbrev pub default_config : CircuitBreakerConfig
default_config = record {
  name = "default";
  failure_threshold = 5;
  success_threshold = 3;
  reset_timeout = 30000;
  call_timeout = 5000;
  window_size = 60000;
}

pub data State : Type 0 where
  closed opened half_open : State

-- `gauge` and `trips` are what is exported under the breaker's name: the state that was last set,
-- and `CIRCUIT_BREAKER_TRIPS`.
pub record CircuitBreaker : Type 0 where
  pub config : CircuitBreakerConfig
  pub state : State
  pub failure_count : ℕ
  pub success_count : ℕ
  pub last_failure_time : ℕ
  pub last_state_change : ℕ
  pub total_calls : ℕ
  pub total_failures : ℕ
  pub gauge : State
  pub trips : ℕ

pub data CircuitBreakerError (E : Type 0) : Type 0 where
  circuit_open timeout : CircuitBreakerError E
  operation_failed : E → CircuitBreakerError E

-- What becomes of the operation under `tokio::time::timeout`.
pub data Outcome (T E : Type 0) : Type 0 where
  succeeds : T → Outcome T E
  fails : E → Outcome T E
  times_out : Outcome T E

pub data CallResult (T E : Type 0) : Type 0 where
  ok : T → CallResult T E
  err : CircuitBreakerError E → CallResult T E

unfoldable pub new : CircuitBreakerConfig → ℕ → CircuitBreaker
new config now = record {
  config = config;
  state = closed;
  failure_count = 0;
  success_count = 0;
  last_failure_time = 0;
  last_state_change = now;
  total_calls = 0;
  total_failures = 0;
  gauge = closed;
  trips = 0;
}

unfoldable pub transition_to_closed : CircuitBreaker → CircuitBreaker
transition_to_closed b = elim b.state [
  | closed ↦ b
  | _ ↦ record b { state = closed; failure_count = 0; success_count = 0; gauge = closed }
]

unfoldable pub transition_to_open : CircuitBreaker → CircuitBreaker
transition_to_open b = elim b.state [
  | opened ↦ b
  | _ ↦ record b {
    state = opened;
    success_count = 0;
    gauge = opened;
    trips = wrapping_add 64 b.trips 1;
  }
]

unfoldable pub transition_to_half_open : CircuitBreaker → CircuitBreaker
transition_to_half_open b = elim b.state [
  | opened ↦ record b { state = half_open; success_count = 0; failure_count = 0; gauge = half_open }
  | _ ↦ b
]

-- `now - last_failure > reset_timeout`, on `u64`
abbrev pub timeout_passed : CircuitBreaker → ℕ → Bool
timeout_passed b now =
    ltb (b.config.reset_timeout % 2 ^ 64) (wrapping_sub 64 now b.last_failure_time)

unfoldable pub is_available : CircuitBreaker → ℕ → CircuitBreaker × Bool
unfolding transition_to_half_open
is_available b now = elim b.state [
  | closed ↦ (b, true)
  | half_open ↦ (b, true)
  | opened ↦ if timeout_passed b now then (transition_to_half_open b, true) else (b, false)
]

unfoldable pub record_success : CircuitBreaker → CircuitBreaker
unfolding transition_to_closed
record_success b = elim b.state [
  | half_open ↦
      let successes = wrapping_add 32 b.success_count 1 in
      let b' = record b { success_count = successes } in
      if leb b.config.success_threshold successes then transition_to_closed b' else b'
  | closed ↦ record b { failure_count = 0 }
  | opened ↦ b
]

unfoldable pub record_failure : CircuitBreaker → ℕ → CircuitBreaker
unfolding transition_to_open
record_failure b now =
    let b' = record b {
      total_failures = wrapping_add 64 b.total_failures 1;
      last_failure_time = now;
    } in
    elim b.state [
      | closed ↦
          let failures = wrapping_add 32 b.failure_count 1 in
          let b'' = record b' { failure_count = failures } in
          if leb b.config.failure_threshold failures then transition_to_open b'' else b''
      | half_open ↦ transition_to_open b'
      | opened ↦ b'
    ]

module _ {T E : Type 0} where
  -- The end of `call`, at the time when the operation ended.
  unfoldable pub settle : CircuitBreaker → Outcome T E → ℕ → CircuitBreaker × CallResult T E
  unfolding record_success record_failure
  settle b (succeeds value) now = (record_success b, ok value)
  settle b (fails e) now = (record_failure b now, err (operation_failed e))
  settle b times_out now = (record_failure b now, err timeout)

  -- `call` at the time `start`, with an operation that would end at `end`.
  unfoldable pub call : CircuitBreaker → ℕ → Outcome T E → ℕ → CircuitBreaker × CallResult T E
  unfolding is_available settle
  call b start outcome end =
      let (b', available) =
        is_available (record b { total_calls = wrapping_add 64 b.total_calls 1 }) start in
      if available then settle b' outcome end else (b', err circuit_open)

  unfoldable pub call_with_fallback : CircuitBreaker → ℕ → Outcome T E → ℕ → T → CircuitBreaker × T
  call_with_fallback b start outcome end fallback =
      let (b', result) = call b start outcome end in
      (b', elim result [ ok value ↦ value | err e ↦ fallback ])

unfoldable pub reset : CircuitBreaker → CircuitBreaker
unfolding transition_to_closed
reset b = transition_to_closed b

unfoldable pub force_open : CircuitBreaker → CircuitBreaker
unfolding transition_to_open
force_open b = transition_to_open (record b { failure_count = b.config.failure_threshold })
