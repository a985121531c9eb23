-- ===== src/Breaker/Examples.antt =====
-- Runs of infrastructure/circuit_breaker.rs with the default configuration.
use ara_chat_service.Base.{ℕ, true, List, [], ◌∷◌, ◌≡◌, refl, arith}
use ara_chat_service.Breaker.{
  CircuitBreaker, closed, opened, half_open, Outcome, succeeds, fails, times_out, new, is_available,
  force_open, default_config,
}
use ara_chat_service.Breaker.Invariant.{
  IsValid, IsSound, Use, calls, checks, use_all, use_all-new-IsValid, new-IsValid,
}
use ara_chat_service.Breaker.Streaks.{Attempt, call_all, successes_close}
use ara_chat_service.Breaker.Forced.{force_open_lapses}

default_config-IsSound : IsSound default_config
default_config-IsSound = record {
  failures = omega arith;
  failures_u32 = omega arith;
  successes = omega arith;
  successes_u32 = omega arith;
}

abbrev fresh : CircuitBreaker
fresh = new default_config 0

abbrev failure : Attempt ℕ ℕ
failure = record { start = 100; outcome = fails 1; end = 120 }

abbrev success : Attempt ℕ ℕ
success = record { start = 40000; outcome = succeeds 6; end = 40010 }

abbrev timed_out : Outcome ℕ ℕ
timed_out = times_out

abbrev done : Outcome ℕ ℕ
done = succeeds 6

abbrev uses : List (Use ℕ ℕ)
uses = calls 100 (fails 1) 120 ∷ checks 130 ∷ []

use_all-new-IsValid_example : IsValid (use_all fresh uses)
use_all-new-IsValid_example = use_all-new-IsValid default_config 0 uses default_config-IsSound

fresh-IsValid : IsValid fresh
fresh-IsValid = new-IsValid default_config 0 default_config-IsSound

-- A circuit that has failed five times.
abbrev broken : CircuitBreaker
broken = record fresh { state = opened; last_failure_time = 120; gauge = opened }

broken-IsValid : IsValid broken
unfolding new
broken-IsValid = record {
  sound = default_config-IsSound;
  failing = λ e. cc;
  idle = λ _. refl;
  testing = λ e. cc;
  exported = refl;
}

successes_close_example : (call_all broken (success ∷ success ∷ success ∷ [])).state ≡ closed
unfolding new
successes_close_example =
    successes_close broken success (success ∷ success ∷ []) broken-IsValid refl refl
      ((6, refl), ((6, refl), ((6, refl), tt))) (omega arith)

force_open_lapses_example :
    ((force_open fresh).state ≡ opened)
    × ((is_available (force_open fresh) 1700000000000).1 ≡ true)
    × ((is_available (force_open fresh) 1700000000000).0.state ≡ half_open)
unfolding new
force_open_lapses_example =
    force_open_lapses fresh 1700000000000 (λ e. cc) (omega arith) (omega arith) (omega arith)
