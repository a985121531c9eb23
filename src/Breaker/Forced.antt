-- ===== src/Breaker/Forced.antt =====
-- What `force_open` of infrastructure/circuit_breaker.rs leaves to the next check.
use ara_chat_service.Base.{ℕ, ◌<◌, ◌+◌, ◌^◌, true, ◌≡◌, ◌≢◌, arith}
use ara_chat_service.Breaker.{CircuitBreaker, opened, half_open, is_available, force_open}

-- `force_open` opens the circuit but keeps the time of the last failure. So if that time is further
-- back than the reset timeout, the very next check lets calls through again.
pub force_open_lapses :
    (b : CircuitBreaker) (now : ℕ)
    → b.state ≢ opened
    → b.config.reset_timeout < 2 ^ 64
    → now < 2 ^ 64
    → b.last_failure_time + b.config.reset_timeout < now
    → ((force_open b).state ≡ opened)
      × ((is_available (force_open b) now).1 ≡ true)
      × ((is_available (force_open b) now).0.state ≡ half_open)
unfolding force_open is_available
force_open_lapses b now s r n h = ground arith
