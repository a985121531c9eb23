-- ===== src/RateLimit.antt =====
-- infrastructure/ratelimit/mod.rs: a counter in Redis for each user, which lapses with the window.
-- The key of a user's counter is the user.
pub mod Checks
pub mod Windows
pub mod Examples
use ara_chat_service.Base.{
  ℕ, zero, suc, ◌-◌, ◌%◌, ◌^◌, Bool, true, false, Option, none, some, ltb, ◌==◌, if◌then◌else◌, not,
}
use ara_chat_service.Base.Results.{Result, ok, err}
use ara_chat_service.Base.Stateful.{Stateful, pure, continue, ◌>>=◌, ◌>>◌}
use ara_chat_service.Base.Offsets.{ℤ, pos, negsuc, as_signed}
use ara_chat_service.Redis.{run, run_or}
use ara_chat_service.Redis.Counters.{RedisCounters}

pub record RateLimiter (S : Type 0) : Type 0 where
  pub redis : Option (RedisCounters S)
  pub max_messages : ℕ
  pub window_seconds : ℕ

unfoldable pub new : {S : Type 0} → Option (RedisCounters S) → RateLimiter S
new redis = record { redis = redis; max_messages = 60; window_seconds = 60 }

unfoldable pub with_limits : {S : Type 0} → Option (RedisCounters S) → ℕ → ℕ → RateLimiter S
with_limits redis max_messages window_seconds = record {
  redis = redis;
  max_messages = max_messages;
  window_seconds = window_seconds;
}

pub record RateLimitResult : Type 0 where
  pub is_allowed : Bool
  pub remaining : ℕ
  -- in seconds
  pub retry_after : Option ℕ

abbrev pub allowed : ℕ → RateLimitResult
allowed remaining = record { is_allowed = true; remaining = remaining; retry_after = none }

abbrev pub limited : ℕ → ℕ → RateLimitResult
limited remaining retry_after = record {
  is_allowed = false;
  remaining = remaining;
  retry_after = some retry_after;
}

-- The text of the error is left out.
pub data RateLimitError : Type 0 where
  redis_error : RateLimitError

-- The answer of INCR, read as a `u32`: the client cuts an integer with `as u32`.
abbrev pub as_u32 : ℕ → ℕ
as_u32 n = n % 2 ^ 32

-- `ttl.max(1) as u64`
abbrev pub at_least_one : ℤ → ℕ
at_least_one (pos zero) = 1
at_least_one (pos (suc n)) = suc n
at_least_one (negsuc n) = 1

module _ {S : Type 0} (limiter : RateLimiter S) where
  abbrev pub start_window : RedisCounters S → ℕ → ℕ → Stateful S RateLimitError (Unit {0})
  start_window redis user_id count =
      if count == 1
      then run redis_error (redis.expire user_id (as_signed limiter.window_seconds))
      else pure tt

  abbrev pub verdict : ℕ → ℤ → RateLimitResult
  verdict count ttl =
      if ltb limiter.max_messages count
      then limited 0 (at_least_one ttl)
      else allowed (limiter.max_messages - count)

  unfoldable pub check_user_rate : ℕ → Stateful S RateLimitError RateLimitResult
  check_user_rate user_id = elim limiter.redis [
    | none ↦ pure (allowed limiter.max_messages)
    | some redis ↦ do
      run redis_error redis.get_connection
      answer ← run redis_error (redis.incr user_id)
      let count = as_u32 answer
      start_window redis user_id count
      ttl ← run redis_error (redis.ttl user_id)
      pure (verdict count ttl)
  ]

  unfoldable pub check_conversation_rate : ℕ → ℕ → Stateful S RateLimitError RateLimitResult
  unfolding check_user_rate
  check_conversation_rate user_id conversation_id = do
    user_result ← check_user_rate user_id
    if not user_result.is_allowed then pure user_result else pure user_result

  unfoldable pub record_message : ℕ → ℕ → Stateful S RateLimitError (Unit {0})
  unfolding check_user_rate
  record_message user_id conversation_id = do result ← check_user_rate user_id; pure tt

  unfoldable pub get_usage : ℕ → Stateful S RateLimitError ℕ
  get_usage user_id = elim limiter.redis [
    | none ↦ pure 0
    | some redis ↦ do run redis_error redis.get_connection; run_or 0 (redis.get user_id)
  ]

  unfoldable pub reset_user : ℕ → Stateful S RateLimitError (Unit {0})
  reset_user user_id = elim limiter.redis [
    | none ↦ pure tt
    | some redis ↦ do run redis_error redis.get_connection; run redis_error (redis.del user_id)
  ]
