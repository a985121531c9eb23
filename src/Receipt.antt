-- ===== src/Receipt.antt =====
-- The counts of unread messages: infrastructure/redis/cache.rs (its part on unread counts) and
-- domain/receipt/unread.rs. The prefix of the keys is left out.
pub mod Sums
pub mod Steps
pub mod Totals
pub mod Examples
use ara_chat_service.Base.{
  ℕ, ◌*◌, Bool, true, false, List, [], ◌∷◌, Option, none, some, ◌&&◌, ◌==◌, ltb, if◌then◌else◌,
}
use ara_chat_service.Base.Results.{Result, ok, err}
use ara_chat_service.Base.Stateful.{Stateful, pure, continue, ◌>>=◌, ◌>>◌}
use ara_chat_service.Redis.{Command, run, run_or}
use ara_chat_service.Redis.Tallies.{RedisTallies, TallyOp, incr, decr, del, expire}

-- `unread_key` and `total_unread_key`
pub data UnreadKey : Type 0 where
  unread : (user_id conversation_id : ℕ) → UnreadKey
  total : (user_id : ℕ) → UnreadKey

abbrev pub same_key : UnreadKey → UnreadKey → Bool
same_key (unread u c) (unread v d) = u == v && c == d
same_key (unread u c) (total v) = false
same_key (total u) (unread v d) = false
same_key (total u) (total v) = u == v

-- The texts of the errors are left out.
pub data CacheError : Type 0 where
  redis_error : CacheError

pub data UnreadError : Type 0 where
  unread_redis : UnreadError

abbrev pub days_30 : ℕ
days_30 = 30 * 24 * 60 * 60

abbrev pub first_answer : List ℕ → ℕ
first_answer [] = 0
first_answer (n ∷ ns) = n

module _ {S : Type 0} (redis : RedisTallies S UnreadKey) where
  unfoldable pub increment_unread : ℕ → ℕ → Stateful S CacheError ℕ
  increment_unread user_id conversation_id = do
    run redis_error redis.get_connection
    counts ←
        run redis_error
          (redis.pipe (incr (unread user_id conversation_id) ∷ incr (total user_id) ∷ []))
    expired ← run redis_error (
        redis.pipe
          (expire (unread user_id conversation_id) days_30 ∷ expire (total user_id) days_30 ∷ []))
    pure (first_answer counts)

  -- What `reset_unread` does with the count that it has read.
  unfoldable pub reset_counted : ℕ → ℕ → ℕ → Stateful S CacheError ℕ
  reset_counted user_id conversation_id count =
      if ltb 0 count
      then (do
        gone ←
            run redis_error
              (redis.pipe (del (unread user_id conversation_id) ∷ decr (total user_id) count ∷ []))
        pure count)
      else pure count

  unfoldable pub reset_unread : ℕ → ℕ → Stateful S CacheError ℕ
  unfolding reset_counted
  reset_unread user_id conversation_id = do
    run redis_error redis.get_connection
    count ← run_or 0 (redis.get (unread user_id conversation_id))
    reset_counted user_id conversation_id count

  unfoldable pub get_unread : ℕ → ℕ → Stateful S CacheError ℕ
  get_unread user_id conversation_id = do
    run redis_error redis.get_connection
    run_or 0 (redis.get (unread user_id conversation_id))

  unfoldable pub get_total_unread : ℕ → Stateful S CacheError ℕ
  get_total_unread user_id = do
    run redis_error redis.get_connection
    run_or 0 (redis.get (total user_id))

-- `.map_err(|e| UnreadError::Redis(e.to_string()))`
abbrev pub relabel : {A : Type 0} → Result CacheError A → Result UnreadError A
relabel (ok a) = ok a
relabel (err e) = err unread_redis

abbrev pub as_unread : {S A : Type 0} → Stateful S CacheError A → Stateful S UnreadError A
as_unread m s = (relabel (m s).0, (m s).1)

pub record UnreadCounter (S : Type 0) : Type 0 where
  pub cache : Option (RedisTallies S UnreadKey)

module _ {S : Type 0} (counter : UnreadCounter S) where
  unfoldable pub increment : ℕ → ℕ → Stateful S UnreadError ℕ
  unfolding increment_unread
  increment user_id conversation_id = elim counter.cache [
    | some cache ↦ as_unread (increment_unread cache user_id conversation_id)
    | none ↦ pure 0
  ]

  unfoldable pub reset : ℕ → ℕ → Stateful S UnreadError ℕ
  unfolding reset_unread
  reset user_id conversation_id = elim counter.cache [
    | some cache ↦ as_unread (reset_unread cache user_id conversation_id)
    | none ↦ pure 0
  ]

  unfoldable pub get_count : ℕ → ℕ → Stateful S UnreadError ℕ
  unfolding get_unread
  get_count user_id conversation_id = elim counter.cache [
    | some cache ↦ as_unread (get_unread cache user_id conversation_id)
    | none ↦ pure 0
  ]

  unfoldable pub get_total : ℕ → Stateful S UnreadError ℕ
  unfolding get_total_unread
  get_total user_id = elim counter.cache [
    | some cache ↦ as_unread (get_total_unread cache user_id)
    | none ↦ pure 0
  ]
