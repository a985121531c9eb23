-- ===== src/RateLimit/Examples.antt =====
-- A Redis that keeps its counters in a function, and a limit of two messages.
use ara_chat_service.Base.{
  ℕ, zero, suc, ◌+◌, ◌≡◌, refl, true, false, List, [], ◌∷◌, Option, none, some, ◌==◌, All,
  if◌then◌else◌, arith,
}
use ara_chat_service.Base.Results.{ok}
use ara_chat_service.Base.Offsets.{ℤ, pos, negsuc, IsPositive}
use ara_chat_service.Redis.Counters.{RedisCounters, Counter, Documented, IsUp, incremented, lapsing}
use ara_chat_service.RateLimit.{RateLimitResult, check_user_rate, allowed, limited}
use ara_chat_service.RateLimit.Checks.{on_redis}
use ara_chat_service.RateLimit.Windows.{check_each, Answers, check_each-window, check_each-stuck}

abbrev Store : Type 0
Store = ℕ → Option Counter

abbrev change : ℕ → (Option Counter → Option Counter) → Store → Store
change k f s j = if k == j then f (s j) else s j

abbrev lapse : ℕ → ℤ → Store → Store
lapse k (pos (suc n)) s = change k lapsing s
lapse k (pos zero) s = change k (λ c. none) s
lapse k (negsuc n) s = change k (λ c. none) s

abbrev value_of : Option Counter → ℕ
value_of none = 0
value_of (some c) = c.value

abbrev redis : RedisCounters Store
redis = record {
  get_connection = λ s. (some tt, s);
  incr = λ k s. (some (incremented (s k)).value, change k (λ c. some (incremented c)) s);
  expire = λ k z s. (some tt, lapse k z s);
  ttl = λ k s. (some (pos 42), s);
  get = λ k s. (some (value_of (s k)), s);
  del = λ k s. (some tt, change k (λ c. none) s);
}

abbrev at : ℕ → Store → Option Counter
at k s = s k

lapse_lem :
    (k : ℕ) (z : ℤ) (j : ℕ) (s : Store)
    → IsPositive z
    → lapse k z s j ≡ (if k == j then lapsing (s j) else s j)
lapse_lem k (pos (suc n)) j s p = refl
lapse_lem k (pos zero) j s p = absurd (omega arith)
lapse_lem k (negsuc n) j s p = absurd p

laws : Documented redis at
laws = record {
  connected = λ j s e. refl;
  counts = λ k s n e. cc e;
  counted = λ k j s n e. refl;
  expires = λ k z j s p e. lapse_lem k z j s p;
  ttl_keeps = λ k j s. refl;
  get_keeps = λ k j s. refl;
  gets = λ k s c n e h. cc (h, e);
  deleted = λ k j s e. refl;
}

up : IsUp redis
up = record {
  connects = λ s. refl;
  incrs = λ k s. ((incremented (s k)).value, refl);
  expiring = λ k z s. refl;
  ttls = λ k s. (pos 42, refl);
}

abbrev empty : Store
empty k = none

three_messages :
    (check_each (on_redis redis 2 60) 7 3 empty).0 ≡ ok (allowed 1 ∷ allowed 0 ∷ limited 0 42 ∷ [])
unfolding check_user_rate
three_messages = refl

check_each-window_example :
    (results : List RateLimitResult) × ((check_each (on_redis redis 2 60) 7 3 empty).0 ≡ ok results)
    × Answers 2 0 3 results
    × ((check_each (on_redis redis 2 60) 7 3 empty).1 7
        ≡ some (record { value = 3; lapses = true }))
check_each-window_example =
    check_each-window redis at laws 2 60 (omega arith) (omega arith) 7 2 empty up refl (omega arith)

abbrev without_expire : Store
without_expire k = some (record { value = 2; lapses = false })

check_each-stuck_example :
    (results : List RateLimitResult) × ((check_each (on_redis redis 2 60) 7 5 without_expire).0
      ≡ ok results)
    × All (λ a. a.is_allowed ≡ false) results
    × ((check_each (on_redis redis 2 60) 7 5 without_expire).1 7
        ≡ some (record { value = 2 + 5; lapses = false }))
check_each-stuck_example =
    check_each-stuck redis at laws 2 60 (omega arith) (omega arith) 7 5 1 without_expire up refl
      (omega arith) (omega arith)
