-- ===== src/Redis/Counters.antt =====
-- The commands of Redis on counters, and what Redis documents of them.
use ara_chat_service.Base.{ℕ, suc, ◌≡◌, Bool, true, false, Option, none, some, ◌==◌, if◌then◌else◌}
use ara_chat_service.Base.Offsets.{ℤ, IsPositive}
use ara_chat_service.Redis.{Command}

-- The key of a counter is a number. The text that GET answers is an error where it does not fit the
-- type that the code asks for; INCR answers an integer.
pub record RedisCounters (S : Type 0) : Type 0 where
  pub get_connection : Command S (Unit {0})
  -- `INCR key`
  pub incr : ℕ → Command S ℕ
  pub expire : ℕ → ℤ → Command S (Unit {0})
  pub ttl : ℕ → Command S ℤ
  pub get : ℕ → Command S ℕ
  pub del : ℕ → Command S (Unit {0})

-- A counter, and whether the key has a time to live.
pub record Counter : Type 0 where
  pub value : ℕ
  pub lapses : Bool

abbrev pub incremented : Option Counter → Counter
incremented none = record { value = 1; lapses = false }
incremented (some c) = record { value = suc c.value; lapses = c.lapses }

abbrev pub lapsing : Option Counter → Option Counter
lapsing none = none
lapsing (some c) = some (record { value = c.value; lapses = true })

-- What Redis documents of these commands where they succeed; `at k s` is the counter at a key.
pub record Documented {S : Type 0} (r : RedisCounters S) (at : ℕ → S → Option Counter)
    : Type 0 where
  pub connected :
      (j : ℕ) (s : S) → (r.get_connection s).0 ≡ some tt → at j (r.get_connection s).1 ≡ at j s
  pub counts : (k : ℕ) (s : S) (n : ℕ) → (r.incr k s).0 ≡ some n → n ≡ (incremented (at k s)).value
  pub counted :
      (k j : ℕ) (s : S) (n : ℕ)
      → (r.incr k s).0 ≡ some n
      → at j (r.incr k s).1 ≡ (if k == j then some (incremented (at j s)) else at j s)
  pub expires :
      (k : ℕ) (seconds : ℤ) (j : ℕ) (s : S)
      → IsPositive seconds
      → (r.expire k seconds s).0 ≡ some tt
      → at j (r.expire k seconds s).1 ≡ (if k == j then lapsing (at j s) else at j s)
  pub ttl_keeps : (k j : ℕ) (s : S) → at j (r.ttl k s).1 ≡ at j s
  pub get_keeps : (k j : ℕ) (s : S) → at j (r.get k s).1 ≡ at j s
  pub gets :
      (k : ℕ) (s : S) (c : Counter) (n : ℕ) → at k s ≡ some c → (r.get k s).0 ≡ some n → n ≡ c.value
  pub deleted :
      (k j : ℕ) (s : S)
      → (r.del k s).0 ≡ some tt
      → at j (r.del k s).1 ≡ (if k == j then none else at j s)

-- Every command is answered.
pub record IsUp {S : Type 0} (r : RedisCounters S) : Type 0 where
  pub connects : (s : S) → (r.get_connection s).0 ≡ some tt
  pub incrs : (k : ℕ) (s : S) → (n : ℕ) × ((r.incr k s).0 ≡ some n)
  pub expiring : (k : ℕ) (seconds : ℤ) (s : S) → (r.expire k seconds s).0 ≡ some tt
  pub ttls : (k : ℕ) (s : S) → (z : ℤ) × ((r.ttl k s).0 ≡ some z)
