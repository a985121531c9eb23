-- ===== src/Redis/Lists.antt =====
-- The commands of Redis on lists of texts.
use Prim.Native.String.{String}
use text.Mathlib.Text.{◌==◌ as str_eq}
use ara_chat_service.Base.{
  ℕ, ◌≡◌, Bool, true, false, List, [], ◌∷◌, ◌++◌, some, ◌==◌, if◌then◌else◌, length,
}
use ara_chat_service.Base.Offsets.{ℤ, IsPositive, slice}
use ara_chat_service.Redis.{Command}

-- The key of a list is a number.
pub record RedisLists (S : Type 0) : Type 0 where
  pub get_connection : Command S (Unit {0})
  pub rpush : ℕ → String → Command S (Unit {0})
  pub ltrim : ℕ → ℤ → ℤ → Command S (Unit {0})
  pub lrange : ℕ → ℤ → ℤ → Command S (List String)
  -- `LREM key 1 element`
  pub lrem_one : ℕ → String → Command S ℕ
  pub llen : ℕ → Command S ℕ
  pub expire : ℕ → ℤ → Command S (Unit {0})
  pub del : ℕ → Command S (Unit {0})

abbrev pub text_in : String → List String → Bool
text_in s [] = false
text_in s (t ∷ ts) = if str_eq t s then true else text_in s ts

abbrev pub remove_first : String → List String → List String
remove_first s [] = []
remove_first s (t ∷ ts) = if str_eq t s then ts else t ∷ remove_first s ts

-- What Redis documents of these commands where they succeed. `items k s` is the list at a key, and
-- is empty where there is none. Nothing is known of the state after an error.
pub record Documented {S : Type 0} (r : RedisLists S) (items : ℕ → S → List String) : Type 0 where
  pub connected :
      (j : ℕ) (s : S)
      → (r.get_connection s).0 ≡ some tt
      → items j (r.get_connection s).1 ≡ items j s
  pub pushed :
      (k : ℕ) (v : String) (j : ℕ) (s : S)
      → (r.rpush k v s).0 ≡ some tt
      → items j (r.rpush k v s).1 ≡ (if k == j then items j s ++ v ∷ [] else items j s)
  pub trimmed :
      (k : ℕ) (start stop : ℤ) (j : ℕ) (s : S)
      → (r.ltrim k start stop s).0 ≡ some tt
      → items j (r.ltrim k start stop s).1
        ≡ (if k == j then slice start stop (items j s) else items j s)
  -- A time to live that is not positive deletes the key.
  pub expires :
      (k : ℕ) (seconds : ℤ) (j : ℕ) (s : S)
      → IsPositive seconds
      → (r.expire k seconds s).0 ≡ some tt
      → items j (r.expire k seconds s).1 ≡ items j s
  pub ranged :
      (k : ℕ) (start stop : ℤ) (s : S) (texts : List String)
      → (r.lrange k start stop s).0 ≡ some texts
      → texts ≡ slice start stop (items k s)
  pub range_keeps :
      (k : ℕ) (start stop : ℤ) (j : ℕ) (s : S) → items j (r.lrange k start stop s).1 ≡ items j s
  pub removed :
      (k : ℕ) (v : String) (s : S) (n : ℕ)
      → (r.lrem_one k v s).0 ≡ some n
      → n ≡ (if text_in v (items k s) then 1 else 0)
  pub remove_keeps :
      (k : ℕ) (v : String) (j : ℕ) (s : S) (n : ℕ)
      → (r.lrem_one k v s).0 ≡ some n
      → items j (r.lrem_one k v s).1 ≡ (if k == j then remove_first v (items j s) else items j s)
  pub counted : (k : ℕ) (s : S) (n : ℕ) → (r.llen k s).0 ≡ some n → n ≡ length (items k s)
  pub deleted :
      (k j : ℕ) (s : S)
      → (r.del k s).0 ≡ some tt
      → items j (r.del k s).1 ≡ (if k == j then [] else items j s)

-- Every command is answered.
pub record IsUp {S : Type 0} (r : RedisLists S) : Type 0 where
  pub connects : (s : S) → (r.get_connection s).0 ≡ some tt
  pub pushes : (k : ℕ) (v : String) (s : S) → (r.rpush k v s).0 ≡ some tt
  pub trims : (k : ℕ) (start stop : ℤ) (s : S) → (r.ltrim k start stop s).0 ≡ some tt
  pub expiring : (k : ℕ) (seconds : ℤ) (s : S) → (r.expire k seconds s).0 ≡ some tt
  pub ranges :
      (k : ℕ) (start stop : ℤ) (s : S)
      → (texts : List String) × ((r.lrange k start stop s).0 ≡ some texts)
  pub removes : (k : ℕ) (v : String) (s : S) → (n : ℕ) × ((r.lrem_one k v s).0 ≡ some n)
  pub counts : (k : ℕ) (s : S) → (n : ℕ) × ((r.llen k s).0 ≡ some n)
  pub deletes : (k : ℕ) (s : S) → (r.del k s).0 ≡ some tt
