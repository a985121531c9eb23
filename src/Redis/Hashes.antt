-- ===== src/Redis/Hashes.antt =====
-- The commands of Redis on hashes of texts and numbers, and what Redis documents of them.
use Prim.Native.String.{String}
use text.Mathlib.Text.{◌==◌ as str_eq}
use ara_chat_service.Base.{
  zero, suc, ◌≡◌, List, [], ◌∷◌, Option, some, ◌&&◌, ◌==◌, ℕ, if◌then◌else◌,
}
use ara_chat_service.Base.Offsets.{ℤ, pos, negsuc, decrement}
use ara_chat_service.Redis.{Command}

-- What a field holds; a number is kept as its decimal text.
pub data Value : Type 0 where
  word : String → Value
  number : ℤ → Value

-- The key of a hash is a number.
pub data HashOp : Type 0 where
  hset : ℕ → String → Value → HashOp
  -- `HINCRBY key field 1`
  hincr_one : ℕ → String → HashOp
  expire : ℕ → ℤ → HashOp

pub record RedisHashes (S : Type 0) : Type 0 where
  pub get_connection : Command S (Unit {0})
  -- `redis::pipe().atomic()` with its commands, and one command alone
  pub pipe : List HashOp → Command S (Unit {0})
  -- `HINCRBY key field -1`, which answers the new number
  pub hdecr_one : ℕ → String → Command S ℤ
  pub hgetall : ℕ → Command S (List (String × Value))

abbrev pub increment : ℤ → ℤ
increment (pos n) = pos (suc n)
increment (negsuc zero) = pos 0
increment (negsuc (suc n)) = negsuc n

-- A field that is missing counts as 0.
abbrev pub number_of : Option Value → ℤ
number_of (some (number z)) = z
number_of other = pos 0

abbrev pub Fields : Type 0
Fields = ℕ → String → Option Value

abbrev pub apply : HashOp → Fields → Fields
apply (hset k f x) v j g = if k == j && str_eq f g then some x else v j g
apply (hincr_one k f) v j g =
    if k == j && str_eq f g then some (number (increment (number_of (v j g)))) else v j g
apply (expire k z) v j g = v j g

abbrev pub apply_all : List HashOp → Fields → Fields
apply_all [] v = v
apply_all (op ∷ ops) v = apply_all ops (apply op v)

-- What Redis documents of these commands where every one is answered and no key lapses, with times
-- to live that are positive; `at s` are the fields.
pub record Documented {S : Type 0} (r : RedisHashes S) (at : S → Fields) : Type 0 where
  pub connects : (s : S) → (r.get_connection s).0 ≡ some tt
  pub connected : (k : ℕ) (f : String) (s : S) → at (r.get_connection s).1 k f ≡ at s k f
  pub pipes : (ops : List HashOp) (s : S) → (r.pipe ops s).0 ≡ some tt
  pub piped :
      (ops : List HashOp) (k : ℕ) (f : String) (s : S)
      → at (r.pipe ops s).1 k f ≡ apply_all ops (at s) k f
  pub decreases :
      (k : ℕ) (f : String) (s : S) → (r.hdecr_one k f s).0 ≡ some (decrement (number_of (at s k f)))
  pub decreased :
      (k : ℕ) (f : String) (j : ℕ) (g : String) (s : S)
      → at (r.hdecr_one k f s).1 j g ≡ (
          if k == j && str_eq f g
          then some (number (decrement (number_of (at s j g))))
          else at s j g)
