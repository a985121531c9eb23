-- ===== src/Redis/Sets.antt =====
-- The commands of Redis on sets of texts, and what Redis documents of them.
use Prim.Native.String.{String}
use text.Mathlib.Text.{◌==◌ as str_eq}
use ara_chat_service.Base.{ℕ, ◌≡◌, Bool, true, false, List, [], ◌∷◌, some, ◌&&◌, if◌then◌else◌}
use ara_chat_service.Base.Offsets.{ℤ}
use ara_chat_service.Redis.{Command}

-- The commands of a pipeline.
pub data SetOp (Key : Type 0) : Type 0 where
  sadd srem : Key → String → SetOp Key
  expire : Key → ℤ → SetOp Key
  del : Key → SetOp Key

pub record RedisSets (S Key : Type 0) : Type 0 where
  pub get_connection : Command S (Unit {0})
  -- `redis::pipe().atomic()` with its commands, and one command alone
  pub pipe : List (SetOp Key) → Command S (Unit {0})
  pub smembers : Key → Command S (List String)
  pub scard : Key → Command S ℕ
  -- `KEYS` with the pattern that the code gives
  pub keys : Command S (List Key)

-- Which texts stand in which set.
abbrev pub View : Type 0 → Type 0
View Key = Key → String → Bool

abbrev pub contains_text : String → List String → Bool
contains_text s [] = false
contains_text s (t ∷ ts) = if str_eq t s then true else contains_text s ts

module _ {Key : Type 0} (same : Key → Key → Bool) where
  abbrev pub apply : SetOp Key → View Key → View Key
  apply (sadd k m) v j n = if same k j && str_eq m n then true else v j n
  apply (srem k m) v j n = if same k j && str_eq m n then false else v j n
  apply (expire k z) v j n = v j n
  apply (del k) v j n = if same k j then false else v j n

  abbrev pub apply_all : List (SetOp Key) → View Key → View Key
  apply_all [] v = v
  apply_all (op ∷ ops) v = apply_all ops (apply op v)

  -- What Redis documents of these commands where they succeed, with times to live that are positive
  -- and as long as no key lapses; `at s` says what stands in the sets. An error of a pipeline
  -- leaves nothing known.
  pub record Documented {S : Type 0} (r : RedisSets S Key) (at : S → View Key) : Type 0 where
    pub connected :
        (k : Key) (m : String) (s : S)
        → (r.get_connection s).0 ≡ some tt
        → at (r.get_connection s).1 k m ≡ at s k m
    pub piped :
        (ops : List (SetOp Key)) (k : Key) (m : String) (s : S)
        → (r.pipe ops s).0 ≡ some tt
        → at (r.pipe ops s).1 k m ≡ apply_all ops (at s) k m
    pub lists :
        (k : Key) (m : String) (s : S) (texts : List String)
        → (r.smembers k s).0 ≡ some texts
        → contains_text m texts ≡ at s k m
    pub list_keeps : (k j : Key) (m : String) (s : S) → at (r.smembers k s).1 j m ≡ at s j m
