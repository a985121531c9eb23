-- ===== src/Sharding/Search.antt =====
-- The search on the ring of infrastructure/sharding/mod.rs: what the standard library documents of
-- `binary_search`, and the owner of a hash as the comment of `get_node` tells it.
use Prim.Native.String.{String}
use mathlib.Core.Option
use ara_chat_service.Base.{
  ℕ, zero, suc, ◌≤◌, ◌<◌, ◌≡◌, refl, true, List, [], ◌∷◌, map, Option, none, some, leb,
  if◌then◌else◌, length, get_elem?, contains, IsDistinct, arith, ap,
}
use ara_chat_service.Base.Results.{Result, ok, err}
use ara_chat_service.Base.Sorting.{IsFrom, IsSorted}
use ara_chat_service.Sharding.Ring.{hash_of}

abbrev pub IsAscending : List ℕ → Type 0
IsAscending [] = Unit {0}
IsAscending (x ∷ []) = Unit {0}
IsAscending (x ∷ y ∷ ys) = (x ≤ y) × IsAscending (y ∷ ys)

-- "If the value is found then `Ok` is returned, containing the index of a matching element. If not,
-- `Err` is returned, containing the index where a matching element could be inserted."
pub record Searches (search : List ℕ → ℕ → Result ℕ ℕ) : Type 0 where
  pub found :
      (hs : List ℕ) (key i : ℕ) → IsAscending hs → search hs key ≡ ok i → get_elem? hs i ≡ some key
  pub missing_le :
      (hs : List ℕ) (key i : ℕ) → IsAscending hs → search hs key ≡ err i → i ≤ length hs
  pub missing_below :
      (hs : List ℕ) (key i j h : ℕ)
      → IsAscending hs
      → search hs key ≡ err i
      → get_elem? hs j ≡ some h
      → j < i
      → h < key
  pub missing_above :
      (hs : List ℕ) (key i j h : ℕ)
      → IsAscending hs
      → search hs key ≡ err i
      → get_elem? hs j ≡ some h
      → i ≤ j
      → key < h

abbrev pub id_of : ℕ × String → String
id_of entry = entry.1

-- "The first node with hash >= key hash", and where there is none the first of the ring.
abbrev pub first_from : ℕ → List (ℕ × String) → Option String
first_from k [] = none
first_from k (e ∷ es) = if leb k e.0 then some e.1 else first_from k es

abbrev pub first_id : List (ℕ × String) → Option String
first_id [] = none
first_id (e ∷ es) = some e.1

abbrev pub or_else : Option String → Option String → Option String
or_else none d = d
or_else (some s) d = some s

abbrev pub owner : ℕ → List (ℕ × String) → Option String
owner k es = or_else (first_from k es) (first_id es)

pub IsSorted-IsAscending : (es : List (ℕ × String)) → IsSorted es → IsAscending (map hash_of es)
IsSorted-IsAscending [] s = tt
IsSorted-IsAscending (e ∷ []) s = tt
IsSorted-IsAscending (e ∷ f ∷ es) s = (s.0.0, IsSorted-IsAscending (f ∷ es) s.1)

pub length-hashes : (es : List (ℕ × String)) → length (map hash_of es) ≡ length es
length-hashes [] = refl
length-hashes (e ∷ es) = ap suc (length-hashes es)

-- An index that splits the ring at the key is that of the first entry from the key on.
pub first_from_split :
    (es : List (ℕ × String)) (key i : ℕ)
    → ((j h : ℕ) → get_elem? (map hash_of es) j ≡ some h → j < i → h < key)
    → ((j h : ℕ) → get_elem? (map hash_of es) j ≡ some h → i ≤ j → key < h)
    → first_from key es ≡ Option.map id_of (get_elem? es i)
first_from_split [] key i below above = refl
first_from_split (e ∷ es) key zero below above = ground (arith, above 0 e.0 refl)
first_from_split (e ∷ es) key (suc i) below above = ground (
  arith,
  below 0 e.0 refl,
  first_from_split es key i (λ j h g l. below (suc j) h g (omega arith))
      (λ j h g l. above (suc j) h g (omega arith)),
)

IsFrom-get :
    (k : ℕ) (es : List (ℕ × String)) (i h : ℕ)
    → IsFrom k es
    → get_elem? (map hash_of es) i ≡ some h
    → (k ≤ h) × (contains h (map hash_of es) ≡ true)
IsFrom-get k [] i h f g = cc
IsFrom-get k (e ∷ es) zero h f g = ground arith
IsFrom-get k (e ∷ es) (suc i) h f g = ground (arith, IsFrom-get k es i h f.1 g)

-- Where the hashes are distinct, an entry with the key for its hash is the first from the key on.
pub first_from_found :
    (es : List (ℕ × String)) (key i : ℕ)
    → IsSorted es
    → IsDistinct (map hash_of es)
    → get_elem? (map hash_of es) i ≡ some key
    → first_from key es ≡ Option.map id_of (get_elem? es i)
first_from_found [] key i s d g = refl
first_from_found (e ∷ es) key zero s d g = ground arith
first_from_found (e ∷ es) key (suc i) s d g =
    ground (arith, IsFrom-get e.0 es i key s.0 g, first_from_found es key i s.1 d.1 g)

pub get_elem?_past {ℓ} : {A : Type ℓ} (xs : List A) (i : ℕ) → length xs ≤ i → get_elem? xs i ≡ none
get_elem?_past [] i h = refl
get_elem?_past (x ∷ xs) zero h = absurd (omega arith)
get_elem?_past (x ∷ xs) (suc i) h = get_elem?_past xs i (omega arith)

pub get_elem?_within :
    (es : List (ℕ × String)) (i : ℕ) → i < length es → (e : ℕ × String) × (get_elem? es i ≡ some e)
get_elem?_within [] i h = absurd (omega arith)
get_elem?_within (e ∷ es) zero h = (e, refl)
get_elem?_within (e ∷ es) (suc i) h = get_elem?_within es i (omega arith)
