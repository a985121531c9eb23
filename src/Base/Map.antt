-- ===== src/Base/Map.antt =====
-- A concurrent hash map (`DashMap`) with numbers for keys, as an association list: a new key goes
-- to the end, and a known one keeps its place. The source relies on no order of iteration.
use Prim.Native.Nat.{ℕ, ◌+◌}
use mathlib.Core.Path.{◌≡◌, refl}
use mathlib.Core.Bool.{Bool, true, false}
use mathlib.Core.List.{List, [], ◌∷◌, ◌++◌}
use mathlib.Core.Option.{Option, none, some}
use native.Mathlib.Omega.{arith}
use ara_chat_service.Base.Tests.{◌==◌, if◌then◌else◌}
use ara_chat_service.Base.Lists.{length}

module _ {ℓ} {V : Type ℓ} where
  abbrev pub get : ℕ → List (ℕ × V) → Option V
  get k [] = none
  get k ((j, v) ∷ m) = if j == k then some v else get k m

  abbrev pub has : ℕ → List (ℕ × V) → Bool
  has k [] = false
  has k ((j, v) ∷ m) = if j == k then true else has k m

  abbrev pub insert : ℕ → V → List (ℕ × V) → List (ℕ × V)
  insert k v [] = (k, v) ∷ []
  insert k v ((j, w) ∷ m) = if j == k then (k, v) ∷ m else (j, w) ∷ insert k v m

  abbrev pub remove : ℕ → List (ℕ × V) → List (ℕ × V)
  remove k [] = []
  remove k ((j, v) ∷ m) = if j == k then remove k m else (j, v) ∷ remove k m

  abbrev pub keys : List (ℕ × V) → List ℕ
  keys [] = []
  keys ((k, v) ∷ m) = k ∷ keys m

  -- No key stands twice.
  abbrev pub HasDistinctKeys : List (ℕ × V) → Type 0
  HasDistinctKeys [] = Unit {0}
  HasDistinctKeys ((k, v) ∷ m) = (has k m ≡ false) × HasDistinctKeys m

  pub get-insert :
      (k j : ℕ) (v : V) (m : List (ℕ × V))
      → get j (insert k v m) ≡ (if k == j then some v else get j m)
  get-insert k j v [] = refl
  get-insert k j v ((i, w) ∷ m) = ground (arith, get-insert k j v m)

  pub get-remove :
      (k j : ℕ) (m : List (ℕ × V)) → get j (remove k m) ≡ (if k == j then none else get j m)
  get-remove k j [] = ground arith
  get-remove k j ((i, w) ∷ m) = ground (arith, get-remove k j m)

  pub has-insert :
      (k j : ℕ) (v : V) (m : List (ℕ × V))
      → has j (insert k v m) ≡ (if k == j then true else has j m)
  has-insert k j v [] = refl
  has-insert k j v ((i, w) ∷ m) = ground (arith, has-insert k j v m)

  pub has-remove :
      (k j : ℕ) (m : List (ℕ × V)) → has j (remove k m) ≡ (if k == j then false else has j m)
  has-remove k j [] = ground arith
  has-remove k j ((i, w) ∷ m) = ground (arith, has-remove k j m)

  -- `has` and `get` agree.
  pub get-none_of_has : (k : ℕ) (m : List (ℕ × V)) → has k m ≡ false → get k m ≡ none
  get-none_of_has k [] h = refl
  get-none_of_has k ((i, w) ∷ m) h = ground (arith, get-none_of_has k m)

  pub has_of_get : (k : ℕ) (m : List (ℕ × V)) (v : V) → get k m ≡ some v → has k m ≡ true
  has_of_get k [] v h = cc
  has_of_get k ((i, w) ∷ m) v h = ground (arith, has_of_get k m v)

  pub has_of_get-none : (k : ℕ) (m : List (ℕ × V)) → get k m ≡ none → has k m ≡ false
  has_of_get-none k [] h = refl
  has_of_get-none k ((i, w) ∷ m) h = ground (arith, has_of_get-none k m)

  pub insert-HasDistinctKeys :
      (k : ℕ) (v : V) (m : List (ℕ × V)) → HasDistinctKeys m → HasDistinctKeys (insert k v m)
  insert-HasDistinctKeys k v [] d = (refl, tt)
  insert-HasDistinctKeys k v ((i, w) ∷ m) d =
      ground (arith, has-insert k i v m, insert-HasDistinctKeys k v m d.1)

  pub remove-HasDistinctKeys :
      (k : ℕ) (m : List (ℕ × V)) → HasDistinctKeys m → HasDistinctKeys (remove k m)
  remove-HasDistinctKeys k [] d = tt
  remove-HasDistinctKeys k ((i, w) ∷ m) d =
      ground (arith, has-remove k i m, remove-HasDistinctKeys k m d.1)

  pub remove_absent : (k : ℕ) (m : List (ℕ × V)) → has k m ≡ false → remove k m ≡ m
  remove_absent k [] h = refl
  remove_absent k ((i, w) ∷ m) h = ground (arith, remove_absent k m)

  pub insert_absent :
      (k : ℕ) (v : V) (m : List (ℕ × V)) → has k m ≡ false → insert k v m ≡ m ++ (k, v) ∷ []
  insert_absent k v [] h = refl
  insert_absent k v ((i, w) ∷ m) h = ground (arith, insert_absent k v m)

  pub length-insert :
      (k : ℕ) (v : V) (m : List (ℕ × V))
      → length (insert k v m) ≡ (if has k m then length m else length m + 1)
  length-insert k v [] = omega arith
  length-insert k v ((i, w) ∷ m) = ground (arith, length-insert k v m)

  pub length-remove :
      (k : ℕ) (m : List (ℕ × V))
      → HasDistinctKeys m
      → length m ≡ (if has k m then length (remove k m) + 1 else length (remove k m))
  length-remove k [] d = refl
  length-remove k ((i, w) ∷ m) d = ground (arith, length-remove k m d.1, remove_absent k m)
