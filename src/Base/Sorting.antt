-- ===== src/Base/Sorting.antt =====
-- `sort_by_key`, the stable sort of the standard library, and lists in order of their keys.
use Prim.Native.Nat.{ℕ, ◌≤◌}
use mathlib.Core.Path.{◌≡◌, refl, ap, ◌∙◌}
use mathlib.Core.Bool.{Bool}
use mathlib.Core.List.{List, [], ◌∷◌}
use mathlib.Core.Logic.{inl, inr}
use native.Mathlib.Omega.{arith}
use ara_chat_service.Base.Tests.{leb, if◌then◌else◌, Bool-cases}
use ara_chat_service.Base.Lists.{keep}

module _ {A : Type 0} where
  -- An element goes before the first one whose key is not less.
  abbrev pub place : ℕ × A → List (ℕ × A) → List (ℕ × A)
  place e [] = e ∷ []
  place e (x ∷ xs) = if leb e.0 x.0 then e ∷ x ∷ xs else x ∷ place e xs

  abbrev pub sort_by_key : List (ℕ × A) → List (ℕ × A)
  sort_by_key [] = []
  sort_by_key (x ∷ xs) = place x (sort_by_key xs)

  abbrev pub IsFrom : ℕ → List (ℕ × A) → Type 0
  IsFrom k [] = Unit {0}
  IsFrom k (x ∷ xs) = (k ≤ x.0) × IsFrom k xs

  -- Each key is at most those after it.
  abbrev pub IsSorted : List (ℕ × A) → Type 0
  IsSorted [] = Unit {0}
  IsSorted (x ∷ xs) = IsFrom x.0 xs × IsSorted xs

  pub IsFrom-le : (k j : ℕ) (xs : List (ℕ × A)) → k ≤ j → IsFrom j xs → IsFrom k xs
  IsFrom-le k j [] h f = tt
  IsFrom-le k j (x ∷ xs) h f = (omega arith, IsFrom-le k j xs h f.1)

  IsFrom-place :
      (k : ℕ) (e : ℕ × A) (xs : List (ℕ × A)) → k ≤ e.0 → IsFrom k xs → IsFrom k (place e xs)
  IsFrom-place k e [] h f = (h, tt)
  IsFrom-place k e (x ∷ xs) h f = ground (arith, IsFrom-place k e xs h f.1)

  pub place-IsSorted : (e : ℕ × A) (xs : List (ℕ × A)) → IsSorted xs → IsSorted (place e xs)
  place-IsSorted e [] s = (tt, tt)
  place-IsSorted e (x ∷ xs) s =
      ground (arith, IsFrom-le e.0 x.0 xs, IsFrom-place x.0 e xs, place-IsSorted e xs s.1)

  pub sort_by_key-IsSorted : (xs : List (ℕ × A)) → IsSorted (sort_by_key xs)
  sort_by_key-IsSorted [] = tt
  sort_by_key-IsSorted (x ∷ xs) = place-IsSorted x (sort_by_key xs) (sort_by_key-IsSorted xs)

  pub IsFrom-keep :
      (p : ℕ × A → Bool) (k : ℕ) (xs : List (ℕ × A)) → IsFrom k xs → IsFrom k (keep p xs)
  IsFrom-keep p k [] f = tt
  IsFrom-keep p k (x ∷ xs) f = ground (arith, IsFrom-keep p k xs f.1)

  pub keep-IsSorted : (p : ℕ × A → Bool) (xs : List (ℕ × A)) → IsSorted xs → IsSorted (keep p xs)
  keep-IsSorted p [] s = tt
  keep-IsSorted p (x ∷ xs) s = ground (arith, IsFrom-keep p x.0 xs, keep-IsSorted p xs s.1)

  place-IsFrom : (e : ℕ × A) (xs : List (ℕ × A)) → IsFrom e.0 xs → place e xs ≡ e ∷ xs
  place-IsFrom e [] f = refl
  place-IsFrom e (x ∷ xs) f = ground arith

  pub sort_by_key_sorted : (xs : List (ℕ × A)) → IsSorted xs → sort_by_key xs ≡ xs
  sort_by_key_sorted [] s = refl
  sort_by_key_sorted (x ∷ xs) s = ap (place x) (sort_by_key_sorted xs s.1) ∙ place-IsFrom x xs s.0

  keep-place :
      (p : ℕ × A → Bool) (e : ℕ × A) (xs : List (ℕ × A))
      → IsSorted xs
      → keep p (place e xs) ≡ (if p e then place e (keep p xs) else keep p xs)
  keep-place p e [] s = refl
  keep-place p e (x ∷ xs) s = ground (
    arith,
    keep-place p e xs s.1,
    IsFrom-le e.0 x.0 xs,
    IsFrom-keep p e.0 xs,
    place-IsFrom e (keep p xs),
  )

  -- To sort and then to drop elements is the same as to drop them first.
  pub keep-sort_by_key :
      (p : ℕ × A → Bool) (xs : List (ℕ × A)) → keep p (sort_by_key xs) ≡ sort_by_key (keep p xs)
  keep-sort_by_key p [] = refl
  keep-sort_by_key p (x ∷ xs) =
      keep-place p x (sort_by_key xs) (sort_by_key-IsSorted xs) ∙ step (keep-sort_by_key p xs)
    where
      step :
          keep p (sort_by_key xs) ≡ sort_by_key (keep p xs)
          → (if p x then place x (keep p (sort_by_key xs)) else keep p (sort_by_key xs))
            ≡ sort_by_key (keep p (x ∷ xs))
      step e = rw e (elim (Bool-cases (p x)) [ inl h ↦ rw h refl | inr h ↦ rw h refl ])
