-- ===== src/Base/Slices.antt =====
-- Parts of lists by native positions: slices, `drain(..n)`, and the ranges `a..b`.
use Prim.Native.Nat.{ℕ, zero, suc, ◌+◌, ◌-◌, ◌≤◌}
use mathlib.Core.Path.{◌≡◌, refl, sym, ap, ◌∙◌}
use mathlib.Core.Bool.{true, false}
use mathlib.Core.List.{List, [], ◌∷◌, ◌++◌}
use mathlib.Core.Option.{Option, none, some}
use native.Mathlib.Omega.{arith}
use ara_chat_service.Base.Tests.{leb, ltb, if◌then◌else◌}
use ara_chat_service.Base.Lists.{length, length-append, contains}

module _ {ℓ} {A : Type ℓ} where
  abbrev pub get_elem? : List A → ℕ → Option A
  get_elem? [] i = none
  get_elem? (x ∷ xs) zero = some x
  get_elem? (x ∷ xs) (suc i) = get_elem? xs i

  abbrev pub take : ℕ → List A → List A
  take n [] = []
  take zero (x ∷ xs) = []
  take (suc n) (x ∷ xs) = x ∷ take n xs

  abbrev pub drop : ℕ → List A → List A
  drop n [] = []
  drop zero (x ∷ xs) = x ∷ xs
  drop (suc n) (x ∷ xs) = drop n xs

  -- The last elements, `n` of them if there are as many.
  abbrev pub take_last : ℕ → List A → List A
  take_last n xs = drop (length xs - n) xs

  pub drop_zero : (xs : List A) → drop 0 xs ≡ xs
  drop_zero [] = refl
  drop_zero (x ∷ xs) = refl

  pub take_all : (n : ℕ) (xs : List A) → length xs ≤ n → take n xs ≡ xs
  take_all n [] h = refl
  take_all zero (x ∷ xs) h = absurd (omega arith)
  take_all (suc n) (x ∷ xs) h = ap (λ r. x ∷ r) (take_all n xs (omega arith))

  pub length-drop : (n : ℕ) (xs : List A) → length (drop n xs) ≡ length xs - n
  length-drop n [] = omega arith
  length-drop zero (x ∷ xs) = omega arith
  length-drop (suc n) (x ∷ xs) = omega (arith, length-drop n xs)

  pub drop-drop : (m n : ℕ) (xs : List A) → drop m (drop n xs) ≡ drop (n + m) xs
  drop-drop m n [] = refl
  drop-drop m zero (x ∷ xs) = ap (λ k. drop k (x ∷ xs)) (omega arith)
  drop-drop m (suc n) (x ∷ xs) =
      let e : suc n + m ≡ suc (n + m) = omega arith in rw e (drop-drop m n xs)

  pub drop-append : (n : ℕ) (xs ys : List A) → n ≤ length xs → drop n (xs ++ ys) ≡ drop n xs ++ ys
  drop-append zero [] ys h = drop_zero ys
  drop-append (suc n) [] ys h = absurd (omega arith)
  drop-append zero (x ∷ xs) ys h = refl
  drop-append (suc n) (x ∷ xs) ys h = drop-append n xs ys (omega arith)

  pub length-take_last : (n : ℕ) (xs : List A) → length (take_last n xs) ≤ n
  length-take_last n xs = omega (arith, length-drop (length xs - n) xs)

  pub take_last_all : (n : ℕ) (xs : List A) → length xs ≤ n → take_last n xs ≡ xs
  take_last_all n xs h =
      let e : length xs - n ≡ 0 = omega arith in ap (λ k. drop k xs) e ∙ drop_zero xs

  -- Of a list that has lost elements in front, the last ones are those of the whole.
  pub take_last-append-take_last :
      (n : ℕ) (xs ys : List A) → take_last n (take_last n xs ++ ys) ≡ take_last n (xs ++ ys)
  take_last-append-take_last n xs ys =
      let k : ℕ = length xs - n in
      let e : length (drop k xs ++ ys) ≡ length xs - k + length ys =
        omega (arith, length-append (drop k xs) ys, length-drop k xs) in
      let f : k + (length xs - k + length ys - n) ≡ length (xs ++ ys) - n =
        omega (arith, length-append xs ys) in
      ap (λ m. drop (m - n) (drop k xs ++ ys)) e
      ∙ ap (drop (length xs - k + length ys - n)) (sym (drop-append k xs ys (omega arith)))
      ∙ drop-drop (length xs - k + length ys - n) k (xs ++ ys)
      ∙ ap (λ m. drop m (xs ++ ys)) f

-- `start, start + 1, …`, `n` numbers.
abbrev pub range_from : ℕ → ℕ → List ℕ
range_from start zero = []
range_from start (suc n) = start ∷ range_from (start + 1) n

pub length-range_from : (start n : ℕ) → length (range_from start n) ≡ n
length-range_from start zero = refl
length-range_from start (suc n) = omega (arith, length-range_from (start + 1) n)

pub range_from-append :
    (start n k : ℕ) → range_from start n ++ range_from (start + n) k ≡ range_from start (n + k)
range_from-append start zero k =
    let e : 0 + k ≡ k = omega arith in let f : start + 0 ≡ start = omega arith in rw (e, f) refl
range_from-append start (suc n) k =
    let e : suc n + k ≡ suc (n + k) = omega arith in
    let f : start + suc n ≡ start + 1 + n = omega arith in
    rw (e, f) (ap (λ r. start ∷ r) (range_from-append (start + 1) n k))

pub contains-range_from :
    (a start n : ℕ)
    → contains a (range_from start n)
      ≡ (if leb start a then (if ltb a (start + n) then true else false) else false)
contains-range_from a start zero = ground arith
contains-range_from a start (suc n) = ground (arith, contains-range_from a (start + 1) n)
