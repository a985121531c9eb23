-- ===== src/Receipt/Sums.antt =====
-- Sums of the counts of several conversations (infrastructure/redis/cache.rs).
use ara_chat_service.Base.{
  ℕ, suc, ◌+◌, ◌≤◌, ◌≡◌, refl, ◌∙◌, sym, ap, Bool, true, false, List, [], ◌∷◌, ◌==◌, if◌then◌else◌,
  contains, IsDistinct, Bool-cases, inl, inr, arith,
}

abbrev pub sum : (ℕ → ℕ) → List ℕ → ℕ
sum f [] = 0
sum f (c ∷ cs) = f c + sum f cs

pub sum_same : (f g : ℕ → ℕ) (cs : List ℕ) → ((d : ℕ) → g d ≡ f d) → sum g cs ≡ sum f cs
sum_same f g [] e = refl
sum_same f g (c ∷ cs) e = omega (arith, e c, sum_same f g cs e)

pub sum_absent :
    (f g : ℕ → ℕ) (c x : ℕ) (cs : List ℕ)
    → ((d : ℕ) → g d ≡ (if c == d then x else f d))
    → contains c cs ≡ false
    → sum g cs ≡ sum f cs
sum_absent f g c x [] e n = refl
sum_absent f g c x (d ∷ cs) e n = ground (arith, e d, sum_absent f g c x cs e)

-- One count changes to `x`, and the sum with it.
pub sum_changed :
    (f g : ℕ → ℕ) (c x : ℕ) (cs : List ℕ)
    → ((d : ℕ) → g d ≡ (if c == d then x else f d))
    → IsDistinct cs
    → contains c cs ≡ true
    → sum g cs + f c ≡ sum f cs + x
sum_changed f g c x [] e d n = cc n
sum_changed f g c x (b ∷ cs) e d n = elim (Bool-cases (c == b)) [
  | inl h ↦
      let k : c ≡ b = ground (arith, h) in
      let away : contains c cs ≡ false = rw k d.0 in
      let rest : sum g cs ≡ sum f cs = sum_absent f g c x cs e away in
      let here : g b ≡ x = e b ∙ rw h refl in
      let same : f c ≡ f b = ap f k in omega (arith, rest, here, same)
  | inr h ↦
      let within : contains c cs ≡ true = rw h at n in
      let here : g b ≡ f b = e b ∙ rw h refl in
      omega (arith, here, sum_changed f g c x cs e d.1 within)
]

pub at_same :
    (c d : ℕ) (f : ℕ → ℕ)
    → (if c == d then suc (f d) else f d) ≡ (if c == d then suc (f c) else f d)
at_same c d f = elim (Bool-cases (c == d)) [
  | inl h ↦ let k : c ≡ d = ground (arith, h) in rw h (ap (λ n. suc (f n)) (sym k))
  | inr h ↦ rw h refl
]

pub same_branch : (b : Bool) (x : ℕ) → (if b then x else x) ≡ x
same_branch true x = refl
same_branch false x = refl

pub sum_has : (f : ℕ → ℕ) (c : ℕ) (cs : List ℕ) → contains c cs ≡ true → f c ≤ sum f cs
sum_has f c [] n = cc n
sum_has f c (b ∷ cs) n = elim (Bool-cases (c == b)) [
  | inl h ↦
      let k : c ≡ b = ground (arith, h) in let same : f c ≡ f b = ap f k in omega (arith, same)
  | inr h ↦ omega (arith, sum_has f c cs (rw h at n))
]
