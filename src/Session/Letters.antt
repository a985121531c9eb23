-- ===== src/Session/Letters.antt =====
-- User ids as texts, for examples: `n` is a text of `n` letters.
use Prim.Native.String.{String, [] as no_text, ◌∷◌ as cons}
use text.Mathlib.Text.{◌==◌ as str_eq}
use text.Mathlib.TextPositions.{eq_refl}
use text.Mathlib.TextEquality.{eq_iff}
use mathlib.Core.Option
use ara_chat_service.Base.{
  ℕ, zero, suc, ◌≡◌, refl, ◌∙◌, sym, ap, Option, some, ◌==◌, arith, Bool-cases, inl, inr,
}
use ara_chat_service.Session.{UserTexts}
use ara_chat_service.Session.Servers.{AreTexts}

-- A user id as a text of as many letters.
abbrev pub letters : ℕ → String
letters zero = ""
letters (suc n) = cons "u" (letters n)

letters_apart : (u v : ℕ) → letters u ≡ letters v → u ≡ v
letters_apart zero zero e = refl
letters_apart zero (suc v) e = absurd (cc e)
letters_apart (suc u) zero e = absurd (cc e)
letters_apart (suc u) (suc v) e = ap suc (letters_apart u v (cc e))

pub same_letters : (u v : ℕ) → str_eq (letters u) (letters v) ≡ (u == v)
same_letters u v = elim (Bool-cases (u == v)) [
  | inl h ↦
      let e : u ≡ v = ground (arith, h) in
      rw h (ap (λ n. str_eq (letters u) (letters n)) (sym e) ∙ eq_refl (letters u))
  | inr h ↦ elim (Bool-cases (str_eq (letters u) (letters v))) [
    | inl k ↦
        let e : u ≡ v = letters_apart u v ((eq_iff (letters u) (letters v)).0 k) in
        absurd (ground (arith, e, h))
    | inr k ↦ rw h k
  ]
]

abbrev pub count_letters : String → Option ℕ
count_letters no_text = some 0
count_letters (cons c s) = Option.map suc (count_letters s)

pub count-letters : (u : ℕ) → count_letters (letters u) ≡ some u
count-letters zero = refl
count-letters (suc u) = ap (Option.map suc) (count-letters u)

abbrev pub texts : UserTexts
texts = record { to_string = letters; parse_str = count_letters }

pub texts-AreTexts : AreTexts texts
texts-AreTexts = record { apart = same_letters }
