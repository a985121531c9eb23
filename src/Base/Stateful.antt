-- ===== src/Base/Stateful.antt =====
-- Chains of calls that may fail and that change a state.
use mathlib.Core.Path.{◌≡◌, refl}
use ara_chat_service.Base.Results.{Result, ok, err}

-- A computation with a state that may end in an error, which keeps the state reached.
abbrev pub Stateful : Type 0 → Type 0 → Type 0 → Type 0
Stateful S E A = S → Result E A × S

module _ {S E : Type 0} where
  abbrev pub pure : {A : Type 0} → A → Stateful S E A
  pure a s = (ok a, s)

  abbrev pub fail : {A : Type 0} → E → Stateful S E A
  fail e s = (err e, s)

  abbrev pub continue : {A B : Type 0} → (A → Stateful S E B) → Result E A → S → Result E B × S
  continue f (ok a) s = f a s
  continue f (err e) s = (err e, s)

  infixl 5 ◌>>=◌ ◌>>◌
  abbrev pub ◌>>=◌ : {A B : Type 0} → Stateful S E A → (A → Stateful S E B) → Stateful S E B
  ◌>>=◌ m f s = continue f (m s).0 (m s).1

  abbrev pub ◌>>◌ : {B : Type 0} → Stateful S E (Unit {0}) → Stateful S E B → Stateful S E B
  m >> k = m >>= λ _. k

module _ {S E : Type 0} where
  continue-eq-ok :
      {A B : Type 0} (r : Result E A) (s : S) (f : A → Stateful S E B) (b : B)
      → (continue f r s).0 ≡ ok b
      → (a : A) × (r ≡ ok a) × (continue f r s ≡ f a s)
  continue-eq-ok (ok a) s f b h = (a, refl, refl)
  continue-eq-ok (err e) s f b h = cc

  -- The inversion of a chain that succeeds.
  pub >>=-eq-ok :
      {A B : Type 0} (m : Stateful S E A) (f : A → Stateful S E B) (s : S) (b : B)
      → ((m >>= f) s).0 ≡ ok b
      → (a : A) × ((m s).0 ≡ ok a) × ((m >>= f) s ≡ f a (m s).1)
  >>=-eq-ok m f s b h = continue-eq-ok (m s).0 (m s).1 f b h

  -- A call that succeeds hands its result and its state on.
  pub >>=-ok :
      {A B : Type 0} (m : Stateful S E A) (f : A → Stateful S E B) (s : S) (a : A)
      → (m s).0 ≡ ok a
      → (m >>= f) s ≡ f a (m s).1
  >>=-ok m f s a h = rw h refl

  continue_holds :
      {A B : Type 0} (P : S → Type 0) (r : Result E A) (s : S) (f : A → Stateful S E B)
      → P s
      → ((a : A) → r ≡ ok a → P (f a s).1)
      → P (continue f r s).1
  continue_holds P (ok a) s f p k = k a refl
  continue_holds P (err e) s f p k = p

  -- What holds after the first call, and after the rest where the first succeeds, holds after both.
  pub >>=_holds :
      {A B : Type 0} (P : S → Type 0) (m : Stateful S E A) (f : A → Stateful S E B) (s : S)
      → P (m s).1
      → ((a : A) → (m s).0 ≡ ok a → P (f a (m s).1).1)
      → P ((m >>= f) s).1
  >>=_holds P m f s p k = continue_holds P (m s).0 (m s).1 f p k

  -- What holds after the rest, where the first call succeeds, holds after both.
  pub >>=_reaches :
      {A B : Type 0} (P : S → Type 0) (m : Stateful S E A) (f : A → Stateful S E B) (s : S) (a : A)
      → (m s).0 ≡ ok a
      → P (f a (m s).1).1
      → P ((m >>= f) s).1
  >>=_reaches P m f s a h p = rw h p
