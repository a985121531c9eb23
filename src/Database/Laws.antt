-- ===== src/Database/Laws.antt =====
-- Rules for chains of statements and for transactions.
use ara_chat_service.Base.{◌+◌, ◌≡◌, refl, inl, inr, Bool-cases, arith}
use ara_chat_service.Base.Results.{Result, ok, err}
use ara_chat_service.Database.{
  Tables, World, Db, ◌>>=◌, ◌>>◌, pure, attempt, transaction, select, continue, settle,
}
use ara_chat_service.Base.Stateful.{>>=_holds}
pub use ara_chat_service.Base.Stateful.{>>=-eq-ok}

module _ {E : Type 0} where
  settle_keeps :
      {A : Type 0} (P : Tables → Type 0) (before : Tables) (r : Result E A) (w : World) (e : E)
      → P before
      → ((a : A) → r ≡ ok a → P w.tables)
      → P (settle before (continue (λ a. (do attempt e; pure a)) r w)).1.tables
  settle_keeps P before (ok a) w e p k = elim (Bool-cases (w.answers w.queries)) [
    | inl h ↦ rw h (k a refl)
    | inr h ↦ rw h p
  ]
  settle_keeps P before (err x) w e p k = p

  -- What holds of the tables before a transaction, and after its body where that succeeds, holds
  -- after the transaction.
  pub transaction_keeps :
      {A : Type 0} (P : Tables → Type 0) (e : E) (body : Db E A) (w : World)
      → P w.tables
      → ((w' : World) (a : A)
          → w'.tables ≡ w.tables
          → w'.now ≡ w.now
          → (body w').0 ≡ ok a
          → P (body w').1.tables)
      → P (transaction e body w).1.tables
  transaction_keeps P e body w p k = elim (Bool-cases (w.answers w.queries)) [
    | inl h ↦
        let w' : World = record w { queries = w.queries + 1 } in
        rw h (settle_keeps P w.tables (body w').0 (body w').1 e p (λ a. k w' a refl refl))
    | inr h ↦ rw h p
  ]

  settle-eq-ok :
      {A : Type 0} (before : Tables) (r : Result E A) (w : World) (e : E) (a : A)
      → (settle before (continue (λ x. (do attempt e; pure x)) r w)).0 ≡ ok a
      → (r ≡ ok a)
        × ((settle before (continue (λ x. (do attempt e; pure x)) r w)).1.tables ≡ w.tables)
  settle-eq-ok before (ok x) w e a h = elim (Bool-cases (w.answers w.queries)) [
    | inl here ↦ ground (arith, here)
    | inr away ↦ absurd (ground (arith, away))
  ]
  settle-eq-ok before (err x) w e a h = cc

  -- A transaction that succeeds has done what its body does.
  pub transaction-eq-ok :
      {A : Type 0} (e : E) (body : Db E A) (w : World) (a : A)
      → (transaction e body w).0 ≡ ok a
      → let w' : World = record w { queries = w.queries + 1 } in
        ((body w').0 ≡ ok a) × ((transaction e body w).1.tables ≡ (body w').1.tables)
  transaction-eq-ok e body w a h = elim (Bool-cases (w.answers w.queries)) [
    | inl here ↦
        let w' : World = record w { queries = w.queries + 1 } in
        rw here (settle-eq-ok w.tables (body w').0 (body w').1 e a (rw here at h))
    | inr away ↦ absurd (ground (arith, away))
  ]

  -- A step that keeps a property of the tables, whatever it returns.
  pub >>=_keeps :
      {A B : Type 0} (P : Tables → Type 0) (m : Db E A) (f : A → Db E B) (w : World)
      → P (m w).1.tables
      → ((a : A) (w' : World) → P w'.tables → P (f a w').1.tables)
      → P ((m >>= f) w).1.tables
  >>=_keeps P m f w p k = >>=_holds (λ w'. P w'.tables) m f w p (λ a e. k a (m w).1 p)

  -- A statement that only reads, and one that reads and works on what it has read.
  pub select_keeps :
      {A : Type 0} (P : World → Type 0) (e : E) (read : Tables → A) (w : World)
      → P (record w { queries = w.queries + 1 })
      → P (select e read w).1
  select_keeps P e read w p = elim (Bool-cases (w.answers w.queries)) [
    | inl here ↦ rw here p
    | inr away ↦ rw away p
  ]

  pub select_pure_keeps :
      {A B : Type 0} (P : World → Type 0) (e : E) (read : Tables → A) (f : A → B) (w : World)
      → P (record w { queries = w.queries + 1 })
      → P ((select e read >>= λ a. pure (f a)) w).1
  select_pure_keeps P e read f w p = elim (Bool-cases (w.answers w.queries)) [
    | inl here ↦ rw here p
    | inr away ↦ rw away p
  ]

  -- What a statement has read.
  pub select-eq-ok :
      {A : Type 0} (e : E) (read : Tables → A) (w : World) (a : A)
      → (select e read w).0 ≡ ok a
      → a ≡ read w.tables
  select-eq-ok e read w a h = elim (Bool-cases (w.answers w.queries)) [
    | inl here ↦ cc (rw here at h)
    | inr away ↦ cc (rw away at h)
  ]
