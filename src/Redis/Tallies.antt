-- ===== src/Redis/Tallies.antt =====
-- Pipelines of Redis on counters, and what Redis documents of them.
use ara_chat_service.Base.{ℕ, suc, ◌-◌, ◌≤◌, ◌≡◌, Bool, List, [], ◌∷◌, some, if◌then◌else◌}
use ara_chat_service.Redis.{Command, unwrap_or}

pub data TallyOp (Key : Type 0) : Type 0 where
  incr del : Key → TallyOp Key
  decr : Key → ℕ → TallyOp Key
  expire : Key → ℕ → TallyOp Key

pub record RedisTallies (S Key : Type 0) : Type 0 where
  pub get_connection : Command S (Unit {0})
  -- The answers of `INCR` in a pipeline.
  pub pipe : List (TallyOp Key) → Command S (List ℕ)
  -- An error also where the value is no number of 64 bits.
  pub get : Key → Command S ℕ

-- The value at each key, 0 where there is none.
abbrev pub Tally : Type 0 → Type 0
Tally Key = Key → ℕ

module _ {Key : Type 0} (same : Key → Key → Bool) where
  abbrev pub apply : TallyOp Key → Tally Key → Tally Key
  apply (incr k) v j = if same k j then suc (v j) else v j
  apply (del k) v j = if same k j then 0 else v j
  apply (decr k n) v j = if same k j then v j - n else v j
  apply (expire k seconds) v j = v j

  abbrev pub apply_all : List (TallyOp Key) → Tally Key → Tally Key
  apply_all [] v = v
  apply_all (op ∷ ops) v = apply_all ops (apply op v)

  -- No `DECR` takes more than there is.
  abbrev pub CanApply : List (TallyOp Key) → Tally Key → Type 0
  CanApply [] v = Unit {0}
  CanApply (incr k ∷ ops) v = CanApply ops (apply (incr k) v)
  CanApply (del k ∷ ops) v = CanApply ops (apply (del k) v)
  CanApply (decr k n ∷ ops) v = (n ≤ v k) × CanApply ops (apply (decr k n) v)
  CanApply (expire k seconds ∷ ops) v = CanApply ops v

  abbrev pub answers : List (TallyOp Key) → Tally Key → List ℕ
  answers [] v = []
  answers (incr k ∷ ops) v = suc (v k) ∷ answers ops (apply (incr k) v)
  answers (del k ∷ ops) v = answers ops (apply (del k) v)
  answers (decr k n ∷ ops) v = answers ops (apply (decr k n) v)
  answers (expire k seconds ∷ ops) v = answers ops v

  -- What Redis documents of these commands where they succeed and no key lapses; `at s` are the
  -- values. A value that is missing is answered by an error.
  pub record Documented {S : Type 0} (r : RedisTallies S Key) (at : S → Tally Key) : Type 0 where
    pub connected :
        (k : Key) (s : S) → (r.get_connection s).0 ≡ some tt → at (r.get_connection s).1 k ≡ at s k
    pub piped :
        (ops : List (TallyOp Key)) (k : Key) (s : S) (ns : List ℕ)
        → CanApply ops (at s)
        → (r.pipe ops s).0 ≡ some ns
        → at (r.pipe ops s).1 k ≡ apply_all ops (at s) k
    pub answered :
        (ops : List (TallyOp Key)) (s : S) (ns : List ℕ)
        → CanApply ops (at s)
        → (r.pipe ops s).0 ≡ some ns
        → ns ≡ answers ops (at s)
    pub gets : (k : Key) (s : S) (n : ℕ) → (r.get k s).0 ≡ some n → n ≡ at s k
    pub get_keeps : (k j : Key) (s : S) → at (r.get k s).1 j ≡ at s j

  -- Every command is answered, and `GET` answers the value, or an error where there is none.
  pub record IsUp {S : Type 0} (r : RedisTallies S Key) (at : S → Tally Key) : Type 0 where
    pub connects : (s : S) → (r.get_connection s).0 ≡ some tt
    pub pipes : (ops : List (TallyOp Key)) (s : S) → (ns : List ℕ) × ((r.pipe ops s).0 ≡ some ns)
    pub reads : (k : Key) (s : S) → unwrap_or 0 (r.get k s).0 ≡ at s k
