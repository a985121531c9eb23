-- ===== src/Connection/Index.antt =====
-- The index by user and the counter of domain/connection/manager.rs, against the table.
use ara_chat_service.Base.{
  ℕ, ◌≤◌, ◌<◌, ◌+◌, ◌^◌, ◌++◌, true, false, not, List, [], ◌∷◌, Option, none, some, ◌≡◌, ◌≢◌, refl,
  arith, ◌==◌, if◌then◌else◌, length, length-append, length-keep-le, contains, keep, inl, inr,
  Option-cases, is_empty,
}
use ara_chat_service.Base.Map.{
  get, has, insert, HasDistinctKeys, get-insert, get-remove, insert-HasDistinctKeys,
  remove-HasDistinctKeys, length-insert, length-remove, insert_absent, has_of_get,
}
use ara_chat_service.Connection.{
  Connection, ConnectionManager, ConnectionLimits, store, withdraw, forget, conns_of, with_limits,
}
use ara_chat_service.Connection.Owned.{owned_by, owned_by-snoc, owned_by-remove, contains-owned_by}

pub record IsValid {Sender : Type 0} (m : ConnectionManager Sender) : Type 0 where
  pub distinct : HasDistinctKeys m.connections
  pub users_distinct : HasDistinctKeys m.user_connections
  pub indexed : (u : ℕ) → conns_of m u ≡ owned_by u m.connections
  pub nonempty : (u : ℕ) → get u m.user_connections ≢ some []
  pub counted : m.total_connections ≡ length m.connections
  pub within : m.total_connections ≤ m.limits.max_connections
  pub per_user : (u : ℕ) → length (conns_of m u) ≤ m.limits.max_connections_per_user
  pub usize : m.limits.max_connections < 2 ^ 64
  pub some_allowed : 0 < m.limits.max_connections_per_user

length-snoc : (xs : List ℕ) (a : ℕ) → length (xs ++ a ∷ []) ≡ length xs + 1
length-snoc xs a = omega (arith, length-append xs (a ∷ []))

snoc-ne-nil : (xs : List ℕ) (a : ℕ) → xs ++ a ∷ [] ≢ []
snoc-ne-nil [] a e = cc
snoc-ne-nil (x ∷ xs) a e = cc

pub nil_of_is_empty : (xs : List ℕ) → is_empty xs ≡ true → xs ≡ []
nil_of_is_empty [] e = refl
nil_of_is_empty (x ∷ xs) e = cc

-- A user's entry after `forget`.
abbrev shrunk : ℕ → Option (List ℕ) → Option (List ℕ)
shrunk id none = none
shrunk id (some ids) =
    let rest = keep (λ j. not (j == id)) ids in if is_empty rest then none else some rest

keep_ne_absent : (id : ℕ) (xs : List ℕ) → contains id xs ≡ false → keep (λ j. not (j == id)) xs ≡ xs
keep_ne_absent id [] h = refl
keep_ne_absent id (x ∷ xs) h = ground (arith, keep_ne_absent id xs)

get-forget :
    (user_id id u : ℕ) (index : List (ℕ × List ℕ))
    → get u (forget user_id id index)
      ≡ (if user_id == u then shrunk id (get user_id index) else get u index)
get-forget user_id id u index = elim (Option-cases (get user_id index)) [
  | inl e ↦ rw (e, forget) (ground arith)
  | inr (ids, e) ↦
      let rest = keep (λ j. not (j == id)) ids in
      rw (e, forget)
        (ground (
          arith,
          get-insert user_id u rest index,
          get-remove user_id u (insert user_id rest index),
        ))
]

forget-HasDistinctKeys :
    (user_id id : ℕ) (index : List (ℕ × List ℕ))
    → HasDistinctKeys index
    → HasDistinctKeys (forget user_id id index)
forget-HasDistinctKeys user_id id index d = elim (Option-cases (get user_id index)) [
  | inl e ↦ rw (e, forget) d
  | inr (ids, e) ↦
      let rest = keep (λ j. not (j == id)) ids in
      let d' = insert-HasDistinctKeys user_id rest index d in
      rw (e, forget)
        (ground (arith, d', remove-HasDistinctKeys user_id (insert user_id rest index) d'))
]

module _ {Sender : Type 0} where
  -- A new manager is valid.
  pub with_limits-IsValid :
      (limits : ConnectionLimits)
      → limits.max_connections < 2 ^ 64
      → 0 < limits.max_connections_per_user
      → IsValid (with_limits {Sender = Sender} limits)
  unfolding with_limits owned_by
  with_limits-IsValid limits h k = record {
    distinct = tt;
    users_distinct = tt;
    indexed = λ u. refl;
    nonempty = λ u e. cc;
    counted = refl;
    within = omega arith;
    per_user = λ u. omega arith;
    usize = h;
    some_allowed = k;
  }

  conns_of-store :
      (m : ConnectionManager Sender) (c : Connection Sender) (u : ℕ)
      → conns_of (store m c) u
        ≡ (if c.user_id == u then conns_of m c.user_id ++ c.id ∷ [] else conns_of m u)
  conns_of-store m c u =
      ground (arith, get-insert c.user_id u (conns_of m c.user_id ++ c.id ∷ []) m.user_connections)

  store-indexed :
      (m : ConnectionManager Sender) (c : Connection Sender) (u : ℕ)
      → IsValid m
      → has c.id m.connections ≡ false
      → conns_of (store m c) u ≡ owned_by u (store m c).connections
  store-indexed m c u v fresh =
      rw
        (
          conns_of-store m c u,
          insert_absent c.id c m.connections fresh,
          owned_by-snoc u c.id c m.connections,
        )
        (ground (arith, v.indexed u, v.indexed c.user_id))

  pub store-IsValid :
      (m : ConnectionManager Sender) (c : Connection Sender)
      → IsValid m
      → has c.id m.connections ≡ false
      → m.total_connections < m.limits.max_connections
      → length (conns_of m c.user_id) < m.limits.max_connections_per_user
      → IsValid (store m c)
  store-IsValid m c v fresh total user = record {
    distinct = insert-HasDistinctKeys c.id c m.connections v.distinct;
    users_distinct = insert-HasDistinctKeys c.user_id _ m.user_connections v.users_distinct;
    indexed = λ u. store-indexed m c u v fresh;
    nonempty = λ u e. ground (
      arith,
      v.nonempty u,
      snoc-ne-nil (conns_of m c.user_id) c.id,
      get-insert c.user_id u (conns_of m c.user_id ++ c.id ∷ []) m.user_connections,
    );
    counted = ground (arith, length-insert c.id c m.connections, v.counted, v.usize);
    within = ground (arith, v.usize);
    per_user = λ u.
        ground (arith, conns_of-store m c u, v.per_user u, length-snoc (conns_of m c.user_id) c.id);
    usize = v.usize;
    some_allowed = v.some_allowed;
  }

  conns_of-withdraw :
      (m : ConnectionManager Sender) (id : ℕ) (c : Connection Sender) (u : ℕ)
      → conns_of (withdraw m id c) u
        ≡ (if c.user_id == u then keep (λ j. not (j == id)) (conns_of m u) else conns_of m u)
  conns_of-withdraw m id c u = ground (
    arith,
    get-forget c.user_id id u m.user_connections,
    nil_of_is_empty (keep (λ j. not (j == id)) (conns_of m u)),
  )

  withdraw-indexed :
      (m : ConnectionManager Sender) (id : ℕ) (c : Connection Sender) (u : ℕ)
      → IsValid m
      → get id m.connections ≡ some c
      → conns_of (withdraw m id c) u ≡ owned_by u (withdraw m id c).connections
  withdraw-indexed m id c u v e =
      rw (conns_of-withdraw m id c u, owned_by-remove u id m.connections)
        (ground (
          arith,
          v.indexed u,
          contains-owned_by u id c m.connections v.distinct e,
          keep_ne_absent id (owned_by u m.connections),
        ))

  pub withdraw-IsValid :
      (m : ConnectionManager Sender) (id : ℕ) (c : Connection Sender)
      → IsValid m
      → get id m.connections ≡ some c
      → IsValid (withdraw m id c)
  withdraw-IsValid m id c v e = record {
    distinct = remove-HasDistinctKeys id m.connections v.distinct;
    users_distinct = forget-HasDistinctKeys c.user_id id m.user_connections v.users_distinct;
    indexed = λ u. withdraw-indexed m id c u v e;
    nonempty = λ u h. ground (arith, get-forget c.user_id id u m.user_connections, v.nonempty u);
    counted = ground (
      arith,
      length-remove id m.connections v.distinct,
      has_of_get id m.connections c e,
      v.counted,
      v.usize,
      v.within,
    );
    within = ground (
      arith,
      length-remove id m.connections v.distinct,
      has_of_get id m.connections c e,
      v.counted,
      v.usize,
      v.within,
    );
    per_user = λ u. ground (
      arith,
      conns_of-withdraw m id c u,
      v.per_user u,
      length-keep-le (λ j. not (j == id)) (conns_of m u),
    );
    usize = v.usize;
    some_allowed = v.some_allowed;
  }
