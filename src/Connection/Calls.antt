-- ===== src/Connection/Calls.antt =====
-- `register`, `unregister` and the queries of domain/connection/manager.rs, seen as operations on
-- the bare table of connections.
use mathlib.Core.Path.{subst}
use ara_chat_service.Base.{
  ℕ, ◌≤◌, ◌<◌, ◌++◌, false, not, List, [], ◌∷◌, some, ◌≡◌, refl, sym, ap, ◌∙◌, arith, leb, length,
  inl, inr, Bool-cases, Option-cases, is_empty,
}
use ara_chat_service.Base.Map.{
  get, has, remove, insert_absent, remove_absent, has_of_get-none, has_of_get,
}
use ara_chat_service.Connection.{
  Connection, ConnectionManager, Registration, ok, err, total_limit_exceeded, user_limit_exceeded,
  register, unregister, store, conns_of, has_user, user_connection_count, user_is_full,
}
use ara_chat_service.Connection.Owned.{owned_by}
use ara_chat_service.Connection.Index.{IsValid, store-IsValid, withdraw-IsValid, nil_of_is_empty}

module _ {Sender : Type 0} (m : ConnectionManager Sender) where
  user_is_full-owned_by :
      (u : ℕ)
      → IsValid m
      → user_is_full m u ≡ leb m.limits.max_connections_per_user (length (owned_by u m.connections))
  user_is_full-owned_by u v =
      ground (arith, v.indexed u, v.some_allowed, Option-cases (get u m.user_connections))

  -- The outcomes of `register`, by the table alone.
  pub data Registers (c : Connection Sender) (r : Registration (ConnectionManager Sender))
      : Type 0 where
    too_many :
        m.limits.max_connections ≤ length m.connections
        → r ≡ err total_limit_exceeded
        → Registers c r
    user_too_many :
        length m.connections < m.limits.max_connections
        → m.limits.max_connections_per_user ≤ length (owned_by c.user_id m.connections)
        → r ≡ err user_limit_exceeded
        → Registers c r
    stored :
        (m' : ConnectionManager Sender)
        → length m.connections < m.limits.max_connections
        → length (owned_by c.user_id m.connections) < m.limits.max_connections_per_user
        → r ≡ ok m'
        → IsValid m'
        → m'.connections ≡ m.connections ++ (c.id, c) ∷ []
        → Registers c r

  -- `register` of a connection with a new id at a valid manager, whose index and counter are those
  -- of its table and whose limits allow at least one connection per user: refused just when the
  -- table is full or the user has all connections allowed, in this order; otherwise the table gains
  -- the connection, and the manager stays valid.
  pub register-Registers :
      (c : Connection Sender)
      → IsValid m
      → has c.id m.connections ≡ false
      → Registers c (register m c)
  unfolding register
  register-Registers c v fresh =
      elim (Bool-cases (leb m.limits.max_connections m.total_connections)) [
        | inl full ↦ rw full (too_many (ground (arith, v.counted)) refl)
        | inr room ↦ elim (Bool-cases (user_is_full m c.user_id)) [
          | inl full ↦
              rw (room, full)
                (user_too_many (ground (arith, v.counted))
                  (ground (arith, user_is_full-owned_by c.user_id v)) refl)
          | inr free ↦
              rw (room, free)
                (stored (store m c) (ground (arith, v.counted))
                  (ground (arith, user_is_full-owned_by c.user_id v)) refl
                  (store-IsValid m c v fresh (ground arith)
                    (ground (arith, user_is_full-owned_by c.user_id v, v.indexed c.user_id)))
                  (insert_absent c.id c m.connections fresh))
        ]
      ]

  -- `unregister` of an unknown id changes nothing; otherwise it returns the connection, takes it
  -- from the table, and keeps the index and the counter right.
  pub unregister_lem :
      (id : ℕ)
      → IsValid m
      → IsValid (unregister m id).0
        × ((unregister m id).0.connections ≡ remove id m.connections)
        × ((unregister m id).1 ≡ get id m.connections)
  unfolding unregister
  unregister_lem id v = elim (Option-cases (get id m.connections)) [
    | inl e ↦
        rw (e, unregister)
          (
            v,
            ground (arith, remove_absent id m.connections, has_of_get-none id m.connections),
            refl,
          )
    | inr (c, e) ↦ rw (e, unregister) (withdraw-IsValid m id c v e, refl, refl)
  ]

  -- What the queries by user answer is what the table says.
  queries_by_user :
      (u : ℕ)
      → IsValid m
      → (has_user m u ≡ not (is_empty (owned_by u m.connections)))
        × (user_connection_count m u ≡ length (owned_by u m.connections))
  unfolding has_user user_connection_count
  queries_by_user u v = elim (Option-cases (get u m.user_connections)) [
    | inl e ↦ ground (arith, e, v.indexed u, has_of_get-none u m.user_connections)
    | inr (ids, e) ↦ ground (
      arith,
      e,
      v.indexed u,
      v.nonempty u,
      has_of_get u m.user_connections ids e,
      nil_of_is_empty ids,
    )
  ]

  pub stored_inversion :
      (c : Connection Sender) (r : Registration (ConnectionManager Sender))
      (m' : ConnectionManager Sender)
      → Registers c r
      → r ≡ ok m'
      → IsValid m' × (m'.connections ≡ m.connections ++ (c.id, c) ∷ [])
  stored_inversion c r m' (too_many h e) k = absurd (cc)
  stored_inversion c r m' (user_too_many h i e) k = absurd (cc)
  stored_inversion c r m' (stored m'' h i e v t) k =
      subst (λ n. IsValid n × (n.connections ≡ m.connections ++ (c.id, c) ∷ [])) (cc) (v, t)

remove-snoc {ℓ} :
    {V : Type ℓ} (k : ℕ) (v : V) (m : List (ℕ × V))
    → has k m ≡ false
    → (remove k (m ++ (k, v) ∷ []) ≡ m) × (get k (m ++ (k, v) ∷ []) ≡ some v)
remove-snoc k v [] h = (ground arith, ground arith)
remove-snoc k v ((j, w) ∷ m) h = ground (arith, remove-snoc k v m)

module _ {Sender : Type 0} (m m' : ConnectionManager Sender) (c : Connection Sender) where
  -- Unregistering a connection right after it was registered under a new id restores the table, the
  -- index and the counter, and returns the connection.
  pub unregister-register :
      IsValid m
      → has c.id m.connections ≡ false
      → register m c ≡ ok m'
      → ((unregister m' c.id).1 ≡ some c)
        × ((unregister m' c.id).0.connections ≡ m.connections)
        × ((u : ℕ) → conns_of (unregister m' c.id).0 u ≡ conns_of m u)
        × ((unregister m' c.id).0.total_connections ≡ m.total_connections)
  unregister-register v fresh e =
      let (v', t) = stored_inversion m c (register m c) m' (register-Registers m c v fresh) e in
      let (gone, found) = remove-snoc c.id c m.connections fresh in
      let (w, table, result) = unregister_lem m' c.id v' in
      let same : (unregister m' c.id).0.connections ≡ m.connections =
        table ∙ ap (remove c.id) t ∙ gone in
      (
        result ∙ ap (get c.id) t ∙ found,
        same,
        λ u. w.indexed u ∙ ap (owned_by u) same ∙ sym (v.indexed u),
        w.counted ∙ ap length same ∙ sym v.counted,
      )
