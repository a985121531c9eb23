-- ===== src/Connection/Reach.antt =====
-- The managers that the calls of domain/connection/manager.rs lead to.
use ara_chat_service.Base.{
  ℕ, ◌≤◌, ◌<◌, ◌^◌, Bool, false, List, [], ◌∷◌, some, ◌≡◌, refl, sym, ◌∙◌, arith, length,
  Option-cases, inl, inr,
}
use ara_chat_service.Base.Map.{
  get, has, insert, HasDistinctKeys, insert-HasDistinctKeys, length-insert, has_of_get,
}
use ara_chat_service.Connection.{
  Channel, Connection, ConnectionManager, ConnectionLimits, ok, register, unregister,
  unregister_each, conns_of, with_limits,
}
use ara_chat_service.Connection.Channels.{
  transmit, send_each, send_to_user, send_to_connection, send_to_user_filtered, broadcast_each,
  broadcast, cleanup_stale_connections,
}
use ara_chat_service.Connection.Owned.{owned_by, owned_by-insert}
use ara_chat_service.Connection.Index.{IsValid, with_limits-IsValid}
use ara_chat_service.Connection.Calls.{register-Registers, stored_inversion, unregister_lem}
use ara_chat_service.Connection.Delivery.{send_to_user_filtered-IsValid}
use ara_chat_service.Connection.Cleanup.{cleanup_exact}

module _ {Sender Msg : Type 0} (channel : Channel Sender Msg) where
  -- One call. A registered connection has a new id, as `Uuid::new_v4` gives it.
  pub data Step (m : ConnectionManager Sender) : ConnectionManager Sender → Type 0 where
    registers :
        (c : Connection Sender) (m' : ConnectionManager Sender)
        → has c.id m.connections ≡ false
        → register m c ≡ ok m'
        → Step m m'
    unregisters : (id : ℕ) → Step m (unregister m id).0
    sends : (user_id : ℕ) (message : Msg) → Step m (send_to_user channel m user_id message)
    sends_to_connection :
        (id : ℕ) (message : Msg) → Step m (send_to_connection channel m id message).0
    sends_filtered :
        (user_id conversation_id : ℕ) (message : Msg) (is_system : Bool)
        → Step m (send_to_user_filtered channel m user_id conversation_id message is_system).0
    broadcasts : (message : Msg) → Step m (broadcast channel m message)
    cleans_up : Step m (cleanup_stale_connections channel m).0

  pub data Reach (m : ConnectionManager Sender) : ConnectionManager Sender → Type 0 where
    here : Reach m m
    next : {n o : ConnectionManager Sender} → Reach m n → Step n o → Reach m o

  -- A table with the same owners under distinct ids.
  retable-IsValid :
      (m : ConnectionManager Sender) (conns : List (ℕ × Connection Sender))
      → IsValid m
      → HasDistinctKeys conns
      → ((u : ℕ) → owned_by u conns ≡ owned_by u m.connections)
      → length conns ≡ length m.connections
      → IsValid (record m { connections = conns })
  retable-IsValid m conns v d same n = record {
    distinct = d;
    users_distinct = v.users_distinct;
    indexed = λ u. v.indexed u ∙ sym (same u);
    nonempty = v.nonempty;
    counted = v.counted ∙ sym n;
    within = v.within;
    per_user = v.per_user;
    usize = v.usize;
    some_allowed = v.some_allowed;
  }

  -- What sending to a list of ids keeps of a table.
  abbrev Keeps : List (ℕ × Connection Sender) → List (ℕ × Connection Sender) → Type 0
  Keeps conns conns' =
      (HasDistinctKeys conns → HasDistinctKeys conns')
      × ((u : ℕ) → owned_by u conns' ≡ owned_by u conns)
      × (length conns' ≡ length conns)

  insert-Keeps :
      (id : ℕ) (c c' : Connection Sender) (conns : List (ℕ × Connection Sender))
      → get id conns ≡ some c
      → c'.user_id ≡ c.user_id
      → Keeps conns (insert id c' conns)
  insert-Keeps id c c' conns e h = (
    insert-HasDistinctKeys id c' conns,
    λ u. owned_by-insert u id c c' conns e h,
    ground (arith, length-insert id c' conns, has_of_get id conns c e),
  )

  Keeps-trans : (a b c : List (ℕ × Connection Sender)) → Keeps a b → Keeps b c → Keeps a c
  Keeps-trans a b c p q = (λ d. q.0 (p.0 d), λ u. q.1 u ∙ p.1 u, q.2 ∙ p.2)

  send_each-Keeps :
      (message : Msg) (ids : List ℕ) (conns : List (ℕ × Connection Sender))
      → Keeps conns (send_each channel message ids conns)
  unfolding send_each
  send_each-Keeps message [] conns = (λ d. d, λ u. refl, refl)
  send_each-Keeps message (id ∷ ids) conns = elim (Option-cases (get id conns)) [
    | inl e ↦ rw (e, send_each) (send_each-Keeps message ids conns)
    | inr (c, e) ↦
        let c' = (transmit channel c message).0 in
        rw (e, send_each)
          (Keeps-trans conns (insert id c' conns) _ (insert-Keeps id c c' conns e refl)
            (send_each-Keeps message ids (insert id c' conns)))
  ]

  has-broadcast_each :
      (message : Msg) (j : ℕ) (conns : List (ℕ × Connection Sender))
      → has j (broadcast_each channel message conns) ≡ has j conns
  has-broadcast_each message j [] = refl
  has-broadcast_each message j ((i, c) ∷ conns) = ground (arith, has-broadcast_each message j conns)

  broadcast_each-Keeps :
      (message : Msg) (conns : List (ℕ × Connection Sender))
      → Keeps conns (broadcast_each channel message conns)
  unfolding owned_by
  broadcast_each-Keeps message [] = (λ d. d, λ u. refl, refl)
  broadcast_each-Keeps message ((i, c) ∷ conns) =
      let (d, same, n) = broadcast_each-Keeps message conns in
      (
        λ h. ground (arith, d h.1, has-broadcast_each message i conns),
        λ u. ground (arith, same u),
        ground (arith, n),
      )

  send_to_connection-IsValid :
      (m : ConnectionManager Sender) (id : ℕ) (message : Msg)
      → IsValid m
      → IsValid (send_to_connection channel m id message).0
  unfolding send_to_connection
  send_to_connection-IsValid m id message v = elim (Option-cases (get id m.connections)) [
    | inl e ↦ rw (e, send_to_connection) v
    | inr (c, e) ↦
        let (d, same, n) = insert-Keeps id c (transmit channel c message).0 m.connections e refl in
        rw (e, send_to_connection) (retable-IsValid m _ v (d v.distinct) same n)
  ]

  pub Step-IsValid : {m n : ConnectionManager Sender} → Step m n → IsValid m → IsValid n
  unfolding send_to_user broadcast
  Step-IsValid {m} (registers c m' fresh e) v =
      (stored_inversion m c (register m c) m' (register-Registers m c v fresh) e).0
  Step-IsValid {m} (unregisters id) v = (unregister_lem m id v).0
  Step-IsValid {m} (sends user_id message) v =
      let (d, same, n) = send_each-Keeps message (conns_of m user_id) m.connections in
      retable-IsValid m _ v (d v.distinct) same n
  Step-IsValid {m} (sends_to_connection id message) v = send_to_connection-IsValid m id message v
  Step-IsValid {m} (sends_filtered user_id conversation_id message is_system) v =
      send_to_user_filtered-IsValid channel conversation_id message is_system m user_id v
  Step-IsValid {m} (broadcasts message) v =
      let (d, same, n) = broadcast_each-Keeps message m.connections in
      retable-IsValid m _ v (d v.distinct) same n
  Step-IsValid {m} cleans_up v = (cleanup_exact channel m v).0

  unregister-limits :
      (m : ConnectionManager Sender) (id : ℕ) → (unregister m id).0.limits ≡ m.limits
  unfolding unregister
  unregister-limits m id = ground arith

  unregister_each-limits :
      (ids : List ℕ) (m : ConnectionManager Sender) → (unregister_each ids m).limits ≡ m.limits
  unfolding unregister_each
  unregister_each-limits [] m = refl
  unregister_each-limits (id ∷ ids) m =
      unregister_each-limits ids (unregister m id).0 ∙ unregister-limits m id

  Step-limits : {m n : ConnectionManager Sender} → Step m n → n.limits ≡ m.limits
  unfolding register send_to_user send_to_connection send_to_user_filtered broadcast
      cleanup_stale_connections
  Step-limits {m} (registers c m' fresh e) = ground arith
  Step-limits {m} (unregisters id) = unregister-limits m id
  Step-limits {m} (sends user_id message) = refl
  Step-limits {m} (sends_to_connection id message) = ground arith
  Step-limits {m} (sends_filtered user_id conversation_id message is_system) = refl
  Step-limits {m} (broadcasts message) = refl
  Step-limits {m} cleans_up = unregister_each-limits _ m

  Reach-IsValid :
      {m n : ConnectionManager Sender} → IsValid m → Reach m n → IsValid n × (n.limits ≡ m.limits)
  Reach-IsValid v here = (v, refl)
  Reach-IsValid v (next r s) =
      let (w, l) = Reach-IsValid v r in (Step-IsValid s w, Step-limits s ∙ l)

  -- From a new manager with a total limit below 2^64 and at least one connection allowed per user,
  -- every sequence of calls, with new connections under new ids, leads to a manager with the same
  -- limits, whose index and counter are those of its table, and which has no more connections, in
  -- all and for each user, than the limits allow.
  pub reachable-IsValid :
      (limits : ConnectionLimits) (m : ConnectionManager Sender)
      → limits.max_connections < 2 ^ 64
      → 0 < limits.max_connections_per_user
      → Reach (with_limits limits) m
      → IsValid m
        × (m.limits ≡ limits)
        × (length m.connections ≤ limits.max_connections)
        × ((u : ℕ) → length (owned_by u m.connections) ≤ limits.max_connections_per_user)
  unfolding with_limits
  reachable-IsValid limits m h k r =
      let (v, l) = Reach-IsValid (with_limits-IsValid limits h k) r in
      (
        v,
        l,
        ground (arith, v.counted, v.within, l),
        λ u. ground (arith, v.per_user u, v.indexed u, l),
      )
