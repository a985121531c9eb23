-- ===== src/Connection/Cleanup.antt =====
-- What `cleanup_stale_connections` of domain/connection/manager.rs takes away.
use ara_chat_service.Base.{
  ℕ, ◌+◌, true, false, not, List, [], ◌∷◌, none, some, ◌≡◌, refl, ap, arith, if◌then◌else◌, length,
  contains, IsDistinct,
}
use ara_chat_service.Base.Map.{
  get, has, remove, HasDistinctKeys, get-remove, has-remove, length-remove,
}
use ara_chat_service.Connection.{
  Channel, Connection, ConnectionManager, unregister, unregister_each,
}
use ara_chat_service.Connection.Channels.{is_alive, stale_ids, cleanup_stale_connections}
use ara_chat_service.Connection.Index.{IsValid}
use ara_chat_service.Connection.Calls.{unregister_lem}

module _ {Sender : Type 0} where
  unregister_each-IsValid :
      (ids : List ℕ) (m : ConnectionManager Sender) → IsValid m → IsValid (unregister_each ids m)
  unfolding unregister_each
  unregister_each-IsValid [] m v = v
  unregister_each-IsValid (id ∷ ids) m v =
      unregister_each-IsValid ids (unregister m id).0 (unregister_lem m id v).0

  get-unregister_each :
      (j : ℕ) (ids : List ℕ) (m : ConnectionManager Sender)
      → IsValid m
      → get j (unregister_each ids m).connections
        ≡ (if contains j ids then none else get j m.connections)
  unfolding unregister_each
  get-unregister_each j [] m v = refl
  get-unregister_each j (id ∷ ids) m v =
      let (w, table, _) = unregister_lem m id v in
      ground (
        arith,
        get-unregister_each j ids (unregister m id).0 w,
        ap (get j) table,
        get-remove id j m.connections,
      )

  -- Each id has an entry.
  abbrev Present : List ℕ → List (ℕ × Connection Sender) → Type 0
  Present [] conns = Unit {0}
  Present (id ∷ ids) conns = (has id conns ≡ true) × Present ids conns

  Present-remove :
      (id : ℕ) (ids : List ℕ) (conns : List (ℕ × Connection Sender))
      → contains id ids ≡ false
      → Present ids conns
      → Present ids (remove id conns)
  Present-remove id [] conns h p = tt
  Present-remove id (j ∷ ids) conns h p =
      ground (arith, has-remove id j conns, Present-remove id ids conns)

  length-unregister_each :
      (ids : List ℕ) (m : ConnectionManager Sender)
      → IsValid m
      → IsDistinct ids
      → Present ids m.connections
      → length ids + length (unregister_each ids m).connections ≡ length m.connections
  unfolding unregister_each
  length-unregister_each [] m v d p = omega arith
  length-unregister_each (id ∷ ids) m v d p =
      let (w, table, _) = unregister_lem m id v in
      let p' = Present-remove id ids m.connections d.0 p.1 in
      ground (
        arith,
        length-unregister_each ids (unregister m id).0 w d.1 (rw table p'),
        ap length table,
        length-remove id m.connections v.distinct,
      )

module _ {Sender Msg : Type 0} (channel : Channel Sender Msg) where
  contains-stale_ids_absent :
      (j : ℕ) (conns : List (ℕ × Connection Sender))
      → has j conns ≡ false
      → contains j (stale_ids channel conns) ≡ false
  contains-stale_ids_absent j [] h = refl
  contains-stale_ids_absent j ((i, c) ∷ conns) h = ground (arith, contains-stale_ids_absent j conns)

  contains-stale_ids :
      (j : ℕ) (c : Connection Sender) (conns : List (ℕ × Connection Sender))
      → HasDistinctKeys conns
      → get j conns ≡ some c
      → contains j (stale_ids channel conns) ≡ not (is_alive channel c)
  contains-stale_ids j c [] d e = cc
  contains-stale_ids j c ((i, b) ∷ conns) d e =
      ground (arith, contains-stale_ids j c conns d.1, contains-stale_ids_absent i conns)

  stale_ids-IsDistinct :
      (conns : List (ℕ × Connection Sender))
      → HasDistinctKeys conns
      → IsDistinct (stale_ids channel conns)
  stale_ids-IsDistinct [] d = tt
  stale_ids-IsDistinct ((i, b) ∷ conns) d =
      ground (arith, stale_ids-IsDistinct conns d.1, contains-stale_ids_absent i conns)

  Present-cons :
      (i : ℕ) (b : Connection Sender) (ids : List ℕ) (conns : List (ℕ × Connection Sender))
      → Present ids conns
      → Present ids ((i, b) ∷ conns)
  Present-cons i b [] conns p = tt
  Present-cons i b (j ∷ ids) conns p = ground (arith, Present-cons i b ids conns p.1)

  stale_ids-Present :
      (conns : List (ℕ × Connection Sender)) → Present (stale_ids channel conns) conns
  stale_ids-Present [] = tt
  stale_ids-Present ((i, b) ∷ conns) =
      ground (arith, Present-cons i b (stale_ids channel conns) conns (stale_ids-Present conns))

  -- Just the connections whose channel is closed go, the others stay as they are, the result counts
  -- those that went, and the manager stays valid.
  pub cleanup_exact :
      (m : ConnectionManager Sender)
      → IsValid m
      → let r = cleanup_stale_connections channel m in
        IsValid r.0
        × ((j : ℕ) (c : Connection Sender)
            → get j m.connections ≡ some c
            → get j r.0.connections ≡ (if is_alive channel c then some c else none))
        × (r.1 + length r.0.connections ≡ length m.connections)
  unfolding cleanup_stale_connections
  cleanup_exact m v =
      let ids = stale_ids channel m.connections in
      (
        unregister_each-IsValid ids m v,
        λ j c e. ground (
          arith,
          get-unregister_each j ids m v,
          contains-stale_ids j c m.connections v.distinct e,
        ),
        length-unregister_each ids m v (stale_ids-IsDistinct m.connections v.distinct)
            (stale_ids-Present m.connections),
      )
