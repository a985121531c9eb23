-- ===== src/Connection/Delivery.antt =====
-- Who gets a message that `send_to_user_filtered` of domain/connection/manager.rs sends.
use mathlib.Core.Option
use ara_chat_service.Base.{
  ℕ, Bool, false, ◌&&◌, List, [], ◌∷◌, none, some, ◌≡◌, refl, sym, ◌∙◌, arith, ◌==◌, if◌then◌else◌,
  length, contains, keep, inl, inr, Option-cases, IsDistinct,
}
use ara_chat_service.Base.Map.{
  get, insert, HasDistinctKeys, get-insert, length-insert, insert-HasDistinctKeys, has_of_get,
}
use ara_chat_service.Subscription
use ara_chat_service.Connection.{Channel, Connection, ConnectionManager, conns_of}
use ara_chat_service.Connection.Channels.{transmit, send_filtered_each, send_to_user_filtered}
use ara_chat_service.Connection.Owned.{
  owned_by, owned_by-insert, owned_by-IsDistinct, contains-owned_by,
}
use ara_chat_service.Connection.Index.{IsValid}

module _ {Sender Msg : Type 0} (channel : Channel Sender Msg) (conversation_id : ℕ) (message : Msg)
    (is_system : Bool) where
  -- Whether a connection lets the message through, and what becomes of it.
  abbrev pub wants : Connection Sender → Bool
  wants c = Subscription.should_receive c.subscriptions conversation_id is_system

  abbrev pub deliver : Connection Sender → Connection Sender
  deliver c = if wants c then (transmit channel c message).0 else c

  -- Whether the connection with this id takes the message.
  abbrev pub takes : List (ℕ × Connection Sender) → ℕ → Bool
  takes conns id = elim (get id conns) [
    | none ↦ false
    | some c ↦ wants c && (transmit channel c message).1
  ]

  abbrev each : List ℕ → List (ℕ × Connection Sender) → List (ℕ × Connection Sender) × ℕ × ℕ
  each = send_filtered_each channel conversation_id message is_system

  get-each :
      (j : ℕ) (ids : List ℕ) (conns : List (ℕ × Connection Sender))
      → IsDistinct ids
      → get j (each ids conns).0
        ≡ (if contains j ids then Option.map deliver (get j conns) else get j conns)
  unfolding send_filtered_each
  get-each j [] conns d = refl
  get-each j (id ∷ ids) conns d = elim (Option-cases (get id conns)) [
    | inl e ↦ ground (arith, e, get-each j ids conns d.1)
    | inr (c, e) ↦
        let conns' = insert id (transmit channel c message).0 conns in
        ground (
          arith,
          e,
          get-each j ids conns d.1,
          get-each j ids conns' d.1,
          get-insert id j (transmit channel c message).0 conns,
        )
  ]

  each-HasDistinctKeys :
      (ids : List ℕ) (conns : List (ℕ × Connection Sender))
      → HasDistinctKeys conns
      → HasDistinctKeys (each ids conns).0
  unfolding send_filtered_each
  each-HasDistinctKeys [] conns d = d
  each-HasDistinctKeys (id ∷ ids) conns d = elim (Option-cases (get id conns)) [
    | inl e ↦ ground (arith, e, each-HasDistinctKeys ids conns d)
    | inr (c, e) ↦
        let conns' = insert id (transmit channel c message).0 conns in
        ground (
          arith,
          e,
          each-HasDistinctKeys ids conns d,
          each-HasDistinctKeys ids conns' (insert-HasDistinctKeys id _ conns d),
        )
  ]

  -- The table keeps its size, and each user their connections.
  each_owned :
      (u : ℕ) (ids : List ℕ) (conns : List (ℕ × Connection Sender))
      → (owned_by u (each ids conns).0 ≡ owned_by u conns)
        × (length (each ids conns).0 ≡ length conns)
  unfolding send_filtered_each
  each_owned u [] conns = (refl, refl)
  each_owned u (id ∷ ids) conns = elim (Option-cases (get id conns)) [
    | inl e ↦ ground (arith, e, each_owned u ids conns)
    | inr (c, e) ↦
        let c' = (transmit channel c message).0 in
        ground (
          arith,
          e,
          each_owned u ids conns,
          each_owned u ids (insert id c' conns),
          owned_by-insert u id c c' conns e,
          length-insert id c' conns,
          has_of_get id conns c e,
        )
  ]

  takes-insert :
      (id : ℕ) (c : Connection Sender) (ids : List ℕ) (conns : List (ℕ × Connection Sender))
      → contains id ids ≡ false
      → keep (takes (insert id c conns)) ids ≡ keep (takes conns) ids
  takes-insert id c [] conns h = refl
  takes-insert id c (j ∷ ids) conns h =
      ground (arith, get-insert id j c conns, takes-insert id c ids conns)

  -- The count, for distinct ids: those that take the message.
  each-delivered :
      (ids : List ℕ) (conns : List (ℕ × Connection Sender))
      → IsDistinct ids
      → (each ids conns).1 ≡ length (keep (takes conns) ids)
  unfolding send_filtered_each
  each-delivered [] conns d = refl
  each-delivered (id ∷ ids) conns d = elim (Option-cases (get id conns)) [
    | inl e ↦ ground (arith, e, each-delivered ids conns d.1)
    | inr (c, e) ↦
        let c' = (transmit channel c message).0 in
        ground (
          arith,
          e,
          each-delivered ids conns d.1,
          each-delivered ids (insert id c' conns) d.1,
          takes-insert id c' ids conns d.0,
        )
  ]

  module _ (m : ConnectionManager Sender) (user_id : ℕ) where
    abbrev sent : ConnectionManager Sender × ℕ
    sent = send_to_user_filtered channel m user_id conversation_id message is_system

    -- The manager stays valid.
    pub send_to_user_filtered-IsValid : IsValid m → IsValid sent.0
    unfolding send_to_user_filtered
    send_to_user_filtered-IsValid v = record {
      distinct = each-HasDistinctKeys (conns_of m user_id) m.connections v.distinct;
      users_distinct = v.users_distinct;
      indexed = λ u. v.indexed u ∙ sym (each_owned u (conns_of m user_id) m.connections).0;
      nonempty = v.nonempty;
      counted = v.counted ∙ sym (each_owned user_id (conns_of m user_id) m.connections).1;
      within = v.within;
      per_user = v.per_user;
      usize = v.usize;
      some_allowed = v.some_allowed;
    }

    -- Every connection of the user that wants the message gets it, no other connection is touched,
    -- and the result counts the connections that took it.
    pub send_to_user_filtered_exact :
        IsValid m
        → ((j : ℕ) (c : Connection Sender)
            → get j m.connections ≡ some c
            → get j sent.0.connections ≡ some (if c.user_id == user_id then deliver c else c))
          × (sent.1 ≡ length (keep (takes m.connections) (owned_by user_id m.connections)))
    unfolding send_to_user_filtered
    send_to_user_filtered_exact v =
        let d = owned_by-IsDistinct user_id m.connections v.distinct in
        (
          λ j c e. rw (v.indexed user_id) (
              ground (
                arith,
                get-each j (owned_by user_id m.connections) m.connections d,
                contains-owned_by user_id j c m.connections v.distinct e,
              )),
          rw (v.indexed user_id) (each-delivered (owned_by user_id m.connections) m.connections d),
        )
