-- ===== src/Connection/Channels.antt =====
-- The calls of domain/connection/manager.rs that go through the channels of the connections.
use ara_chat_service.Base.{
  ℕ, ◌+◌, Bool, true, false, not, List, [], ◌∷◌, none, some, if◌then◌else◌, length, wrapping_add,
}
use ara_chat_service.Base.Map.{get, insert}
use ara_chat_service.Subscription
use ara_chat_service.Subscription.{ConnectionSubscriptions}
use ara_chat_service.Connection.{Channel, Connection, ConnectionManager, conns_of, unregister_each}

-- The calls that send.
module _ {Sender Msg : Type 0} (channel : Channel Sender Msg) where
  -- `Connection::send`
  abbrev pub transmit : Connection Sender → Msg → Connection Sender × Bool
  transmit c message =
      let (sender, done) = channel.send c.sender message in (record c { sender = sender }, done)

  abbrev pub is_alive : Connection Sender → Bool
  is_alive c = not (channel.is_closed c.sender)

  -- The loop of `send_to_user`.
  unfoldable pub send_each :
      Msg → List ℕ → List (ℕ × Connection Sender) → List (ℕ × Connection Sender)
  send_each message [] conns = conns
  send_each message (id ∷ ids) conns =
      send_each message ids
        (elim (get id conns) [ none ↦ conns | some c ↦ insert id (transmit c message).0 conns ])

  unfoldable pub send_to_user : ConnectionManager Sender → ℕ → Msg → ConnectionManager Sender
  send_to_user m user_id message = record m {
    connections = send_each message (conns_of m user_id) m.connections;
  }

  unfoldable pub send_to_connection :
      ConnectionManager Sender → ℕ → Msg → ConnectionManager Sender × Bool
  send_to_connection m connection_id message = elim (get connection_id m.connections) [
    | none ↦ (m, false)
    | some c ↦ (
      record m { connections = insert connection_id (transmit c message).0 m.connections },
      (transmit c message).1,
    )
  ]

  abbrev pub broadcast_each : Msg → List (ℕ × Connection Sender) → List (ℕ × Connection Sender)
  broadcast_each message [] = []
  broadcast_each message ((id, c) ∷ conns) =
      (id, (transmit c message).0) ∷ broadcast_each message conns

  unfoldable pub broadcast : ConnectionManager Sender → Msg → ConnectionManager Sender
  broadcast m message = record m { connections = broadcast_each message m.connections }

  abbrev pub stale_ids : List (ℕ × Connection Sender) → List ℕ
  stale_ids [] = []
  stale_ids ((id, c) ∷ conns) = if is_alive c then stale_ids conns else id ∷ stale_ids conns

  -- The manager afterwards, and how many were stale. The timeout is not read.
  unfoldable pub cleanup_stale_connections : ConnectionManager Sender → ConnectionManager Sender × ℕ
  cleanup_stale_connections m =
      (unregister_each (stale_ids m.connections) m, length (stale_ids m.connections))

  -- The loop of `send_to_user_filtered`: connections, deliveries, and what the filter held back.
  unfoldable pub send_filtered_each :
      ℕ → Msg → Bool → List ℕ → List (ℕ × Connection Sender) → List (ℕ × Connection Sender) × ℕ × ℕ
  send_filtered_each conversation_id message is_system [] conns = (conns, 0, 0)
  send_filtered_each conversation_id message is_system (id ∷ ids) conns = elim (get id conns) [
    | none ↦ send_filtered_each conversation_id message is_system ids conns
    | some c ↦ elim (Subscription.should_receive c.subscriptions conversation_id is_system) [
      | true ↦
          let (conns', delivered, filtered) =
            send_filtered_each conversation_id message is_system ids
              (insert id (transmit c message).0 conns) in
          (conns', (if (transmit c message).1 then delivered + 1 else delivered), filtered)
      | false ↦
          let (conns', delivered, filtered) =
            send_filtered_each conversation_id message is_system ids conns in
          (conns', delivered, filtered + 1)
    ]
  ]

  unfoldable pub send_to_user_filtered :
      ConnectionManager Sender → ℕ → ℕ → Msg → Bool → ConnectionManager Sender × ℕ
  send_to_user_filtered m user_id conversation_id message is_system =
      let (conns, delivered, filtered) =
        send_filtered_each conversation_id message is_system (conns_of m user_id) m.connections in
      (
        record m {
          connections = conns;
          subscription_filtered = wrapping_add 64 m.subscription_filtered filtered;
        },
        delivered,
      )
