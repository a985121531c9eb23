-- ===== src/Router/Local.antt =====
-- Who gets a message that domain/message/router.rs routes on a server without a cluster.
use ara_chat_service.Base.{
  ℕ, Bool, Bool-cases, inl, inr, true, false, not, ◌&&◌, List, [], ◌∷◌, Option, none, some, ◌==◌,
  contains, keep, IsDistinct, if◌then◌else◌, ◌≡◌, refl, arith,
}
use ara_chat_service.Base.Results.{ok}
use ara_chat_service.Base.Map.{get}
use ara_chat_service.Connection.{Channel, Connection, ConnectionManager, has_user}
use ara_chat_service.Connection.Channels.{send_to_user_filtered}
use ara_chat_service.Connection.Index.{IsValid}
use ara_chat_service.Connection.Delivery.{
  deliver, send_to_user_filtered-IsValid, send_to_user_filtered_exact,
}
use ara_chat_service.Connection.Sending.{has_user_of_get}
use ara_chat_service.Message.{ChatMessage, ServerMessage, OutboundMessage}
use ara_chat_service.Cluster.{Serde, Net}
use ara_chat_service.Router.{MessageRouter, send_local, deliver_each, deliver_message}

-- The users that a message passes over.
abbrev pub passed_over : ChatMessage → List ℕ → ℕ → Bool
passed_over m blocked u = if u == m.sender_id then true else contains u blocked

-- Who is notified: not here, not passed over and not muted.
abbrev pub notified :
    {Sender : Type 0} → ChatMessage → List ℕ → List ℕ → ConnectionManager Sender → ℕ → Bool
notified m blocked muted manager u =
    not (passed_over m blocked u) && not (has_user manager u) && not (contains u muted)

module _ {Sender Queue : Type 0} (channel : Channel Sender OutboundMessage) (serde : Serde)
    (router : MessageRouter Queue) (alone : router.cluster_router ≡ none) where
  -- A send changes no index.
  has_user-send_local :
      (conversation_id : ℕ) (out : OutboundMessage) (is_system : Bool) (u v : ℕ)
      (net : Net Sender Queue)
      → has_user (send_local channel serde router conversation_id out is_system u net).manager v
        ≡ has_user net.manager v
  unfolding has_user send_to_user_filtered
  has_user-send_local conversation_id out is_system u v net = refl

  module _ (skip : ℕ → Bool) (conversation_id : ℕ) (out : OutboundMessage) (is_system : Bool)
      (queued : Option ServerMessage) where
    abbrev after : List ℕ → Net Sender Queue → Net Sender Queue
    after us net =
        (deliver_each channel serde router skip conversation_id out is_system queued us net).1

    -- Each connection of a user who is not skipped gets what it wants, and no other.
    pub deliver_each_local :
        (us : List ℕ) (net : Net Sender Queue)
        → IsValid net.manager
        → IsDistinct us
        → ((deliver_each channel serde router skip conversation_id out is_system queued us net).0
            ≡ ok tt)
          × ((j : ℕ) (c : Connection Sender)
              → get j net.manager.connections ≡ some c
              → get j (after us net).manager.connections
                ≡ some (
                    if not (skip c.user_id) && contains c.user_id us
                    then deliver channel conversation_id out is_system c
                    else c))
    unfolding deliver_each
    deliver_each_local [] net v d = (refl, λ j c e. ground (arith, e))
    deliver_each_local (u ∷ us) net v d = elim (Bool-cases (skip u)) [
      | inl skipped ↦
          let (done, each) = deliver_each_local us net v d.1 in
          (ground (arith, skipped, done), λ j c e. ground (arith, skipped, each j c e))
      | inr heard ↦ elim (Bool-cases (has_user net.manager u)) [
        | inl here ↦
            let net' = send_local channel serde router conversation_id out is_system u net in
            let v' =
              send_to_user_filtered-IsValid channel conversation_id out is_system net.manager u v in
            let exact =
              (send_to_user_filtered_exact channel conversation_id out is_system net.manager u
                v).0 in
            let (done, each) = deliver_each_local us net' v' d.1 in
            (
              ground (arith, heard, here, done),
              λ j c e.
                  let c' : Connection Sender =
                    if c.user_id == u then deliver channel conversation_id out is_system c else c in
                  ground (arith, heard, here, exact j c e, each j c' (exact j c e), d.0),
            )
        | inr away ↦
            let (done, each) = deliver_each_local us net v d.1 in
            (
              ground (arith, heard, away, alone, done),
              λ j c e.
                  ground
                    (arith, heard, away, alone, each j c e, has_user_of_get j c net.manager v e),
            )
      ]
    ]

  -- The loop of `route_message` sends as the loop of the other calls does.
  pub deliver_message-deliver_each :
      (m : ChatMessage) (out : OutboundMessage) (blocked muted us : List ℕ) (net : Net Sender Queue)
      → (deliver_message channel serde router m out blocked muted us net).1
        ≡ after (passed_over m blocked) m.conversation_id out false none us net
  unfolding deliver_message deliver_each
  deliver_message-deliver_each m out blocked muted [] net = refl
  deliver_message-deliver_each m out blocked muted (u ∷ us) net = ground (
    arith,
    alone,
    deliver_message-deliver_each m out blocked muted us net,
    deliver_message-deliver_each m out blocked muted us
        (send_local channel serde router m.conversation_id out false u net),
  )

  notified-send_local :
      (m : ChatMessage) (out : OutboundMessage) (blocked muted us : List ℕ) (v : ℕ)
      (net : Net Sender Queue)
      → keep
          (notified m blocked muted
            (send_local channel serde router m.conversation_id out false v net).manager)
          us
        ≡ keep (notified m blocked muted net.manager) us
  unfolding has_user send_to_user_filtered
  notified-send_local m out blocked muted us v net = refl

  pub deliver_message_offline :
      (m : ChatMessage) (out : OutboundMessage) (blocked muted us : List ℕ) (net : Net Sender Queue)
      → (deliver_message channel serde router m out blocked muted us net).0
        ≡ ok (keep (notified m blocked muted net.manager) us)
  unfolding deliver_message
  deliver_message_offline m out blocked muted [] net = refl
  deliver_message_offline m out blocked muted (u ∷ us) net =
      elim (Bool-cases (passed_over m blocked u)) [
        | inl skipped ↦ ground (arith, skipped, deliver_message_offline m out blocked muted us net)
        | inr heard ↦ elim (Bool-cases (has_user net.manager u)) [
          | inl here ↦
              let net' = send_local channel serde router m.conversation_id out false u net in
              ground (
                arith,
                heard,
                here,
                deliver_message_offline m out blocked muted us net',
                notified-send_local m out blocked muted us u net,
              )
          | inr away ↦
              ground (arith, heard, away, alone, deliver_message_offline m out blocked muted us net)
        ]
      ]
