-- ===== src/Router/Messages.antt =====
-- What `route_message` of domain/message/router.rs does as a whole.
use Prim.Native.String.{String}
use ara_chat_service.Base.{
  ℕ, Bool, Option-cases, inl, inr, false, not, ◌&&◌, List, [], ◌∷◌, Option, none, some, ◌==◌,
  contains, keep, IsDistinct, if◌then◌else◌, ◌≡◌, arith,
}
use ara_chat_service.Base.Results.{Result, ok, Result-cases}
use ara_chat_service.Base.Map.{get}
use ara_chat_service.Database.{World}
use ara_chat_service.Connection.{Channel, Connection}
use ara_chat_service.Connection.Index.{IsValid}
use ara_chat_service.Connection.Delivery.{deliver}
use ara_chat_service.Conversation.{ConversationError, get_participant_ids}
use ara_chat_service.Conversation.Muting.{get_muted_user_ids}
use ara_chat_service.Message.{
  ChatMessage, ServerMessage, message, typing, OutboundMessage, serialized, preserialized,
}
use ara_chat_service.Cluster.{Serde, ClusterRouter, Net, route_to_user_with_queue}
use ara_chat_service.Cluster.Servers.{append_nil}
use ara_chat_service.Router.{
  MessageRouter, Site, NotificationPayload, send_local, unwrap_or_default, blocked_users,
  push_offline, deliver_message, route_message, to_participants,
}
use ara_chat_service.Router.Changes.{route_typing}
use ara_chat_service.Router.Local.{
  passed_over, notified, deliver_each_local, deliver_message-deliver_each, deliver_message_offline,
}

module _ {Sender Queue : Type 0} (channel : Channel Sender OutboundMessage) (serde : Serde)
    (router : MessageRouter Queue) (m : ChatMessage) (site : Site Sender Queue) where
  -- The lists that the call reads first, from the world that each query leaves.
  abbrev pub participants_read : Result ConversationError (List ℕ) × World
  participants_read = get_participant_ids router.conversation_service m.conversation_id site.world

  abbrev pub muted_read : Result ConversationError (List ℕ) × World
  muted_read = get_muted_user_ids router.conversation_service m.conversation_id participants_read.1

  abbrev pub blocked_read : List ℕ
  blocked_read = (blocked_users channel serde router m.sender_id muted_read.1).0

  -- On a server without a cluster and with a valid connection manager, a message that has a JSON is
  -- routed, if the participants can be read and none stands twice, to the participants other than
  -- the sender and the users read as blocked by or blocking him: each of their connections that wants
  -- it gets it, no other connection is touched, and those of them who are not connected and not read
  -- as muting the conversation are notified, if there is a publisher.
  pub route_message_local :
      (participants : List ℕ) (json : String)
      → router.cluster_router ≡ none
      → IsValid site.net.manager
      → participants_read.0 ≡ ok participants
      → IsDistinct participants
      → serde.message_json (message m) ≡ some json
      → let (done, after) = route_message channel serde router m site in
        let muted = unwrap_or_default muted_read.0 in
        (done ≡ ok tt)
        × ((j : ℕ) (c : Connection Sender)
            → get j site.net.manager.connections ≡ some c
            → get j after.net.manager.connections
              ≡ some (
                  if not (passed_over m blocked_read c.user_id) && contains c.user_id participants
                  then deliver channel m.conversation_id (serialized json) false c
                  else c))
        × (after.pushed
            ≡ push_offline channel serde router m
                (keep (notified m blocked_read muted site.net.manager) participants)
                site.pushed)
  unfolding route_message preserialized
  route_message_local participants json alone v listed d as_json =
      let muted = unwrap_or_default muted_read.0 in
      let out = serialized json in
      let sent =
        deliver_message-deliver_each channel serde router alone m out blocked_read muted
          participants site.net in
      let each =
        (deliver_each_local channel serde router alone (passed_over m blocked_read)
          m.conversation_id out false none participants site.net v d).1 in
      let offline =
        deliver_message_offline channel serde router alone m out blocked_read muted participants
          site.net in
      (
        ground (arith, listed, as_json, offline),
        λ j c e. ground (arith, listed, as_json, offline, sent, each j c e),
        ground (arith, listed, as_json, offline),
      )

  nobody_offline :
      (out : OutboundMessage) (blocked muted us offline : List ℕ) (cluster : ClusterRouter Queue)
      (net : Net Sender Queue)
      → router.cluster_router ≡ some cluster
      → (deliver_message channel serde router m out blocked muted us net).0 ≡ ok offline
      → offline ≡ []
  unfolding deliver_message
  nobody_offline out blocked muted [] offline cluster net joined e = ground arith
  nobody_offline out blocked muted (u ∷ us) offline cluster net joined e = ground (
    arith,
    joined,
    nobody_offline out blocked muted us offline cluster net joined,
    nobody_offline out blocked muted us offline cluster
        (send_local channel serde router m.conversation_id out false u net) joined,
    nobody_offline out blocked muted us offline cluster
        (route_to_user_with_queue channel serde cluster u out (message m) net).1 joined,
  )

  pushed_nobody :
      (pushed : List (ℕ × NotificationPayload))
      → push_offline channel serde router m [] pushed ≡ pushed
  pushed_nobody pushed = ground (arith, append_nil pushed)

  -- On a server of a cluster `route_message` notifies nobody, whoever is connected and whatever
  -- fails.
  pub route_message_cluster :
      (cluster : ClusterRouter Queue)
      → router.cluster_router ≡ some cluster
      → (route_message channel serde router m site).1.pushed ≡ site.pushed
  unfolding route_message preserialized
  route_message_cluster cluster joined = elim (Result-cases participants_read.0) [
    | inr (e, refused) ↦ ground (arith, refused)
    | inl (participants, listed) ↦ elim (Option-cases (serde.message_json (message m))) [
      | inl mute ↦ ground (arith, listed, mute)
      | inr (json, as_json) ↦
          let muted = unwrap_or_default muted_read.0 in
          let loop =
            deliver_message channel serde router m (serialized json) blocked_read muted participants
              site.net in
          elim (Result-cases loop.0) [
            | inr (e, broken) ↦ ground (arith, listed, as_json, broken)
            | inl (offline, sent) ↦
                let nobody =
                  nobody_offline (serialized json) blocked_read muted participants offline cluster
                    site.net joined sent in
                ground (arith, listed, as_json, sent, nobody, pushed_nobody site.pushed)
          ]
    ]
  ]

-- The other calls, each to the participants but those it skips.
module _ {Sender Queue : Type 0} (channel : Channel Sender OutboundMessage) (serde : Serde)
    (router : MessageRouter Queue) (site : Site Sender Queue) (participants : List ℕ)
    (json : String) where
  to_participants_local :
      (skip : ℕ → Bool) (conversation_id : ℕ) (note : ServerMessage) (queued : Option ServerMessage)
      → router.cluster_router ≡ none
      → IsValid site.net.manager
      → (get_participant_ids router.conversation_service conversation_id site.world).0
        ≡ ok participants
      → IsDistinct participants
      → serde.message_json note ≡ some json
      → let (done, after) =
          to_participants channel serde router skip conversation_id note queued site in
        (done ≡ ok tt)
        × ((j : ℕ) (c : Connection Sender)
            → get j site.net.manager.connections ≡ some c
            → get j after.net.manager.connections
              ≡ some (
                  if not (skip c.user_id) && contains c.user_id participants
                  then deliver channel conversation_id (serialized json) false c
                  else c))
  unfolding preserialized
  to_participants_local skip conversation_id note queued alone v listed d as_json =
      let (done, each) =
        deliver_each_local channel serde router alone skip conversation_id (serialized json) false
          queued participants site.net v d in
      (ground (arith, listed, as_json, done), λ j c e. ground (arith, listed, as_json, each j c e))

  -- On a server without a cluster and with a valid connection manager, a sign of typing that has a
  -- JSON reaches, if the participants can be read and none stands twice, the connections of the
  -- participants other than the user who types that want it, once each, and no other connection.
  route_typing_local :
      (conversation_id user_id : ℕ) (is_typing : Bool)
      → router.cluster_router ≡ none
      → IsValid site.net.manager
      → (get_participant_ids router.conversation_service conversation_id site.world).0
        ≡ ok participants
      → IsDistinct participants
      → serde.message_json (typing conversation_id user_id is_typing) ≡ some json
      → let (done, after) =
          route_typing channel serde router conversation_id user_id is_typing site in
        (done ≡ ok tt)
        × ((j : ℕ) (c : Connection Sender)
            → get j site.net.manager.connections ≡ some c
            → get j after.net.manager.connections
              ≡ some (
                  if not (c.user_id == user_id) && contains c.user_id participants
                  then deliver channel conversation_id (serialized json) false c
                  else c))
  unfolding route_typing
  route_typing_local conversation_id user_id is_typing alone v listed d as_json =
      to_participants_local (λ u. u == user_id) conversation_id
        (typing conversation_id user_id is_typing) none alone v listed d as_json
