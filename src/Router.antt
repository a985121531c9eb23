-- ===== src/Router.antt =====
-- domain/message/router.rs: who gets a message, a change of a message or a sign of typing. The
-- connections, the cluster and the tables are those of Connection.antt, Cluster.antt and
-- Database.antt; `pushed` records the calls of the notification publisher, the newest last.
pub mod Changes
pub mod Examples
pub mod Local
pub mod Messages
use Prim.Native.String.{String}
use ara_chat_service.Base.{
  ℕ, Bool, true, false, not, List, [], ◌∷◌, ◌++◌, Option, none, some, ◌==◌, contains, is_empty, map,
  if◌then◌else◌,
}
use ara_chat_service.Base.Results.{Result, ok, err}
use ara_chat_service.Database.{World}
use ara_chat_service.Connection.{Channel, ConnectionManager, has_user}
use ara_chat_service.Connection.Channels.{send_to_user_filtered}
use ara_chat_service.Conversation.{ConversationError, get_participant_ids}
use ara_chat_service.Conversation.Muting.{get_muted_user_ids}
use ara_chat_service.Blocking.{BlockingError, is_mutually_blocked, get_all_blocked_user_ids}
use ara_chat_service.Message.{
  ChatMessage, ServerMessage, message, message_recalled, message_edited, typing, mention,
  thread_updated, message_pinned, message_unpinned, OutboundMessage, preserialized, take_chars,
}
use ara_chat_service.Cluster.{
  ClusterRouterError, Serde, ClusterRouter, Net, route_to_user, route_to_user_with_queue,
}

-- The texts of the errors are left out.
pub data RouterError : Type 0 where
  serialization conversation_error cluster_error : RouterError

-- `NotificationPayload` of domain/notification/types.rs
pub record NotificationPayload : Type 0 where
  pub conversation_id : ℕ
  pub message_id : Option ℕ
  pub sender_id : ℕ
  pub sender_name : Option String
  pub content_preview : Option String
  pub emoji : Option String
  pub action : Option String

abbrev pub new_message : ℕ → ℕ → ℕ → Option String → NotificationPayload
new_message conversation_id message_id sender_id content_preview = record {
  conversation_id = conversation_id;
  message_id = some message_id;
  sender_id = sender_id;
  sender_name = none;
  content_preview = content_preview;
  emoji = none;
  action = none;
}

-- `MessageRouter`, with the tenants of its two services and whether it has a publisher.
pub record MessageRouter (Queue : Type 0) : Type 0 where
  pub cluster_router : Option (ClusterRouter Queue)
  pub conversation_service : String
  pub notification_publisher : Bool
  pub blocking_service : Option String

-- What a call of the router changes.
pub record Site (Sender Queue : Type 0) : Type 0 where
  pub net : Net Sender Queue
  pub world : World
  pub pushed : List (ℕ × NotificationPayload)

abbrev pub unwrap_or_default : {E A : Type 0} → Result E (List A) → List A
unwrap_or_default (ok xs) = xs
unwrap_or_default (err e) = []

module _ {Sender Queue : Type 0} (channel : Channel Sender OutboundMessage) (serde : Serde)
    (router : MessageRouter Queue) where
  unfoldable pub is_blocked : ℕ → ℕ → World → Bool × World
  unfolding is_mutually_blocked
  is_blocked user_id other_user_id w = elim router.blocking_service [
    | none ↦ (false, w)
    | some tenant ↦
        let (answer, w') = is_mutually_blocked tenant user_id other_user_id w in
        (elim answer [ ok b ↦ b | err e ↦ false ], w')
  ]

  abbrev pub send_local : ℕ → OutboundMessage → Bool → ℕ → Net Sender Queue → Net Sender Queue
  send_local conversation_id out is_system user_id net = record net {
    manager = (send_to_user_filtered channel net.manager user_id conversation_id out is_system).0;
  }

  -- `route_to_user_with_queue` with a message for the queue, else `route_to_user`.
  abbrev pub route :
      ClusterRouter Queue
      → ℕ
      → OutboundMessage
      → Option ServerMessage
      → Net Sender Queue
      → Result ClusterRouterError (Unit {0}) × Net Sender Queue
  route cluster user_id out none net = route_to_user channel serde cluster user_id out net
  route cluster user_id out (some m) net =
      route_to_user_with_queue channel serde cluster user_id out m net

  -- The loop that the calls other than `route_message` share: `skip` is the test before `continue`.
  unfoldable pub deliver_each :
      (ℕ → Bool)
      → ℕ
      → OutboundMessage
      → Bool
      → Option ServerMessage
      → List ℕ
      → Net Sender Queue
      → Result RouterError (Unit {0}) × Net Sender Queue
  deliver_each skip conversation_id out is_system queued [] net = (ok tt, net)
  deliver_each skip conversation_id out is_system queued (u ∷ us) net = elim (skip u) [
    | true ↦ deliver_each skip conversation_id out is_system queued us net
    | false ↦ elim (has_user net.manager u) [
      | true ↦
          deliver_each skip conversation_id out is_system queued us
            (send_local conversation_id out is_system u net)
      | false ↦ elim router.cluster_router [
        | none ↦ deliver_each skip conversation_id out is_system queued us net
        | some cluster ↦
            let (done, net') = route cluster u out queued net in
            elim done [
              | ok _ ↦ deliver_each skip conversation_id out is_system queued us net'
              | err e ↦ (err cluster_error, net')
            ]
      ]
    ]
  ]

  -- The loop of `route_message`, which also gathers the users to be notified.
  unfoldable pub deliver_message :
      ChatMessage
      → OutboundMessage
      → (blocked muted participants : List ℕ) → Net Sender Queue
      → Result RouterError (List ℕ) × Net Sender Queue
  deliver_message m out blocked muted [] net = (ok [], net)
  deliver_message m out blocked muted (u ∷ us) net =
      elim (if u == m.sender_id then true else contains u blocked) [
        | true ↦ deliver_message m out blocked muted us net
        | false ↦ elim (has_user net.manager u) [
          | true ↦
              deliver_message m out blocked muted us (send_local m.conversation_id out false u net)
          | false ↦ elim router.cluster_router [
            | some cluster ↦
                let (done, net') =
                  route_to_user_with_queue channel serde cluster u out (message m) net in
                elim done [
                  | ok _ ↦ deliver_message m out blocked muted us net'
                  | err e ↦ (err cluster_error, net')
                ]
            | none ↦
                let (done, net') = deliver_message m out blocked muted us net in
                elim done [
                  | ok offline ↦ (ok (if contains u muted then offline else u ∷ offline), net')
                  | err e ↦ (err e, net')
                ]
          ]
        ]
      ]

  abbrev pub blocked_users : ℕ → World → List ℕ × World
  blocked_users sender w = elim router.blocking_service [
    | none ↦ ([], w)
    | some tenant ↦
        let (answer, w') = get_all_blocked_user_ids tenant sender w in
        (unwrap_or_default answer, w')
  ]

  abbrev pub push_offline :
      ChatMessage → List ℕ → List (ℕ × NotificationPayload) → List (ℕ × NotificationPayload)
  push_offline m offline pushed =
      if router.notification_publisher
      then pushed
        ++ map
            (λ u.
              (u, new_message m.conversation_id m.id m.sender_id (some (take_chars 100 m.content))))
            offline
      else pushed

  unfoldable pub route_message :
      ChatMessage → Site Sender Queue → Result RouterError (Unit {0}) × Site Sender Queue
  unfolding deliver_message preserialized
  route_message m site =
      let (listed, w1) =
        get_participant_ids router.conversation_service m.conversation_id site.world in
      elim listed [
        | err e ↦ (err conversation_error, record site { world = w1 })
        | ok participants ↦
            let (muted, w2) = get_muted_user_ids router.conversation_service m.conversation_id w1 in
            let (blocked, w3) = blocked_users m.sender_id w2 in
            elim (preserialized serde.message_json (message m)) [
              | none ↦ (err serialization, record site { world = w3 })
              | some out ↦
                  let (done, net') =
                    deliver_message m out blocked (unwrap_or_default muted) participants site.net in
                  elim done [
                    | err e ↦ (err e, record site { net = net'; world = w3 })
                    | ok offline ↦ (
                      ok tt,
                      record site {
                        net = net';
                        world = w3;
                        pushed = push_offline m offline site.pushed;
                      },
                    )
                  ]
            ]
      ]

  -- To the participants of a conversation, `skip` left out.
  abbrev pub to_participants :
      (ℕ → Bool)
      → ℕ
      → ServerMessage
      → Option ServerMessage
      → Site Sender Queue
      → Result RouterError (Unit {0}) × Site Sender Queue
  to_participants skip conversation_id m queued site =
      let (listed, w') =
        get_participant_ids router.conversation_service conversation_id site.world in
      elim listed [
        | err e ↦ (err conversation_error, record site { world = w' })
        | ok participants ↦ elim (preserialized serde.message_json m) [
          | none ↦ (err serialization, record site { world = w' })
          | some out ↦
              let (done, net') =
                deliver_each skip conversation_id out false queued participants site.net in
              (done, record site { net = net'; world = w' })
        ]
      ]
