-- ===== src/Cluster.antt =====
-- domain/cluster/router.rs: a message to a user wherever the user is connected. The session store,
-- the offline queue, the Redis connection and the JSON of a payload are parameters; `published`
-- records what Redis took, the newest last.
pub mod Examples
pub mod Servers
use Prim.Native.String.{String, ◌++◌ as str_append}
use text.Mathlib.Text.{◌==◌ as str_eq}
use ara_chat_service.Base.{
  ℕ, Bool, true, false, List, [], ◌∷◌, ◌++◌, Option, none, some, is_empty, if◌then◌else◌,
}
use ara_chat_service.Base.Results.{Result, ok, err}
use ara_chat_service.Connection.{Channel, ConnectionManager, has_user}
use ara_chat_service.Connection.Channels.{send_to_user}
use ara_chat_service.Message.{ServerMessage, OutboundMessage, serialized, to_json}

pub record RoutedPayload : Type 0 where
  pub user_id : ℕ
  pub message_json : String

-- The texts of the errors are left out.
pub data ClusterRouterError : Type 0 where
  session_store no_redis redis_publish serialization : ClusterRouterError

-- Whether a connection is to be had, and whether a publication to a channel is taken.
pub record Redis : Type 0 where
  pub get_connection : Bool
  pub publish : String → String → Bool

-- `serde_json` on the types that are sent.
pub record Serde : Type 0 where
  pub message_json : ServerMessage → Option String
  pub payload_json : RoutedPayload → Option String
  pub payload_from : String → Option RoutedPayload

pub record ClusterRouter (Queue : Type 0) : Type 0 where
  pub find_user_servers : ℕ → Option (List String)
  pub redis_pool : Option Redis
  pub offline_queue : Option (Queue → ℕ → ServerMessage → Queue)
  pub server_id : String

-- What routing changes.
pub record Net (Sender Queue : Type 0) : Type 0 where
  pub manager : ConnectionManager Sender
  pub queue : Queue
  pub published : List (String × String)

-- `format!("{}:{}", self.routing_channel, server)`
abbrev pub channel_of : String → String
channel_of server = str_append "chat:cluster:route:" server

module _ {Sender Queue : Type 0} (channel : Channel Sender OutboundMessage) (serde : Serde) where
  abbrev pub send_here : ℕ → OutboundMessage → Net Sender Queue → Net Sender Queue
  send_here user_id message net = record net {
    manager = send_to_user channel net.manager user_id message;
  }

  unfoldable pub publish_to_server :
      ClusterRouter Queue
      → String
      → ℕ
      → OutboundMessage
      → Net Sender Queue
      → Result ClusterRouterError (Unit {0}) × Net Sender Queue
  unfolding to_json
  publish_to_server router target user_id message net = elim router.redis_pool [
    | none ↦ (err no_redis, net)
    | some redis ↦
        if redis.get_connection
        then (elim (to_json serde.message_json message) [
          | none ↦ (err serialization, net)
          | some message_json ↦
              elim (serde.payload_json
                (record { user_id = user_id; message_json = message_json })) [
                  | none ↦ (err serialization, net)
                  | some payload_json ↦
                      if redis.publish (channel_of target) payload_json
                      then (
                        ok tt,
                        record net {
                          published = net.published ++ (channel_of target, payload_json) ∷ [];
                        },
                      )
                      else (err redis_publish, net)
                ]
        ])
        else (err redis_publish, net)
  ]

  -- The loop over the servers; the first error ends it.
  unfoldable pub route_servers :
      ClusterRouter Queue
      → ℕ
      → OutboundMessage
      → List String
      → Net Sender Queue
      → Result ClusterRouterError (Unit {0}) × Net Sender Queue
  unfolding publish_to_server
  route_servers router user_id message [] net = (ok tt, net)
  route_servers router user_id message (server ∷ servers) net =
      elim (str_eq server router.server_id) [
        | true ↦ route_servers router user_id message servers (send_here user_id message net)
        | false ↦
            let (done, net') = publish_to_server router server user_id message net in
            elim done [
              | ok _ ↦ route_servers router user_id message servers net'
              | err e ↦ (err e, net')
            ]
      ]

  -- A message for a user who is nowhere is queued; a failure of the queue is only logged.
  abbrev pub queue_message :
      ClusterRouter Queue → ℕ → Option ServerMessage → Net Sender Queue → Net Sender Queue
  queue_message router user_id none net = net
  queue_message router user_id (some m) net = elim router.offline_queue [
    | none ↦ net
    | some put ↦ record net { queue = put net.queue user_id m }
  ]

  unfoldable pub route_to_user_internal :
      ClusterRouter Queue
      → ℕ
      → OutboundMessage
      → Option ServerMessage
      → Net Sender Queue
      → Result ClusterRouterError (Unit {0}) × Net Sender Queue
  unfolding route_servers
  route_to_user_internal router user_id message server_message net =
      if has_user net.manager user_id
      then (ok tt, send_here user_id message net)
      else (elim (router.find_user_servers user_id) [
        | none ↦ (err session_store, net)
        | some servers ↦
            if is_empty servers
            then (ok tt, queue_message router user_id server_message net)
            else route_servers router user_id message servers net
      ])

  unfoldable pub route_to_user :
      ClusterRouter Queue
      → ℕ
      → OutboundMessage
      → Net Sender Queue
      → Result ClusterRouterError (Unit {0}) × Net Sender Queue
  unfolding route_to_user_internal
  route_to_user router user_id message net = route_to_user_internal router user_id message none net

  unfoldable pub route_to_user_with_queue :
      ClusterRouter Queue
      → ℕ
      → OutboundMessage
      → ServerMessage
      → Net Sender Queue
      → Result ClusterRouterError (Unit {0}) × Net Sender Queue
  unfolding route_to_user_internal
  route_to_user_with_queue router user_id message server_message net =
      route_to_user_internal router user_id message (some server_message) net

  unfoldable pub handle_routed_message :
      String → Net Sender Queue → Result ClusterRouterError (Unit {0}) × Net Sender Queue
  handle_routed_message payload net = elim (serde.payload_from payload) [
    | none ↦ (err serialization, net)
    | some p ↦ (ok tt, send_here p.user_id (serialized p.message_json) net)
  ]
