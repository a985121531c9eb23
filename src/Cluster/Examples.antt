-- ===== src/Cluster/Examples.antt =====
-- A message for user 20, who is connected to the servers a and b of a cluster.
use ara_chat_service.Base.{ℕ, Bool, true, false, List, [], ◌∷◌, ◌++◌, none, some, map, ◌≡◌, refl}
use ara_chat_service.Base.Results.{ok}
use ara_chat_service.Connection.{Channel, with_limits, default_limits, has_user}
use ara_chat_service.Connection.Channels.{send_to_user}
use ara_chat_service.Message.{OutboundMessage, serialized, to_json}
use ara_chat_service.Cluster.{
  Redis, Serde, RoutedPayload, ClusterRouter, Net, channel_of, route_to_user_internal,
  handle_routed_message,
}
use ara_chat_service.Cluster.Servers.{IsUp, remote_delivery}

abbrev pub send_log : List OutboundMessage → OutboundMessage → List OutboundMessage × Bool
send_log log m = (log ++ m ∷ [], true)

abbrev pub logs : Channel (List OutboundMessage) OutboundMessage
logs = record { send = send_log; is_closed = λ log. false }

abbrev pub hello : RoutedPayload
hello = record { user_id = 20; message_json = "hello" }

abbrev pub serde : Serde
serde = record {
  message_json = λ m. some "hello";
  payload_json = λ p. some "to 20: hello";
  payload_from = λ s. some hello;
}

abbrev redis : Redis
redis = record { get_connection = true; publish = λ c p. true }

abbrev router : ClusterRouter ℕ
router = record {
  find_user_servers = λ u. some ("a" ∷ "b" ∷ []);
  redis_pool = some redis;
  offline_queue = none;
  server_id = "c";
}

abbrev net : Net (List OutboundMessage) ℕ
net = record { manager = with_limits default_limits; queue = 0; published = [] }

redis-IsUp : IsUp logs serde router 20 (serialized "hello") redis "hello" "to 20: hello"
unfolding to_json
redis-IsUp = record {
  pool = refl;
  connected = refl;
  takes = λ c. refl;
  as_json = refl;
  as_payload = refl;
}

away : has_user net.manager 20 ≡ false
unfolding has_user with_limits
away = refl

remote_delivery_example :
    ((route_to_user_internal logs serde router 20 (serialized "hello") none net).0 ≡ ok tt)
    × ((route_to_user_internal logs serde router 20 (serialized "hello") none net).1
        ≡ record net { published = map (λ s. (channel_of s, "to 20: hello")) ("a" ∷ "b" ∷ []) })
    × ((remote : Net (List OutboundMessage) ℕ)
        → serde.payload_from "to 20: hello" ≡ some hello
        → handle_routed_message logs serde "to 20: hello" remote ≡ (
          ok tt,
          record remote { manager = send_to_user logs remote.manager 20 (serialized "hello") },
        ))
remote_delivery_example =
    remote_delivery logs serde router 20 (serialized "hello") redis "hello" "to 20: hello"
      redis-IsUp none ("a" ∷ "b" ∷ []) net away refl refl refl
