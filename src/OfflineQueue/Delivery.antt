-- ===== src/OfflineQueue/Delivery.antt =====
-- The cluster router (domain/cluster/router.rs) over the offline queue
-- (domain/message/offline_queue.rs): messages to a user who is away, and what he drains later.
use Prim.Native.String.{String}
use ara_chat_service.Base.{
  ℕ, ◌≤◌, ◌≡◌, refl, ◌∙◌, sym, ap, false, List, [], ◌∷◌, map, some, length, take_last, arith,
}
use ara_chat_service.Base.Results.{ok}
use ara_chat_service.Base.Stateful.{>>=-ok}
use ara_chat_service.Redis.Lists.{RedisLists, Documented, IsUp}
use ara_chat_service.Connection.{Channel, has_user}
use ara_chat_service.Message.{ServerMessage, OutboundMessage, raw}
use ara_chat_service.Cluster.{Serde, ClusterRouter, Net, route_to_user_with_queue}
use ara_chat_service.OfflineQueue.{
  QueuedMessage, QueueSerde, OfflineQueue, queue_message, drain_messages,
}
use ara_chat_service.OfflineQueue.Queueing.{
  AreLimits, on_redis, AreTexts, queue_each, queue_message-IsUp,
}
use ara_chat_service.OfflineQueue.Draining.{Parse, drain_messages-queue_each}

module _ {Sender S : Type 0} (channel : Channel Sender OutboundMessage) (cluster_serde : Serde)
    (serde : QueueSerde) (r : RedisLists S) (max ttl : ℕ)
    (stamp : ServerMessage → QueuedMessage) where
  -- The queue that the router was given; a failure is only logged. `stamp` is `QueuedMessage::new`.
  abbrev pub put : S → ℕ → ServerMessage → S
  put store u m = (queue_message serde (on_redis r max ttl) u (stamp m) store).1

  -- The messages are routed one after the other.
  abbrev pub route_each : ClusterRouter S → ℕ → List ServerMessage → Net Sender S → Net Sender S
  route_each router u [] net = net
  route_each router u (m ∷ ms) net =
      route_each router u ms
        (route_to_user_with_queue channel cluster_serde router u (raw m) m net).1

  -- The user is connected to no server, as the session store answers, and the router has the queue.
  pub record IsAway (router : ClusterRouter S) (u : ℕ) (net : Net Sender S) : Type 0 where
    pub not_here : has_user net.manager u ≡ false
    pub nowhere : router.find_user_servers u ≡ some []
    pub queues : router.offline_queue ≡ some put

  route_step :
      (router : ClusterRouter S) (u : ℕ) (m : ServerMessage) (net : Net Sender S)
      → IsAway router u net
      → (route_to_user_with_queue channel cluster_serde router u (raw m) m net).1
        ≡ record net { queue = put net.queue u m }
  unfolding route_to_user_with_queue
  route_step router u m net away = rw (away.not_here, away.nowhere, away.queues) refl

module _ {Sender S : Type 0} (channel : Channel Sender OutboundMessage) (cluster_serde : Serde)
    (serde : QueueSerde) (r : RedisLists S) (items : ℕ → S → List String)
    (laws : Documented r items) (max ttl : ℕ) (limits : AreLimits max ttl)
    (stamp : ServerMessage → QueuedMessage) (up : IsUp r) where
  abbrev routed : ClusterRouter S → ℕ → List ServerMessage → Net Sender S → Net Sender S
  routed = route_each channel cluster_serde serde r max ttl stamp

  route_each_step :
      (router : ClusterRouter S) (u : ℕ) (ms : List ServerMessage) (ts : List String)
      (net : Net Sender S)
      → IsAway channel cluster_serde serde r max ttl stamp router u net
      → AreTexts serde (map stamp ms) ts
      → routed router u ms net ≡ record net {
        queue = (queue_each serde (on_redis r max ttl) u (map stamp ms) net.queue).1;
      }
  route_each_step router u [] ts net away e = refl
  route_each_step router u (m ∷ ms) [] net away e = absurd e
  route_each_step router u (m ∷ ms) (t ∷ ts) net away e =
      let q : OfflineQueue S = on_redis r max ttl in
      let store : S = (queue_message serde q u (stamp m) net.queue).1 in
      let net' : Net Sender S = record net { queue = store } in
      let away' : IsAway channel cluster_serde serde r max ttl stamp router u net' = record {
        not_here = away.not_here;
        nowhere = away.nowhere;
        queues = away.queues;
      } in
      let next : queue_each serde q u (map stamp (m ∷ ms)) net.queue
          ≡ queue_each serde q u (map stamp ms) store =
        >>=-ok (queue_message serde q u (stamp m)) (λ _. queue_each serde q u (map stamp ms))
          net.queue tt
          (queue_message-IsUp serde r items laws max ttl limits u (stamp m) t net.queue up e.0) in
      ap (routed router u ms)
        (route_step channel cluster_serde serde r max ttl stamp router u m net away)
      ∙ route_each_step router u ms ts net' away' e.1
      ∙ ap (λ p. record net { queue = p.1 }) (sym next)

  -- Messages routed to a user who is connected nowhere and has none waiting, on a cluster with an
  -- offline queue whose Redis answers, with sound limits: when he drains his queue afterwards he
  -- gets the last of them, as many as the limit allows, in the order of routing; nothing was
  -- sent to a connection or published. Each entry is written as a text that parses to it.
  pub drain_messages-route_each :
      (router : ClusterRouter S) (u : ℕ) (ms : List ServerMessage) (ts : List String)
      (net : Net Sender S)
      → IsAway channel cluster_serde serde r max ttl stamp router u net
      → AreTexts serde (map stamp ms) ts
      → Parse serde (map stamp ms) ts
      → items u net.queue ≡ []
      → let after : Net Sender S =
          route_each channel cluster_serde serde r max ttl stamp router u ms net in
        ((drain_messages serde (on_redis r max ttl) u after.queue).0
          ≡ ok (take_last max (map stamp ms)))
        × (after.manager ≡ net.manager)
        × (after.published ≡ net.published)
  drain_messages-route_each router u ms ts net away e back empty =
      let step : routed router u ms net ≡ record net {
        queue = (queue_each serde (on_redis r max ttl) u (map stamp ms) net.queue).1;
      } =
        route_each_step router u ms ts net away e in
      let none_waits : length (items u net.queue) ≤ max = rw empty (omega arith) in
      (
        ap (λ n. (drain_messages serde (on_redis r max ttl) u n.queue).0) step
            ∙ (drain_messages-queue_each serde r items laws max ttl limits u (map stamp ms) ts
                net.queue u up e back empty none_waits).0,
        ap (λ n. n.manager) step,
        ap (λ n. n.published) step,
      )
