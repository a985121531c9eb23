-- ===== src/OfflineQueue/Examples.antt =====
-- A Redis that keeps its lists in a function, and three messages for user 7 who is away.
use Prim.Native.String.{String}
use text.Mathlib.Text.{◌==◌ as str_eq}
use ara_chat_service.Base.{
  ℕ, zero, suc, ◌≤◌, ◌≡◌, refl, true, List, [], ◌∷◌, ◌++◌, map, none, some, length, ◌==◌,
  if◌then◌else◌, arith,
}
use ara_chat_service.Base.Results.{ok}
use ara_chat_service.Base.Offsets.{ℤ, pos, negsuc, IsPositive, slice}
use ara_chat_service.Redis.Lists.{RedisLists, Documented, IsUp, text_in, remove_first}
use ara_chat_service.Connection.{with_limits, default_limits, has_user}
use ara_chat_service.Message.{ServerMessage, OutboundMessage}
use ara_chat_service.Cluster.{ClusterRouter, Net}
use ara_chat_service.Cluster.Examples.{logs, serde as cluster_serde}
use ara_chat_service.OfflineQueue.{
  QueuedMessage, QueueSerde, queue_message, peek_messages, drain_messages,
}
use ara_chat_service.OfflineQueue.Queueing.{AreLimits, on_redis, queue_each, queue_each_keeps_last}
use ara_chat_service.OfflineQueue.Delivery.{put, route_each, drain_messages-route_each}

abbrev Store : Type 0
Store = ℕ → List String

abbrev change : ℕ → (List String → List String) → Store → Store
change k f s j = if k == j then f (s j) else s j

abbrev expired : ℕ → ℤ → Store → Store
expired k (pos (suc n)) s = s
expired k (pos zero) s = change k (λ xs. []) s
expired k (negsuc n) s = change k (λ xs. []) s

abbrev redis : RedisLists Store
redis = record {
  get_connection = λ s. (some tt, s);
  rpush = λ k v s. (some tt, change k (λ xs. xs ++ v ∷ []) s);
  ltrim = λ k a b s. (some tt, change k (slice a b) s);
  lrange = λ k a b s. (some (slice a b (s k)), s);
  lrem_one = λ k v s. (some (if text_in v (s k) then 1 else 0), change k (remove_first v) s);
  llen = λ k s. (some (length (s k)), s);
  expire = λ k z s. (some tt, expired k z s);
  del = λ k s. (some tt, change k (λ xs. []) s);
}

abbrev items : ℕ → Store → List String
items k s = s k

expired_keeps : (k : ℕ) (z : ℤ) (j : ℕ) (s : Store) → IsPositive z → expired k z s j ≡ s j
expired_keeps k (pos (suc n)) j s p = refl
expired_keeps k (pos zero) j s p = absurd (omega arith)
expired_keeps k (negsuc n) j s p = absurd p

laws : Documented redis items
laws = record {
  connected = λ j s e. refl;
  pushed = λ k v j s e. refl;
  trimmed = λ k a b j s e. refl;
  expires = λ k z j s p e. expired_keeps k z j s p;
  ranged = λ k a b s texts e. cc e;
  range_keeps = λ k a b j s. refl;
  removed = λ k v s n e. cc e;
  remove_keeps = λ k v j s n e. refl;
  counted = λ k s n e. cc e;
  deleted = λ k j s e. refl;
}

up : IsUp redis
up = record {
  connects = λ s. refl;
  pushes = λ k v s. refl;
  trims = λ k a b s. refl;
  expiring = λ k z s. refl;
  ranges = λ k a b s. (slice a b (s k), refl);
  removes = λ k v s. (if text_in v (s k) then 1 else 0, refl);
  counts = λ k s. (length (s k), refl);
  deletes = λ k s. refl;
}

abbrev stamp : ServerMessage → QueuedMessage
stamp m = record { id = 5; message = m; queued_at = 100 }

abbrev first : ServerMessage
first = ServerMessage.typing 1 2 true

abbrev second : ServerMessage
second = ServerMessage.typing 1 3 true

abbrev third : ServerMessage
third = ServerMessage.typing 1 4 true

abbrev user_of : ServerMessage → ℕ
user_of (ServerMessage.typing c u b) = u
user_of m = 0

abbrev serde : QueueSerde
serde = record {
  to_string = λ q. some (
      if user_of q.message == 2
      then "first"
      else (if user_of q.message == 3 then "second" else "third"));
  from_str = λ t.
      some
        (stamp (if str_eq t "first" then first else (if str_eq t "second" then second else third)));
}

abbrev sent : List QueuedMessage
sent = map stamp (first ∷ second ∷ third ∷ [])

abbrev texts : List String
texts = "first" ∷ "second" ∷ "third" ∷ []

abbrev empty : Store
empty k = []

limits : AreLimits 2 60
limits = omega arith

queue_each_keeps_last_example :
    ((queue_each serde (on_redis redis 2 60) 7 sent empty).1 7 ≡ "second" ∷ "third" ∷ [])
    × (length ((queue_each serde (on_redis redis 2 60) 7 sent empty).1 7) ≤ 2)
unfolding queue_message
queue_each_keeps_last_example =
    queue_each_keeps_last serde redis items laws 2 60 limits 7 sent texts empty 7
      (refl, (refl, (refl, tt))) (omega arith) refl

abbrev waiting : Store
waiting k = if k == 7 then "first" ∷ "second" ∷ [] else []

-- A limit of 0 asks for all messages.
peek_none :
    (peek_messages serde (on_redis redis 2 60) 7 (some 0) waiting).0
    ≡ ok (stamp first ∷ stamp second ∷ [])
unfolding peek_messages
peek_none = refl

abbrev router : ClusterRouter Store
router = record {
  find_user_servers = λ u. some [];
  redis_pool = none;
  offline_queue = some (put logs cluster_serde serde redis 2 60 stamp);
  server_id = "a";
}

abbrev net : Net (List OutboundMessage) Store
net = record { manager = with_limits default_limits; queue = empty; published = [] }

drain_messages-route_each_example :
    let after : Net (List OutboundMessage) Store =
      route_each logs cluster_serde serde redis 2 60 stamp router 7
        (first ∷ second ∷ third ∷ [])
        net in
    ((drain_messages serde (on_redis redis 2 60) 7 after.queue).0
      ≡ ok (stamp second ∷ stamp third ∷ []))
    × (after.manager ≡ net.manager)
    × (after.published ≡ net.published)
unfolding has_user with_limits
drain_messages-route_each_example =
    drain_messages-route_each logs cluster_serde serde redis items laws 2 60 limits stamp up router
      7 (first ∷ second ∷ third ∷ []) texts net
      (record { not_here = refl; nowhere = refl; queues = refl }) (refl, (refl, (refl, tt)))
      (refl, (refl, (refl, tt))) refl
