-- ===== src/Presence/Examples.antt =====
-- User 1 subscribes to the users 2 and 3, and leaves; user 5 opens two connections and closes one.
use Prim.Native.String.{String}
use ara_chat_service.Base.{ℕ, ◌≡◌, refl, true, false, List, [], ◌∷◌}
use ara_chat_service.Base.Results.{ok}
use ara_chat_service.Redis.InMemory
use ara_chat_service.Redis.Sets.{RedisSets}
use ara_chat_service.Session.Letters.{letters, texts, texts-AreTexts, count-letters}
use ara_chat_service.Presence.{
  PresenceKey, subscribers, subscriptions, same_key, subscribe, unsubscribe, clear_subscriptions,
  subscribe_ops, unsubscribe_ops, clear_ops, get_subscribers,
}
use ara_chat_service.Presence.Mirror.{PresenceCall, subscribes, unsubscribes, clears, follows}
use text.Mathlib.Text.{◌==◌ as str_eq}
use ara_chat_service.Base.{none, some, ◌==◌, ◌&&◌, if◌then◌else◌}
use ara_chat_service.Base.Offsets.{pos, decrement}
use ara_chat_service.Redis.Hashes
use ara_chat_service.Redis.Hashes.{RedisHashes, Fields, Value, word, number, number_of}
use ara_chat_service.Base.{not, contains}
use ara_chat_service.Base.Map.{get}
use ara_chat_service.Connection.{Connection}
use ara_chat_service.Connection.Sending.{sent_to}
use ara_chat_service.Message.{OutboundMessage, serialized, offline}
use ara_chat_service.Cluster.{ClusterRouter}
use ara_chat_service.Cluster.Examples.{logs, serde}
use ara_chat_service.Router.Examples.{manager, manager-IsValid}
use ara_chat_service.Presence.Broadcast.{PresenceBroadcaster, Hub, broadcast_presence_change}
use ara_chat_service.Presence.Audience.{broadcast_presence_change_exact}
use ara_chat_service.Presence.Status.{mark_offline}
use ara_chat_service.Presence.Counting.{Shows}
use ara_chat_service.Presence.Connections
use ara_chat_service.Presence.Connections.{StatusCall, connects, leaves, perform_all-Shows}
use ara_chat_service.Presence.Follows.{tracker_of, perform_all, perform_all-Mirrors}

abbrev Store : Type 0
Store = PresenceKey → List String

abbrev redis : RedisSets Store PresenceKey
redis = InMemory.redis same_key []

abbrev no_one : Store
no_one k = []

abbrev calls : List PresenceCall
calls =
    subscribes 1 (2 ∷ 1 ∷ 3 ∷ []) ∷ unsubscribes 1 (3 ∷ []) ∷ subscribes 4 (2 ∷ []) ∷ clears 4 ∷ []

followers :
    (get_subscribers texts (tracker_of redis) 2 (perform_all texts redis calls no_one).1).0
    ≡ ok (1 ∷ [])
unfolding get_subscribers subscribe unsubscribe clear_subscriptions subscribe_ops unsubscribe_ops
    clear_ops
followers = refl

perform_all-Mirrors_example :
    (InMemory.at same_key [] (perform_all texts redis calls no_one).1 (subscribers 2) (letters 1)
      ≡ follows 1 2 calls false)
    × (InMemory.at same_key [] (perform_all texts redis calls no_one).1 (subscribers 2) (letters 1)
        ≡ InMemory.at same_key []
            (perform_all texts redis calls no_one).1
            (subscriptions 1)
            (letters 2))
unfolding subscribe unsubscribe clear_subscriptions subscribe_ops unsubscribe_ops clear_ops
perform_all-Mirrors_example =
    perform_all-Mirrors texts texts-AreTexts count-letters redis (InMemory.at same_key [])
      (InMemory.laws same_key []) (λ k s. (s k, refl)) 1 2 calls no_one (λ a b. refl) refl

abbrev decreased : ℕ → String → Fields → Fields
decreased k f s j g =
    if k == j && str_eq f g then some (number (decrement (number_of (s j g)))) else s j g

abbrev hashes : RedisHashes Fields
hashes = record {
  get_connection = λ s. (some tt, s);
  pipe = λ ops s. (some tt, Hashes.apply_all ops s);
  hdecr_one = λ k f s. (some (decrement (number_of (s k f))), decreased k f s);
  hgetall = λ k s. (some [], s);
}

hashes_lem : Hashes.Documented hashes (λ s. s)
hashes_lem = record {
  connects = λ s. refl;
  connected = λ k f s. refl;
  pipes = λ ops s. refl;
  piped = λ ops k f s. refl;
  decreases = λ k f s. refl;
  decreased = λ k f j g s. refl;
}

abbrev all_offline : Fields
all_offline u f = if str_eq f "status" then some (word "offline") else none

abbrev no_hashes : Fields
no_hashes u f = none

abbrev two_tabs : List StatusCall
two_tabs = connects 5 ∷ connects 5 ∷ leaves 5 ∷ []

abbrev after_two_tabs : Fields
after_two_tabs =
    Connections.perform_all hashes (λ s. s) hashes_lem "a" (pos 120) (pos 7) two_tabs no_hashes

perform_all-Shows_example :
    Shows after_two_tabs 5 1
    × ((mark_offline
          (Connections.tracker hashes (λ s. s) hashes_lem "a" (pos 120) (pos 7))
          (pos 7)
          5
          after_two_tabs).0
        ≡ ok true)
perform_all-Shows_example =
    perform_all-Shows hashes (λ s. s) hashes_lem "a" (pos 120) (pos 7) two_tabs (λ v. 0) no_hashes
      (λ v. record { counted = refl; status = refl }) 5

-- User 20 is connected here, user 30 nowhere.
abbrev cluster : ClusterRouter ℕ
cluster = record {
  find_user_servers = λ u. some [];
  redis_pool = none;
  offline_queue = none;
  server_id = "a";
}

abbrev broadcaster : PresenceBroadcaster Fields ℕ
broadcaster = record {
  cluster_router = cluster;
  presence_tracker = record { redis = none };
  status_tracker = Connections.tracker hashes (λ s. s) hashes_lem "a" (pos 120) (pos 7);
}

abbrev hub : Hub Fields (List OutboundMessage) ℕ
hub = record { net = record { manager = manager; queue = 0; published = [] }; store = all_offline }

broadcast_presence_change_exact_example :
    let (done, after) =
      broadcast_presence_change logs serde broadcaster (pos 9) 10 offline (30 ∷ 20 ∷ []) hub in
    (done ≡ ok tt)
    × ((j : ℕ) (c : Connection (List OutboundMessage))
        → get j manager.connections ≡ some c
        → get j after.net.manager.connections
          ≡ some (
              if not (c.user_id == 10) && contains c.user_id (30 ∷ 20 ∷ [])
              then sent_to logs (serialized "hello") c
              else c))
broadcast_presence_change_exact_example =
    broadcast_presence_change_exact logs serde broadcaster 10 (pos 9) offline "hello" (30 ∷ 20 ∷ [])
      hub refl manager-IsValid (refl, (refl, tt))
