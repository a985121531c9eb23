-- ===== src/OfflineQueue.antt =====
-- domain/message/offline_queue.rs: messages for users who are away, a list in Redis for each user.
-- Redis and the JSON of an entry are parameters; the new id and the time of the call are arguments.
-- The key of a user's list is the user.
pub mod Removing
pub mod Queueing
pub mod Draining
pub mod Delivery
pub mod Examples
use Prim.Native.String.{String}
use ara_chat_service.Base.{
  ℕ, ◌*◌, Bool, true, false, List, [], ◌∷◌, Option, none, some, ltb, ◌==◌, if◌then◌else◌,
}
use ara_chat_service.Base.Results.{Result, ok, err}
use ara_chat_service.Base.Stateful.{Stateful, pure, fail, continue, ◌>>=◌, ◌>>◌}
use ara_chat_service.Base.Offsets.{ℤ, pos, negsuc, as_signed, neg, decrement}
use ara_chat_service.Redis.{run, or_error}
use ara_chat_service.Redis.Lists.{RedisLists}
use ara_chat_service.Message.{ServerMessage}

pub record QueuedMessage : Type 0 where
  pub id : ℕ
  pub message : ServerMessage
  pub queued_at : ℕ

-- The texts of the errors are left out.
pub data OfflineQueueError : Type 0 where
  redis_error serialization : OfflineQueueError

-- `serde_json` on an entry.
pub record QueueSerde : Type 0 where
  pub to_string : QueuedMessage → Option String
  pub from_str : String → Option QueuedMessage

pub record OfflineQueue (S : Type 0) : Type 0 where
  pub redis : Option (RedisLists S)
  pub max_messages_per_user : ℕ
  -- in seconds
  pub message_ttl : ℕ

unfoldable pub new : {S : Type 0} → Option (RedisLists S) → OfflineQueue S
new redis = record { redis = redis; max_messages_per_user = 1000; message_ttl = 7 * 24 * 60 * 60 }

unfoldable pub with_config : {S : Type 0} → Option (RedisLists S) → ℕ → ℕ → OfflineQueue S
with_config redis max ttl = record { redis = redis; max_messages_per_user = max; message_ttl = ttl }

-- The entries that parse.
unfoldable pub parse_each : QueueSerde → List String → List QueuedMessage
parse_each serde [] = []
parse_each serde (text ∷ texts) = elim (serde.from_str text) [
  | none ↦ parse_each serde texts
  | some queued ↦ queued ∷ parse_each serde texts
]

-- The loop of `remove_message`: the first entry that parses and has the id.
unfoldable pub text_with_id : QueueSerde → ℕ → List String → Option String
text_with_id serde message_id [] = none
text_with_id serde message_id (text ∷ texts) = elim (serde.from_str text) [
  | none ↦ text_with_id serde message_id texts
  | some queued ↦ if queued.id == message_id then some text else text_with_id serde message_id texts
]

module _ {S : Type 0} (serde : QueueSerde) (queue : OfflineQueue S) where
  abbrev pub push_text : RedisLists S → ℕ → String → Stateful S OfflineQueueError (Unit {0})
  push_text redis user_id serialized = do
    run redis_error (redis.rpush user_id serialized)
    run redis_error (redis.ltrim user_id (neg (as_signed queue.max_messages_per_user)) (negsuc 0))
    run redis_error (redis.expire user_id (as_signed queue.message_ttl))

  -- The entry is `QueuedMessage::new(message)`, with the id and the time that it got.
  unfoldable pub queue_message : ℕ → QueuedMessage → Stateful S OfflineQueueError (Unit {0})
  queue_message user_id queued = elim queue.redis [
    | none ↦ pure tt
    | some redis ↦ do
      run redis_error redis.get_connection
      serialized ← λ s. (or_error serialization (serde.to_string queued), s)
      push_text redis user_id serialized
  ]

  abbrev pub last_index : Option ℕ → ℤ
  last_index none = negsuc 0
  last_index (some l) = decrement (as_signed l)

  unfoldable pub peek_messages : ℕ → Option ℕ → Stateful S OfflineQueueError (List QueuedMessage)
  unfolding parse_each
  peek_messages user_id limit = elim queue.redis [
    | none ↦ pure []
    | some redis ↦ do
      run redis_error redis.get_connection
      messages ← run redis_error (redis.lrange user_id (pos 0) (last_index limit))
      pure (parse_each serde messages)
  ]

  unfoldable pub drain_messages : ℕ → Stateful S OfflineQueueError (List QueuedMessage)
  unfolding parse_each
  drain_messages user_id = elim queue.redis [
    | none ↦ pure []
    | some redis ↦ do
      run redis_error redis.get_connection
      messages ← run redis_error (redis.lrange user_id (pos 0) (negsuc 0))
      run redis_error (redis.del user_id)
      pure (parse_each serde messages)
  ]

  abbrev pub remove_text : RedisLists S → ℕ → Option String → Stateful S OfflineQueueError Bool
  remove_text redis user_id none = pure false
  remove_text redis user_id (some text) = do
    removed ← run redis_error (redis.lrem_one user_id text)
    pure (ltb 0 removed)

  unfoldable pub remove_message : ℕ → ℕ → Stateful S OfflineQueueError Bool
  unfolding text_with_id
  remove_message user_id message_id = elim queue.redis [
    | none ↦ pure false
    | some redis ↦ do
      run redis_error redis.get_connection
      messages ← run redis_error (redis.lrange user_id (pos 0) (negsuc 0))
      remove_text redis user_id (text_with_id serde message_id messages)
  ]

  unfoldable pub queue_size : ℕ → Stateful S OfflineQueueError ℕ
  queue_size user_id = elim queue.redis [
    | none ↦ pure 0
    | some redis ↦ do run redis_error redis.get_connection; run redis_error (redis.llen user_id)
  ]

  unfoldable pub clear_queue : ℕ → Stateful S OfflineQueueError (Unit {0})
  clear_queue user_id = elim queue.redis [
    | none ↦ pure tt
    | some redis ↦ do run redis_error redis.get_connection; run redis_error (redis.del user_id)
  ]
