-- ===== src/Presence.antt =====
-- domain/presence/tracker.rs: who has subscribed to the presence of whom, as two families of sets in
-- Redis. The texts of a user id are parameters.
pub mod Clearing
pub mod Mirror
pub mod Status
pub mod Broadcast
pub mod Audience
pub mod Counting
pub mod Connections
pub mod Follows
pub mod Examples
use Prim.Native.String.{String}
use ara_chat_service.Base.{
  ℕ, Bool, true, false, List, [], ◌∷◌, Option, none, some, ◌==◌, is_empty, if◌then◌else◌,
}
use ara_chat_service.Base.Results.{Result, ok, err}
use ara_chat_service.Base.Stateful.{Stateful, pure, continue, ◌>>=◌, ◌>>◌}
use ara_chat_service.Base.Offsets.{ℤ, pos}
use ara_chat_service.Redis.{run, run_or}
use ara_chat_service.Redis.Sets.{RedisSets, SetOp, sadd, srem, expire, del}
use ara_chat_service.Session.{UserTexts}

-- `subscriber_key` and `subscriptions_key`
pub data PresenceKey : Type 0 where
  subscribers : (target : ℕ) → PresenceKey
  subscriptions : (subscriber : ℕ) → PresenceKey

abbrev pub same_key : PresenceKey → PresenceKey → Bool
same_key (subscribers u) (subscribers v) = u == v
same_key (subscribers u) (subscriptions v) = false
same_key (subscriptions u) (subscribers v) = false
same_key (subscriptions u) (subscriptions v) = u == v

-- The text of the error is left out.
pub data PresenceError : Type 0 where
  redis_error : PresenceError

-- The part of the tracker that subscriptions use.
pub record PresenceTracker (S : Type 0) : Type 0 where
  pub redis : Option (RedisSets S PresenceKey)

module _ (texts : UserTexts) where
  -- The pipelines that the loops build.
  unfoldable pub subscribe_ops : ℕ → List ℕ → List (SetOp PresenceKey)
  subscribe_ops subscriber_id [] = expire (subscriptions subscriber_id) (pos 86400) ∷ []
  subscribe_ops subscriber_id (target_id ∷ target_ids) =
      let rest = subscribe_ops subscriber_id target_ids in
      if target_id == subscriber_id
      then rest
      else (sadd (subscribers target_id) (texts.to_string subscriber_id)
          ∷ expire (subscribers target_id) (pos 86400)
          ∷ sadd (subscriptions subscriber_id) (texts.to_string target_id)
          ∷ rest)

  unfoldable pub unsubscribe_ops : ℕ → List ℕ → List (SetOp PresenceKey)
  unsubscribe_ops subscriber_id [] = []
  unsubscribe_ops subscriber_id (target_id ∷ target_ids) =
      srem (subscribers target_id) (texts.to_string subscriber_id)
      ∷ srem (subscriptions subscriber_id) (texts.to_string target_id)
      ∷ unsubscribe_ops subscriber_id target_ids

  -- A text that does not parse is passed over.
  abbrev pub clear_one : ℕ → Option ℕ → List (SetOp PresenceKey) → List (SetOp PresenceKey)
  clear_one subscriber_id none rest = rest
  clear_one subscriber_id (some target_id) rest =
      srem (subscribers target_id) (texts.to_string subscriber_id) ∷ rest

  unfoldable pub clear_ops : ℕ → List String → List (SetOp PresenceKey)
  clear_ops subscriber_id [] = del (subscriptions subscriber_id) ∷ []
  clear_ops subscriber_id (target_str ∷ targets) =
      clear_one subscriber_id (texts.parse_str target_str) (clear_ops subscriber_id targets)

  -- The texts that parse.
  unfoldable pub parse_each : List String → List ℕ
  parse_each [] = []
  parse_each (s ∷ ss) = elim (texts.parse_str s) [
    | none ↦ parse_each ss
    | some id ↦ id ∷ parse_each ss
  ]

module _ {S : Type 0} (texts : UserTexts) where
  abbrev pub clear_listed :
      RedisSets S PresenceKey → ℕ → List String → Stateful S PresenceError (Unit {0})
  clear_listed redis subscriber_id targets =
      if is_empty targets
      then pure tt
      else run redis_error (redis.pipe (clear_ops texts subscriber_id targets))

module _ {S : Type 0} (texts : UserTexts) (tracker : PresenceTracker S) where
  unfoldable pub subscribe : ℕ → List ℕ → Stateful S PresenceError (Unit {0})
  subscribe subscriber_id target_user_ids =
      if is_empty target_user_ids then pure tt else (elim tracker.redis [
        | none ↦ pure tt
        | some redis ↦ do
          run redis_error redis.get_connection
          run redis_error (redis.pipe (subscribe_ops texts subscriber_id target_user_ids))
      ])

  unfoldable pub unsubscribe : ℕ → List ℕ → Stateful S PresenceError (Unit {0})
  unsubscribe subscriber_id target_user_ids =
      if is_empty target_user_ids then pure tt else (elim tracker.redis [
        | none ↦ pure tt
        | some redis ↦ do
          run redis_error redis.get_connection
          run redis_error (redis.pipe (unsubscribe_ops texts subscriber_id target_user_ids))
      ])

  unfoldable pub clear_subscriptions : ℕ → Stateful S PresenceError (Unit {0})
  clear_subscriptions subscriber_id = elim tracker.redis [
    | none ↦ pure tt
    | some redis ↦ do
      run redis_error redis.get_connection
      targets ← run_or [] (redis.smembers (subscriptions subscriber_id))
      clear_listed texts redis subscriber_id targets
  ]

  unfoldable pub get_subscribers : ℕ → Stateful S PresenceError (List ℕ)
  unfolding parse_each
  get_subscribers user_id = elim tracker.redis [
    | none ↦ pure []
    | some redis ↦ do
      run redis_error redis.get_connection
      members ← run_or [] (redis.smembers (subscribers user_id))
      pure (parse_each texts members)
  ]
