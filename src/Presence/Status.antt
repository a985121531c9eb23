-- ===== src/Presence/Status.antt =====
-- The status of a user and the count of his connections, of domain/presence/tracker.rs. The key of
-- a user's hash is the user; the time of a call is an argument.
use Prim.Native.String.{String}
use text.Mathlib.Text.{◌==◌ as str_eq}
use ara_chat_service.Base.{
  ℕ, zero, suc, Bool, true, false, List, [], ◌∷◌, Option, none, some, is_empty, if◌then◌else◌,
}
use ara_chat_service.Base.Stateful.{Stateful, pure, ◌>>=◌, ◌>>◌}
use ara_chat_service.Base.Offsets.{ℤ, pos, negsuc}
use ara_chat_service.Redis.{run}
use ara_chat_service.Redis.Hashes.{RedisHashes, hset, hincr_one, expire, Value, word, number}
use ara_chat_service.Message.{PresenceStatus, online, away, busy, offline}
use ara_chat_service.Presence.{PresenceError, redis_error}

abbrev pub status_str : PresenceStatus → String
status_str online = "online"
status_str away = "away"
status_str busy = "busy"
status_str offline = "offline"

pub record PresenceInfo : Type 0 where
  pub user_id : ℕ
  pub status : PresenceStatus
  pub server_id : String
  pub last_seen : ℤ
  pub connections : ℕ

-- The part of the tracker that the status uses.
pub record StatusTracker (S : Type 0) : Type 0 where
  pub redis : Option (RedisHashes S)
  pub server_id : String
  pub ttl_seconds : ℤ

unfoldable pub new : {S : Type 0} → Option (RedisHashes S) → String → StatusTracker S
new redis server_id = record { redis = redis; server_id = server_id; ttl_seconds = pos 120 }

abbrev pub status_from : String → PresenceStatus
status_from s =
    if str_eq s "online"
    then online
    else (if str_eq s "away" then away else (if str_eq s "busy" then busy else offline))

-- `parse().unwrap_or(0)` as an `i64`, and as a `u32` for numbers that fit.
abbrev pub parse_signed : Value → ℤ
parse_signed (number z) = z
parse_signed (word s) = pos 0

abbrev pub parse_unsigned : Value → ℕ
parse_unsigned (number (pos n)) = n
parse_unsigned other = 0

-- The text of a value that is no number; those that are read as texts are none.
abbrev pub as_text : Value → String
as_text (word s) = s
as_text (number z) = ""

-- One turn of the loop over the fields.
abbrev pub read_field : PresenceInfo → String → Value → PresenceInfo
read_field info key value =
    if str_eq key "status"
    then record info { status = status_from (as_text value) }
    else (if str_eq key "server_id"
        then record info { server_id = as_text value }
        else (if str_eq key "last_seen"
            then record info { last_seen = parse_signed value }
            else (if str_eq key "connections"
                then record info { connections = parse_unsigned value }
                else info)))

unfoldable pub read_fields : PresenceInfo → List (String × Value) → PresenceInfo
read_fields info [] = info
read_fields info ((key, value) ∷ items) = read_fields (read_field info key value) items

abbrev pub info_of : ℕ → List (String × Value) → Option PresenceInfo
info_of user_id items =
    if is_empty items
    then none
    else some (
        read_fields
          (record {
            user_id = user_id;
            status = offline;
            server_id = "";
            last_seen = pos 0;
            connections = 0;
          })
          items)

abbrev pub is_positive : ℤ → Bool
is_positive (pos zero) = false
is_positive (pos (suc n)) = true
is_positive (negsuc n) = false

module _ {S : Type 0} (tracker : StatusTracker S) (now : ℤ) where
  unfoldable pub update_presence : ℕ → PresenceStatus → Stateful S PresenceError (Unit {0})
  update_presence user_id status = elim tracker.redis [
    | none ↦ pure tt
    | some redis ↦ do
      run redis_error redis.get_connection
      run redis_error (
          redis.pipe (
            hset user_id "status" (word (status_str status))
            ∷ hset user_id "server_id" (word tracker.server_id)
            ∷ hset user_id "last_seen" (number now)
            ∷ expire user_id tracker.ttl_seconds
            ∷ []))
  ]

  unfoldable pub mark_online : ℕ → Stateful S PresenceError (Unit {0})
  mark_online user_id = elim tracker.redis [
    | none ↦ pure tt
    | some redis ↦ do
      run redis_error redis.get_connection
      run redis_error (
          redis.pipe (
            hset user_id "status" (word "online")
            ∷ hset user_id "server_id" (word tracker.server_id)
            ∷ hset user_id "last_seen" (number now)
            ∷ hincr_one user_id "connections"
            ∷ expire user_id tracker.ttl_seconds
            ∷ []))
  ]

  -- What `mark_offline` does with the number of connections that are left.
  abbrev pub offline_at : RedisHashes S → ℕ → ℤ → Stateful S PresenceError Bool
  offline_at redis user_id connections = if is_positive connections then pure false else (do
    run redis_error (
        redis.pipe (
          hset user_id "status" (word "offline")
          ∷ hset user_id "last_seen" (number now)
          ∷ hset user_id "connections" (number (pos 0))
          ∷ expire user_id tracker.ttl_seconds
          ∷ []))
    pure true)

  unfoldable pub mark_offline : ℕ → Stateful S PresenceError Bool
  mark_offline user_id = elim tracker.redis [
    | none ↦ pure true
    | some redis ↦ do
      run redis_error redis.get_connection
      connections ← run redis_error (redis.hdecr_one user_id "connections")
      offline_at redis user_id connections
  ]

module _ {S : Type 0} (tracker : StatusTracker S) where
  unfoldable pub get_presence : ℕ → Stateful S PresenceError (Option PresenceInfo)
  unfolding read_fields
  get_presence user_id = elim tracker.redis [
    | none ↦ pure none
    | some redis ↦ do
      run redis_error redis.get_connection
      items ← run redis_error (redis.hgetall user_id)
      pure (info_of user_id items)
  ]

  abbrev pub with_info : Option PresenceInfo → List PresenceInfo → List PresenceInfo
  with_info none infos = infos
  with_info (some info) infos = info ∷ infos

  unfoldable pub get_presences : List ℕ → Stateful S PresenceError (List PresenceInfo)
  unfolding get_presence
  get_presences [] = pure []
  get_presences (user_id ∷ user_ids) = do
    info ← get_presence user_id
    infos ← get_presences user_ids
    pure (with_info info infos)

  unfoldable pub refresh : ℕ → Stateful S PresenceError (Unit {0})
  refresh user_id = elim tracker.redis [
    | none ↦ pure tt
    | some redis ↦ do
      run redis_error redis.get_connection
      run redis_error (redis.pipe (expire user_id tracker.ttl_seconds ∷ []))
  ]
