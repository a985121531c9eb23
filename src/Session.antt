-- ===== src/Session.antt =====
-- domain/cluster/session_store.rs: which users are on which servers of the cluster, as sets in
-- Redis, and the store of a single server. The texts of a user id are parameters.
pub mod Servers
pub mod Letters
pub mod Examples
use Prim.Native.String.{String}
use text.Mathlib.Text.{◌==◌ as str_eq}
use ara_chat_service.Base.{
  ℕ, zero, ◌+◌, Bool, true, false, List, [], ◌∷◌, Option, none, some, ◌==◌, length, if◌then◌else◌,
}
use ara_chat_service.Base.Results.{Result, ok, err}
use ara_chat_service.Base.Stateful.{Stateful, pure, continue, ◌>>=◌, ◌>>◌}
use ara_chat_service.Base.Offsets.{ℤ, pos}
use ara_chat_service.Redis.{run}
use ara_chat_service.Redis.Sets.{RedisSets, SetOp, sadd, srem, expire}

-- `user_servers_key` and `server_users_key`
pub data SessionKey : Type 0 where
  user : ℕ → SessionKey
  server : String → SessionKey

abbrev pub same_key : SessionKey → SessionKey → Bool
same_key (user u) (user v) = u == v
same_key (user u) (server s) = false
same_key (server s) (user u) = false
same_key (server s) (server t) = str_eq s t

-- `to_string` and `parse_str` of a `Uuid`.
pub record UserTexts : Type 0 where
  pub to_string : ℕ → String
  pub parse_str : String → Option ℕ

-- The text of the error is left out; `Serialization` is never made.
pub data SessionStoreError : Type 0 where
  redis_error : SessionStoreError

pub record RedisSessionStore (S : Type 0) : Type 0 where
  pub server_id : String
  pub pool : RedisSets S SessionKey
  pub ttl_seconds : ℤ

unfoldable pub new : {S : Type 0} → String → RedisSets S SessionKey → RedisSessionStore S
new server_id pool = record { server_id = server_id; pool = pool; ttl_seconds = pos 120 }

module _ {S : Type 0} (texts : UserTexts) (store : RedisSessionStore S) where
  unfoldable pub register_session : ℕ → Stateful S SessionStoreError (Unit {0})
  register_session user_id = do
    run redis_error store.pool.get_connection
    run redis_error (
        store.pool.pipe (
          sadd (user user_id) store.server_id
          ∷ expire (user user_id) store.ttl_seconds
          ∷ sadd (server store.server_id) (texts.to_string user_id)
          ∷ expire (server store.server_id) store.ttl_seconds
          ∷ []))

  unfoldable pub unregister_session : ℕ → Stateful S SessionStoreError (Unit {0})
  unregister_session user_id = do
    run redis_error store.pool.get_connection
    run redis_error (
        store.pool.pipe (
          srem (user user_id) store.server_id
          ∷ srem (server store.server_id) (texts.to_string user_id)
          ∷ []))

  unfoldable pub find_user_servers : ℕ → Stateful S SessionStoreError (List String)
  find_user_servers user_id = do
    run redis_error store.pool.get_connection
    run redis_error (store.pool.smembers (user user_id))

  -- The loop over the users of this server; an id that does not parse is passed over.
  abbrev pub refresh_each : List String → Stateful S SessionStoreError (Unit {0})
  refresh_each [] = pure tt
  refresh_each (user_str ∷ users) = elim (texts.parse_str user_str) [
    | none ↦ refresh_each users
    | some user_id ↦ do
      run redis_error (store.pool.pipe (expire (user user_id) store.ttl_seconds ∷ []))
      refresh_each users
  ]

  unfoldable pub refresh_sessions : Stateful S SessionStoreError ℕ
  refresh_sessions = do
    run redis_error store.pool.get_connection
    run redis_error (store.pool.pipe (expire (server store.server_id) store.ttl_seconds ∷ []))
    users ← run redis_error (store.pool.smembers (server store.server_id))
    refresh_each users
    pure (length users)

  abbrev pub count_each : List SessionKey → ℕ → Stateful S SessionStoreError ℕ
  count_each [] total = pure total
  count_each (key ∷ keys) total = do
    count ← run redis_error (store.pool.scard key)
    count_each keys (total + count)

  unfoldable pub cluster_user_count : Stateful S SessionStoreError ℕ
  cluster_user_count = do
    run redis_error store.pool.get_connection
    keys ← run redis_error store.pool.keys
    count_each keys 0

-- The store of a single server; registering and refreshing do nothing.
pub record MemorySessionStore : Type 0 where
  pub server_id : String

unfoldable pub find_user_servers_in_memory : MemorySessionStore → ℕ → List String
find_user_servers_in_memory store user_id = store.server_id ∷ []
