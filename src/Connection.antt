-- ===== src/Connection.antt =====
-- domain/connection/types.rs and domain/connection/manager.rs: the connections of one server, with
-- an index by user and a counter. The sending half of a connection's channel is a parameter.
pub mod Channels
pub mod Owned
pub mod Index
pub mod Cleanup
pub mod Reach
pub mod Sending
mod Examples
pub mod Delivery
pub mod Calls
use Prim.Native.String.{String}
use ara_chat_service.Base.{
  ℕ, ◌≤◌, ◌+◌, ◌++◌, Bool, true, false, not, ◌||◌, List, [], ◌∷◌, Option, none, some, ◌==◌, leb,
  if◌then◌else◌, length, contains, keep, is_empty, wrapping_add, wrapping_sub,
}
use ara_chat_service.Base.Map.{get, has, insert, remove, keys}
use ara_chat_service.Subscription
use ara_chat_service.Subscription.{ConnectionSubscriptions}

-- `mpsc::UnboundedSender`: a send gives the channel afterwards and whether it was taken.
pub record Channel (Sender Msg : Type 0) : Type 0 where
  pub send : Sender → Msg → Sender × Bool
  pub is_closed : Sender → Bool

pub record ConnectionLimits : Type 0 where
  pub max_connections : ℕ
  pub max_connections_per_user : ℕ

abbrev pub default_limits : ConnectionLimits
default_limits = record { max_connections = 100000; max_connections_per_user = 5 }

pub record Connection (Sender : Type 0) : Type 0 where
  pub id : ℕ
  pub user_id : ℕ
  pub tenant_id : String
  pub sender : Sender
  pub connected_at : ℕ
  pub subscriptions : ConnectionSubscriptions

pub record ConnectionInfo : Type 0 where
  pub connection_id : ℕ
  pub user_id : ℕ
  pub tenant_id : String
  pub connected_at : ℕ
  pub last_active_at : ℕ

-- `subscription_filtered` is the counter `metrics::SUBSCRIPTION_FILTERED`.
pub record ConnectionManager (Sender : Type 0) : Type 0 where
  pub connections : List (ℕ × Connection Sender)
  pub user_connections : List (ℕ × List ℕ)
  pub limits : ConnectionLimits
  pub total_connections : ℕ
  pub subscription_filtered : ℕ

pub data ConnectionError : Type 0 where
  total_limit_exceeded user_limit_exceeded : ConnectionError

pub data Registration {ℓ} (A : Type ℓ) : Type ℓ where
  ok : A → Registration A
  err : ConnectionError → Registration A

-- The index after `retain`; an entry that gets empty is dropped.
abbrev pub forget : ℕ → ℕ → List (ℕ × List ℕ) → List (ℕ × List ℕ)
forget user_id connection_id index = elim (get user_id index) [
  | none ↦ index
  | some ids ↦
      let rest = keep (λ id. not (id == connection_id)) ids in
      if is_empty rest
      then remove user_id (insert user_id rest index)
      else insert user_id rest index
]

module _ {Sender : Type 0} where
  -- `Connection::new`, at the time `now`
  unfoldable pub new_connection : ℕ → ℕ → String → Sender → ℕ → ℕ → Connection Sender
  new_connection id user_id tenant_id sender max_subscriptions now = record {
    id = id;
    user_id = user_id;
    tenant_id = tenant_id;
    sender = sender;
    connected_at = now;
    subscriptions = Subscription.new max_subscriptions;
  }

  unfoldable pub with_limits : ConnectionLimits → ConnectionManager Sender
  with_limits limits = record {
    connections = [];
    user_connections = [];
    limits = limits;
    total_connections = 0;
    subscription_filtered = 0;
  }

  -- `user_connections.get(u)`, empty where there is no entry
  abbrev pub conns_of : ConnectionManager Sender → ℕ → List ℕ
  conns_of m u = elim (get u m.user_connections) [ none ↦ [] | some ids ↦ ids ]

  -- `entry(user_id).or_default().push(connection_id)`, and the counter
  abbrev pub store : ConnectionManager Sender → Connection Sender → ConnectionManager Sender
  store m connection = record m {
    connections = insert connection.id connection m.connections;
    user_connections =
        insert connection.user_id (conns_of m connection.user_id ++ connection.id ∷ [])
          m.user_connections;
    total_connections = wrapping_add 64 m.total_connections 1;
  }

  abbrev pub user_is_full : ConnectionManager Sender → ℕ → Bool
  user_is_full m u = elim (get u m.user_connections) [
    | none ↦ false
    | some ids ↦ leb m.limits.max_connections_per_user (length ids)
  ]

  unfoldable pub register :
      ConnectionManager Sender → Connection Sender → Registration (ConnectionManager Sender)
  register m connection =
      if leb m.limits.max_connections m.total_connections
      then err total_limit_exceeded
      else if user_is_full m connection.user_id
      then err user_limit_exceeded
      else ok (store m connection)

  -- What `unregister` leaves once it has found the connection.
  abbrev pub withdraw : ConnectionManager Sender → ℕ → Connection Sender → ConnectionManager Sender
  withdraw m connection_id connection = record m {
    connections = remove connection_id m.connections;
    user_connections = forget connection.user_id connection_id m.user_connections;
    total_connections = wrapping_sub 64 m.total_connections 1;
  }

  unfoldable pub unregister :
      ConnectionManager Sender → ℕ → ConnectionManager Sender × Option (Connection Sender)
  unregister m connection_id = elim (get connection_id m.connections) [
    | none ↦ (m, none)
    | some connection ↦ (withdraw m connection_id connection, some connection)
  ]

  -- The second loop of `cleanup_stale_connections`.
  unfoldable pub unregister_each : List ℕ → ConnectionManager Sender → ConnectionManager Sender
  unregister_each [] m = m
  unregister_each (id ∷ ids) m = unregister_each ids (unregister m id).0

  unfoldable pub has_user : ConnectionManager Sender → ℕ → Bool
  has_user m user_id = has user_id m.user_connections

  unfoldable pub user_connection_count : ConnectionManager Sender → ℕ → ℕ
  user_connection_count m user_id = elim (get user_id m.user_connections) [
    | none ↦ 0
    | some ids ↦ length ids
  ]

  unfoldable pub unique_users : ConnectionManager Sender → ℕ
  unique_users m = length m.user_connections

  unfoldable pub all_connection_ids : ConnectionManager Sender → List ℕ
  all_connection_ids m = keys m.connections

  unfoldable pub get_connection_info : ConnectionManager Sender → ℕ → Option ConnectionInfo
  get_connection_info m connection_id = elim (get connection_id m.connections) [
    | none ↦ none
    | some c ↦ some (record {
      connection_id = c.id;
      user_id = c.user_id;
      tenant_id = c.tenant_id;
      connected_at = c.connected_at;
      last_active_at = c.connected_at;
    })
  ]

  unfoldable pub get_subscriptions : ConnectionManager Sender → ℕ → Option ConnectionSubscriptions
  get_subscriptions m connection_id = elim (get connection_id m.connections) [
    | none ↦ none
    | some c ↦ some c.subscriptions
  ]

  -- The loop of `has_user_subscribed`.
  unfoldable pub any_subscribed : List (ℕ × Connection Sender) → ℕ → List ℕ → Bool
  any_subscribed conns conversation_id [] = false
  any_subscribed conns conversation_id (id ∷ ids) =
      let rest = any_subscribed conns conversation_id ids in
      elim (get id conns) [
        | none ↦ rest
        | some c ↦
            if Subscription.is_legacy_mode c.subscriptions
              || Subscription.is_subscribed c.subscriptions conversation_id
            then true
            else rest
      ]

  unfoldable pub has_user_subscribed : ConnectionManager Sender → ℕ → ℕ → Bool
  has_user_subscribed m user_id conversation_id =
      any_subscribed m.connections conversation_id (conns_of m user_id)
