-- ===== src/Presence/Broadcast.antt =====
-- domain/presence/broadcast.rs: who is told of a user's presence. The state is what routing changes
-- and the store of the tracker; `now` is the time of the call.
use ara_chat_service.Base.{
  ℕ, Bool, true, false, List, [], ◌∷◌, Option, none, some, ◌==◌, is_empty, if◌then◌else◌,
}
use ara_chat_service.Base.Results.{Result, ok, err}
use ara_chat_service.Base.Stateful.{Stateful, pure, ◌>>=◌}
use ara_chat_service.Base.Offsets.{ℤ}
use ara_chat_service.Connection.{Channel, has_user}
use ara_chat_service.Message.{
  PresenceStatus, offline, ServerMessage, presence, OutboundMessage, preserialized,
}
use ara_chat_service.Cluster.{ClusterRouter, Net, Serde, send_here, route_to_user}
use ara_chat_service.Session.{UserTexts}
use ara_chat_service.Presence.{PresenceError, PresenceTracker, get_subscribers}
use ara_chat_service.Presence.Status.{PresenceInfo, StatusTracker, get_presences}

-- The texts of the errors are left out.
pub data BroadcastError : Type 0 where
  serialization routing : BroadcastError

pub record PresenceBroadcaster (S Queue : Type 0) : Type 0 where
  pub cluster_router : ClusterRouter Queue
  pub presence_tracker : PresenceTracker S
  pub status_tracker : StatusTracker S

pub record Hub (S Sender Queue : Type 0) : Type 0 where
  pub net : Net Sender Queue
  pub store : S

abbrev pub is_offline : PresenceStatus → Bool
is_offline offline = true
is_offline other = false

abbrev pub routed : {A : Type 0} → Result PresenceError A → Result BroadcastError A
routed (ok a) = ok a
routed (err e) = err routing

module _ {S Sender Queue : Type 0} (channel : Channel Sender OutboundMessage) (serde : Serde)
    (broadcaster : PresenceBroadcaster S Queue) where
  -- To a user who is connected here directly, to any other over the cluster, whose errors are
  -- passed over.
  unfoldable pub send_or_route : ℕ → OutboundMessage → Net Sender Queue → Net Sender Queue
  send_or_route user_id out net =
      if has_user net.manager user_id
      then send_here channel serde user_id out net
      else (route_to_user channel serde broadcaster.cluster_router user_id out net).1

  -- The loop of `broadcast_presence_change`.
  unfoldable pub tell_each : ℕ → OutboundMessage → List ℕ → Net Sender Queue → Net Sender Queue
  unfolding send_or_route
  tell_each user_id out [] net = net
  tell_each user_id out (target_user ∷ targets) net =
      tell_each user_id out targets
        (if target_user == user_id then net else send_or_route target_user out net)

  abbrev pub broadcast_json :
      ℕ → List ℕ → Option OutboundMessage → Stateful (Hub S Sender Queue) BroadcastError (Unit {0})
  broadcast_json user_id targets none hub = (err serialization, hub)
  broadcast_json user_id targets (some out) hub =
      (ok tt, record hub { net = tell_each user_id out targets hub.net })

  unfoldable pub broadcast_presence_change :
      ℤ → ℕ → PresenceStatus → List ℕ → Stateful (Hub S Sender Queue) BroadcastError (Unit {0})
  unfolding tell_each
  broadcast_presence_change now user_id status interested_users =
      let last_seen : Option ℤ = if is_offline status then some now else none in
      broadcast_json user_id interested_users
        (preserialized serde.message_json (presence user_id status last_seen))

  -- A call of the tracker, with its error relabelled.
  abbrev pub ask :
      {A : Type 0} → Stateful S PresenceError A → Stateful (Hub S Sender Queue) BroadcastError A
  ask call hub = (routed (call hub.store).0, record hub { store = (call hub.store).1 })

  unfoldable pub get_interested_users :
      UserTexts → ℕ → Stateful (Hub S Sender Queue) BroadcastError (List ℕ)
  unfolding get_subscribers
  get_interested_users texts user_id =
      ask (get_subscribers texts broadcaster.presence_tracker user_id)

  unfoldable pub broadcast_to_subscribers :
      UserTexts → ℤ → ℕ → PresenceStatus → Stateful (Hub S Sender Queue) BroadcastError (Unit {0})
  unfolding get_interested_users broadcast_presence_change
  broadcast_to_subscribers texts now user_id status = do
    subscribers ← get_interested_users texts user_id
    if is_empty subscribers
        then pure tt
        else broadcast_presence_change now user_id status subscribers

  abbrev pub message_of : PresenceInfo → ServerMessage
  message_of info =
      presence info.user_id info.status
        (if is_offline info.status then some info.last_seen else none)

  -- The loop of `send_initial_presence`; a message without a JSON ends it.
  unfoldable pub send_each_presence :
      ℕ → List PresenceInfo → Stateful (Hub S Sender Queue) BroadcastError (Unit {0})
  unfolding send_or_route
  send_each_presence subscriber_id [] hub = (ok tt, hub)
  send_each_presence subscriber_id (info ∷ infos) hub =
      elim (preserialized serde.message_json (message_of info)) [
        | none ↦ (err serialization, hub)
        | some out ↦
            send_each_presence subscriber_id infos
              (record hub { net = send_or_route subscriber_id out hub.net })
      ]

  unfoldable pub send_initial_presence :
      ℕ → List ℕ → Stateful (Hub S Sender Queue) BroadcastError (Unit {0})
  unfolding get_presences send_each_presence
  send_initial_presence subscriber_id target_user_ids = do
    presences ← ask (get_presences broadcaster.status_tracker target_user_ids)
    send_each_presence subscriber_id presences
