-- ===== src/Presence/Audience.antt =====
-- Who is told of a change of presence that domain/presence/broadcast.rs spreads.
use Prim.Native.String.{String}
use text.Mathlib.Text.{◌==◌ as str_eq}
use mathlib.Core.Path.{subst}
use ara_chat_service.Base.{
  ℕ, true, false, not, ◌&&◌, List, [], ◌∷◌, none, some, ◌==◌, contains, is_empty, IsDistinct,
  if◌then◌else◌, ◌≡◌, refl, sym, ap, ◌∙◌, arith, Bool-cases, Option-cases, inl, inr,
}
use ara_chat_service.Base.Results.{ok}
use ara_chat_service.Base.Map.{get}
use ara_chat_service.Base.Offsets.{ℤ}
use ara_chat_service.Connection.{Channel, Connection, ConnectionManager, has_user}
use ara_chat_service.Connection.Index.{IsValid}
use ara_chat_service.Connection.Reach.{sends, Step-IsValid}
use ara_chat_service.Connection.Sending.{
  has_user_of_get, sent_to, send_to_user_exact, send_to_user_absent,
}
use ara_chat_service.Message.{PresenceStatus, presence, OutboundMessage, serialized, preserialized}
use ara_chat_service.Cluster.{
  ClusterRouter, Net, Serde, send_here, publish_to_server, route_servers, route_to_user,
  route_to_user_internal,
}
use ara_chat_service.Presence.Broadcast.{
  PresenceBroadcaster, Hub, is_offline, send_or_route, tell_each, broadcast_json,
  broadcast_presence_change,
}

module _ {Sender Queue : Type 0} (channel : Channel Sender OutboundMessage) (serde : Serde)
    (router : ClusterRouter Queue) (user_id : ℕ) (out : OutboundMessage) where
  publish-manager :
      (server : String) (net : Net Sender Queue)
      → (publish_to_server channel serde router server user_id out net).1.manager ≡ net.manager
  unfolding publish_to_server
  publish-manager server net = ground arith

  route_servers-manager :
      (servers : List String) (net : Net Sender Queue)
      → has_user net.manager user_id ≡ false
      → (route_servers channel serde router user_id out servers net).1.manager ≡ net.manager
  unfolding route_servers
  route_servers-manager [] net away = refl
  route_servers-manager (s ∷ servers) net away = elim (Bool-cases (str_eq s router.server_id)) [
    | inl here ↦
        let net1 : Net Sender Queue = send_here channel serde user_id out net in
        let same : net1.manager ≡ net.manager =
          send_to_user_absent channel out user_id net.manager away in
        rw (route_servers, here)
          (route_servers-manager servers net1 (ap (λ m. has_user m user_id) same ∙ away) ∙ same)
    | inr far ↦
        let net1 : Net Sender Queue =
          (publish_to_server channel serde router s user_id out net).1 in
        let same : net1.manager ≡ net.manager = publish-manager s net in
        ground (
          arith,
          far,
          same,
          route_servers-manager servers net1 (ap (λ m. has_user m user_id) same ∙ away),
        )
  ]

  -- Routing to a user who is not connected here changes no connection of this server.
  pub route_to_user-manager :
      (net : Net Sender Queue)
      → has_user net.manager user_id ≡ false
      → (route_to_user channel serde router user_id out net).1.manager ≡ net.manager
  unfolding route_to_user route_to_user_internal
  route_to_user-manager net away = elim (Option-cases (router.find_user_servers user_id)) [
    | inl e ↦ rw (away, e) refl
    | inr (servers, e) ↦ elim (Bool-cases (is_empty servers)) [
      | inl none_there ↦ rw (away, e, none_there) refl
      | inr some_there ↦ rw (away, e, some_there) (route_servers-manager servers net away)
    ]
  ]

module _ {S Sender Queue : Type 0} (channel : Channel Sender OutboundMessage) (serde : Serde)
    (broadcaster : PresenceBroadcaster S Queue) (user_id : ℕ) (out : OutboundMessage) where
  told :
      (t : ℕ) (targets : List ℕ) (c : Connection Sender)
      → t == user_id ≡ false
      → contains t targets ≡ false
      → let c1 : Connection Sender = if c.user_id == t then sent_to channel out c else c in
        (if not (c1.user_id == user_id) && contains c1.user_id targets
          then sent_to channel out c1
          else c1)
        ≡ (if not (c.user_id == user_id) && contains c.user_id (t ∷ targets)
            then sent_to channel out c
            else c)
  told t targets c other absent = elim (Bool-cases (c.user_id == t)) [
    | inl mine ↦
        let k : c.user_id ≡ t = ground (arith, mine) in
        let not_self : c.user_id == user_id ≡ false = ap (λ i. i == user_id) k ∙ other in
        let not_again : contains c.user_id targets ≡ false =
          ap (λ i. contains i targets) k ∙ absent in
        rw (mine, not_self, not_again) refl
    | inr others ↦ rw others refl
  ]

  not_told :
      (t : ℕ) (targets : List ℕ) (c : Connection Sender) (m : ConnectionManager Sender)
      → has_user m t ≡ false
      → has_user m c.user_id ≡ true
      → (if not (c.user_id == user_id) && contains c.user_id targets
          then sent_to channel out c
          else c)
        ≡ (if not (c.user_id == user_id) && contains c.user_id (t ∷ targets)
            then sent_to channel out c
            else c)
  not_told t targets c m away there = elim (Bool-cases (c.user_id == t)) [
    | inl mine ↦
        let k : c.user_id ≡ t = ground (arith, mine) in
        absurd (ground (arith, away, there, ap (has_user m) k))
    | inr others ↦ rw others refl
  ]

  step :
      (t : ℕ) (targets : List ℕ) (net net1 : Net Sender Queue) (j : ℕ)
      → (if t == user_id then net else send_or_route channel serde broadcaster t out net) ≡ net1
      → get j
          (tell_each channel serde broadcaster user_id out (t ∷ targets) net).manager.connections
        ≡ get j (tell_each channel serde broadcaster user_id out targets net1).manager.connections
  unfolding tell_each
  step t targets net net1 j e =
      ap
        (λ n. get j (tell_each channel serde broadcaster user_id out targets n).manager.connections)
        e

  tell_each_exact :
      (targets : List ℕ) (net : Net Sender Queue)
      → IsValid net.manager
      → IsDistinct targets
      → (j : ℕ) (c : Connection Sender) → get j net.manager.connections ≡ some c
      → get j (tell_each channel serde broadcaster user_id out targets net).manager.connections
        ≡ some (
            if not (c.user_id == user_id) && contains c.user_id targets
            then sent_to channel out c
            else c)
  unfolding tell_each send_or_route
  tell_each_exact [] net v d j c e = ground (arith, e)
  tell_each_exact (t ∷ targets) net v d j c e = elim (Bool-cases (t == user_id)) [
    | inl self ↦ let rest = tell_each_exact targets net v d.1 j c e in ground (arith, self, rest)
    | inr other ↦ elim (Bool-cases (has_user net.manager t)) [
      | inl here ↦
          let net1 : Net Sender Queue = send_here channel serde t out net in
          let c1 : Connection Sender = if c.user_id == t then sent_to channel out c else c in
          let sent : get j net1.manager.connections ≡ some c1 =
            send_to_user_exact channel out t j c net.manager v e in
          let w : IsValid net1.manager = Step-IsValid channel (sends t out) v in
          let rest = tell_each_exact targets net1 w d.1 j c1 sent in
          step t targets net net1 j (rw (other, send_or_route, here) refl)
          ∙ rest
          ∙ ap some (told t targets c other d.0)
      | inr away ↦
          let net1 : Net Sender Queue =
            (route_to_user channel serde broadcaster.cluster_router t out net).1 in
          let same : net1.manager ≡ net.manager =
            route_to_user-manager channel serde broadcaster.cluster_router t out net away in
          let rest =
            tell_each_exact targets net1 (subst IsValid (sym same) v) d.1 j c
              (ap (λ m. get j m.connections) same ∙ e) in
          let there = has_user_of_get j c net.manager v e in
          step t targets net net1 j (rw (other, send_or_route, away) refl)
          ∙ rest
          ∙ ap some (not_told t targets c net.manager away there)
    ]
  ]

module _ {S Sender Queue : Type 0} (channel : Channel Sender OutboundMessage) (serde : Serde)
    (broadcaster : PresenceBroadcaster S Queue) (user_id : ℕ) where
  -- When the message, in which the time stands only with the status offline, can be put into JSON,
  -- on a server whose table of connections is well formed and for users none of whom is named
  -- twice: `broadcast_presence_change` succeeds, whatever the cluster answers, and of the
  -- connections of this server exactly those of the users named, but not of the user himself, get
  -- the message, once.
  pub broadcast_presence_change_exact :
      (now : ℤ) (status : PresenceStatus) (json : String) (targets : List ℕ)
      (hub : Hub S Sender Queue)
      → serde.message_json (presence user_id status (if is_offline status then some now else none))
        ≡ some json
      → IsValid hub.net.manager
      → IsDistinct targets
      → let (done, after) =
          broadcast_presence_change channel serde broadcaster now user_id status targets hub in
        (done ≡ ok tt)
        × ((j : ℕ) (c : Connection Sender)
            → get j hub.net.manager.connections ≡ some c
            → get j after.net.manager.connections
              ≡ some (
                  if not (c.user_id == user_id) && contains c.user_id targets
                  then sent_to channel (serialized json) c
                  else c))
  unfolding broadcast_presence_change preserialized
  broadcast_presence_change_exact now status json targets hub as_json v d =
      let message = presence user_id status (if is_offline status then some now else none) in
      let out : preserialized serde.message_json message ≡ some (serialized json) =
        rw (preserialized, as_json) refl in
      (
        ap (λ o. (broadcast_json channel serde broadcaster user_id targets o hub).0) out,
        λ j c e.
            ap
              (λ o.
                get j
                  (broadcast_json channel serde broadcaster user_id targets o
                    hub).1.net.manager.connections)
              out
            ∙ tell_each_exact channel serde broadcaster user_id (serialized json) targets hub.net v
                d j c e,
      )
