-- ===== src/Cluster/Servers.antt =====
-- Which servers get a message that domain/cluster/router.rs routes.
use Prim.Native.String.{String}
use text.Mathlib.Text.{◌==◌ as str_eq}
use ara_chat_service.Base.{
  ℕ, Bool-cases, inl, inr, true, false, not, List, [], ◌∷◌, ◌++◌, Option, some, is_empty, any, keep,
  map, ◌≡◌, refl, sym, arith,
}
use ara_chat_service.Base.Results.{ok}
use ara_chat_service.Connection.{Channel, has_user}
use ara_chat_service.Connection.Channels.{send_to_user}
use ara_chat_service.Message.{ServerMessage, OutboundMessage, serialized, to_json}
use ara_chat_service.Cluster.{
  Redis, Serde, ClusterRouter, Net, channel_of, send_here, publish_to_server, route_servers,
  route_to_user_internal, handle_routed_message,
}

append_assoc : {A : Type 0} (xs ys zs : List A) → (xs ++ ys) ++ zs ≡ xs ++ (ys ++ zs)
append_assoc [] ys zs = refl
append_assoc (x ∷ xs) ys zs = ground (arith, append_assoc xs ys zs)

pub append_nil : {A : Type 0} (xs : List A) → xs ++ [] ≡ xs
append_nil [] = refl
append_nil (x ∷ xs) = ground (arith, append_nil xs)

module _ {Sender Queue : Type 0} (channel : Channel Sender OutboundMessage) (serde : Serde)
    (router : ClusterRouter Queue) (user_id : ℕ) (message : OutboundMessage) where
  -- The servers other than this one.
  abbrev pub others : List String → List String
  others servers = keep (λ s. not (str_eq s router.server_id)) servers

  -- Redis takes everything, and the message has a JSON.
  pub record IsUp (redis : Redis) (message_json payload : String) : Type 0 where
    pub pool : router.redis_pool ≡ some redis
    pub connected : redis.get_connection ≡ true
    pub takes : (c : String) → redis.publish c payload ≡ true
    pub as_json : to_json serde.message_json message ≡ some message_json
    pub as_payload :
        serde.payload_json (record { user_id = user_id; message_json = message_json })
        ≡ some payload

  module _ (redis : Redis) (message_json payload : String)
      (up : IsUp redis message_json payload) where
    publish_up :
        (server : String) (net : Net Sender Queue)
        → publish_to_server channel serde router server user_id message net
          ≡ (ok tt, record net { published = net.published ++ (channel_of server, payload) ∷ [] })
    unfolding publish_to_server
    publish_up server net =
        ground
          (arith, up.pool, up.connected, up.takes (channel_of server), up.as_json, up.as_payload)

    servers_up :
        (servers : List String) (net : Net Sender Queue)
        → let (done, after) = route_servers channel serde router user_id message servers net in
          (done ≡ ok tt)
          × (after.queue ≡ net.queue)
          × (any (λ s. str_eq s router.server_id) servers ≡ false → after.manager ≡ net.manager)
          × (after.published ≡ net.published ++ map (λ s. (channel_of s, payload)) (others servers))
    unfolding route_servers
    servers_up [] net = (refl, refl, λ h. refl, sym (append_nil net.published))
    servers_up (server ∷ servers) net = elim (Bool-cases (str_eq server router.server_id)) [
      | inl own ↦
          ground (arith, own, servers_up servers (send_here channel serde user_id message net))
      | inr other ↦
          let net' : Net Sender Queue = record net {
            published = net.published ++ (channel_of server, payload) ∷ [];
          } in
          ground (
            arith,
            other,
            publish_up server net,
            servers_up servers net',
            append_assoc net.published ((channel_of server, payload) ∷ [])
                (map (λ s. (channel_of s, payload)) (others servers)),
          )
    ]

    others_all :
        (servers : List String)
        → any (λ s. str_eq s router.server_id) servers ≡ false
        → others servers ≡ servers
    others_all [] h = refl
    others_all (s ∷ servers) h = ground (arith, others_all servers)

    -- A user who is not here but at some servers, this one not among them: with Redis up, every one
    -- of them gets the message exactly once, in their order, and nothing else changes; and the
    -- server that handles a publication sends the JSON of the message to the user's connections.
    pub remote_delivery :
        (server_message : Option ServerMessage) (servers : List String) (net : Net Sender Queue)
        → has_user net.manager user_id ≡ false
        → router.find_user_servers user_id ≡ some servers
        → is_empty servers ≡ false
        → any (λ s. str_eq s router.server_id) servers ≡ false
        → let (done, after) =
            route_to_user_internal channel serde router user_id message server_message net in
          (done ≡ ok tt)
          × (after ≡ record net {
            published = net.published ++ map (λ s. (channel_of s, payload)) servers;
          })
          × ((remote : Net Sender Queue)
              → serde.payload_from payload
                ≡ some (record { user_id = user_id; message_json = message_json })
              → handle_routed_message channel serde payload remote ≡ (
                ok tt,
                record remote {
                  manager = send_to_user channel remote.manager user_id (serialized message_json);
                },
              ))
    unfolding route_to_user_internal handle_routed_message
    remote_delivery server_message servers net away found some_there elsewhere =
        let (done, queue, manager, published) = servers_up servers net in
        let after = (route_servers channel serde router user_id message servers net).1 in
        let same : after ≡ record net {
          published = net.published ++ map (λ s. (channel_of s, payload)) servers;
        } =
          ground (arith, manager elsewhere, queue, published, others_all servers elsewhere) in
        (
          ground (arith, away, found, some_there, done),
          ground (arith, away, found, some_there, same),
          λ remote parsed. ground (arith, parsed),
        )
