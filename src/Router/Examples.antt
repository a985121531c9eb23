-- ===== src/Router/Examples.antt =====
-- User 10 writes to conversation 1, in which 10, 20 and 30 take part; 20 is connected.
use ara_chat_service.Base.{
  ℕ, true, false, not, ◌&&◌, List, [], ◌∷◌, none, some, contains, keep, if◌then◌else◌, ◌≡◌, refl,
  arith,
}
use ara_chat_service.Base.Results.{ok}
use ara_chat_service.Base.Map.{get}
use ara_chat_service.Database.{World}
use ara_chat_service.Connection.{
  Connection, ConnectionManager, ok as registered, register, store, with_limits, default_limits,
  new_connection,
}
use ara_chat_service.Connection.Index.{IsValid}
use ara_chat_service.Connection.Delivery.{deliver}
use ara_chat_service.Connection.Reach.{Reach, here, next, registers, reachable-IsValid}
use ara_chat_service.Conversation.{get_participant_ids}
use ara_chat_service.Conversation.Membership.{joining}
use ara_chat_service.Message.{ChatMessage, text, OutboundMessage, serialized}
use ara_chat_service.Cluster.{ClusterRouter}
use ara_chat_service.Cluster.Examples.{logs, serde}
use ara_chat_service.Router.{MessageRouter, Site, push_offline, route_message, unwrap_or_default}
use ara_chat_service.Router.Local.{passed_over, notified}
use ara_chat_service.Router.Messages.{
  muted_read, blocked_read, route_message_local, route_message_cluster,
}

abbrev pub world : World
world = record {
  tables = record {
    conversations = [];
    participants =
        joining "acme" 1 10 "owner" 2
        ∷ joining "acme" 1 20 "member" 2
        ∷ joining "acme" 1 30 "member" 2
        ∷ [];
    direct_lookup = [];
    messages = [];
    pins = [];
    blocks = [];
    reactions = [];
  };
  now = 5;
  queries = 0;
  answers = λ n. true;
}

abbrev pub line : Connection (List OutboundMessage)
line = new_connection 7 20 "acme" [] 2 0

abbrev pub manager : ConnectionManager (List OutboundMessage)
manager = store (with_limits default_limits) line

registration : register (with_limits default_limits) line ≡ registered manager
unfolding register with_limits new_connection
registration = refl

manager-Reach : Reach logs (with_limits default_limits) manager
unfolding with_limits
manager-Reach = next here (registers line manager refl registration)

pub manager-IsValid : IsValid manager
manager-IsValid =
    (reachable-IsValid logs default_limits manager (omega arith) (omega arith) manager-Reach).0

abbrev pub site : Site (List OutboundMessage) ℕ
site = record {
  net = record { manager = manager; queue = 0; published = [] };
  world = world;
  pushed = [];
}

abbrev pub alone : MessageRouter ℕ
alone = record {
  cluster_router = none;
  conversation_service = "acme";
  notification_publisher = true;
  blocking_service = some "acme";
}

abbrev cluster : ClusterRouter ℕ
cluster = record {
  find_user_servers = λ u. some [];
  redis_pool = none;
  offline_queue = some (λ queue u m. queue);
  server_id = "c";
}

abbrev joined : MessageRouter ℕ
joined = record alone { cluster_router = some cluster }

abbrev pub hi : ChatMessage
hi = record {
  id = 4;
  conversation_id = 1;
  sender_id = 10;
  content = "hi";
  content_type = text;
  created_at = 5;
  updated_at = none;
  reply_to_id = none;
  reply_context = none;
  thread_info = none;
  mentions = [];
  reactions = [];
  recalled_at = none;
  pinned_at = none;
  pinned_by = none;
  forwarded_from = none;
  rendering_hints = none;
}

listed : (get_participant_ids "acme" 1 world).0 ≡ ok (10 ∷ 20 ∷ 30 ∷ [])
unfolding get_participant_ids
listed = refl

route_message_local_example :
    let (done, after) = route_message logs serde alone hi site in
    let muted = unwrap_or_default (muted_read logs serde alone hi site).0 in
    let blocked = blocked_read logs serde alone hi site in
    (done ≡ ok tt)
    × ((j : ℕ) (c : Connection (List OutboundMessage))
        → get j manager.connections ≡ some c
        → get j after.net.manager.connections
          ≡ some (
              if not (passed_over hi blocked c.user_id) && contains c.user_id (10 ∷ 20 ∷ 30 ∷ [])
              then deliver logs 1 (serialized "hello") false c
              else c))
    × (after.pushed
        ≡ push_offline logs serde alone hi
            (keep (notified hi blocked muted manager) (10 ∷ 20 ∷ 30 ∷ []))
            [])
route_message_local_example =
    route_message_local logs serde alone hi site (10 ∷ 20 ∷ 30 ∷ []) "hello" refl manager-IsValid
      listed (refl, (refl, (refl, tt))) refl

route_message_cluster_example : (route_message logs serde joined hi site).1.pushed ≡ []
route_message_cluster_example = route_message_cluster logs serde joined hi site cluster refl
