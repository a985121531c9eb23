-- ===== src/WebSocket.antt =====
-- api/websocket.rs: the requests of a client that change what its connection subscribes to, and its
-- requests to send a message. The state is that of the router and the store of the services that
-- Redis keeps. Parameters are the function of the html_escape library and the queue of link previews.
pub mod Sets
pub mod Requests
pub mod Sending
pub mod Subscribing
pub mod Checked
pub mod Guards
pub mod Unread
pub mod Examples
use Prim.Native.String
use Prim.Native.String.{String}
use ara_chat_service.Base.{
  ℕ, Bool, true, false, not, ◌||◌, List, [], ◌∷◌, Option, none, some, ◌==◌, ltb, if◌then◌else◌,
  length, is_empty,
}
use ara_chat_service.Base.Map.{get, insert}
use ara_chat_service.Base.Results.{Result, ok, err}
use ara_chat_service.Database.{World}
use ara_chat_service.Subscription
use ara_chat_service.Subscription.{ConnectionSubscriptions}
use ara_chat_service.Connection.{Channel, ConnectionManager, get_subscriptions}
use ara_chat_service.Connection.Channels.{send_to_user}
use ara_chat_service.Conversation.{is_participant, get_participant_ids}
use ara_chat_service.Message.{
  ContentType, ChatMessage, ServerMessage, message_sent, subscription_updated, error,
  OutboundMessage, raw,
}
use ara_chat_service.Cluster.{Serde, Net}
use ara_chat_service.Router.{Site}
use ara_chat_service.Handler.{MessageHandler, MessageHandlerError}
use ara_chat_service.Handler.Sending.{handle_send_message as send_by_handler}
use ara_chat_service.Redis.Tallies.{RedisTallies}
use ara_chat_service.Receipt.{UnreadKey, increment_unread}
use ara_chat_service.RateLimit.{RateLimiter, RateLimitResult, RateLimitError, check_user_rate}

-- What these handlers use of `AppState`: a conversation service is its tenant, a receipt tracker its
-- cache, and the service of link previews the change that `enqueue_previews` makes.
pub record AppState (S Queue : Type 0) : Type 0 where
  pub auto_subscribe_on_send_message : Bool
  pub rate_limiter : RateLimiter S
  pub message_handler : Option (MessageHandler Queue)
  pub conversation_service : Option String
  pub receipt_tracker : Option (Option (RedisTallies S UnreadKey))
  pub link_preview_service : Option (ℕ → String → S → S)

pub record Desk (S Sender Queue : Type 0) : Type 0 where
  pub site : Site Sender Queue
  pub store : S

-- `subs.subscribe(…)` and `unsubscribe`: the set of a connection is shared, so the table sees it.
abbrev pub put_subscriptions :
    {Sender : Type 0}
    → ℕ
    → ConnectionSubscriptions
    → ConnectionManager Sender
    → ConnectionManager Sender
put_subscriptions connection_id subs m = elim (get connection_id m.connections) [
  | none ↦ m
  | some c ↦ record m {
    connections = insert connection_id (record c { subscriptions = subs }) m.connections;
  }
]

module _ {S Sender Queue : Type 0} where
  abbrev pub with_manager :
      (ConnectionManager Sender → ConnectionManager Sender)
      → Desk S Sender Queue
      → Desk S Sender Queue
  with_manager change desk = record desk {
    site = record (desk.site) {
      net = record (desk.site.net) { manager = change desk.site.net.manager };
    };
  }

  abbrev pub with_world : World → Desk S Sender Queue → Desk S Sender Queue
  with_world w desk = record desk { site = record (desk.site) { world = w } }

module _ {S Sender Queue : Type 0} (channel : Channel Sender OutboundMessage) where
  -- `connection_manager.send_to_user(&user_id, message.into())`
  abbrev pub tell : ℕ → ServerMessage → Desk S Sender Queue → Desk S Sender Queue
  tell user_id sent = with_manager (λ m. send_to_user channel m user_id (raw sent))

  abbrev pub send_error : ℕ → String → Desk S Sender Queue → Desk S Sender Queue
  send_error user_id code = tell user_id (error code)
