-- ===== src/WebSocket/Sending.antt =====
-- `handle_send_message` of api/websocket.rs and the limits of domain/validation/limits.rs.
use Prim.Native.String
use Prim.Native.String.{String}
use ara_chat_service.Base.{
  ℕ, Bool, false, not, List, [], ◌∷◌, Option, none, some, ◌==◌, ltb, if◌then◌else◌, length,
}
use ara_chat_service.Base.Results.{Result, ok, err}
use ara_chat_service.Subscription
use ara_chat_service.Subscription.{ConnectionSubscriptions}
use ara_chat_service.Connection.{Channel, get_subscriptions}
use ara_chat_service.Conversation.{get_participant_ids}
use ara_chat_service.Message.{ContentType, ChatMessage, message_sent, OutboundMessage}
use ara_chat_service.Cluster.{Serde}
use ara_chat_service.Handler.{MessageHandler, MessageHandlerError}
use ara_chat_service.Handler.Sending.{handle_send_message as send_by_handler}
use ara_chat_service.Redis.Tallies.{RedisTallies}
use ara_chat_service.Receipt.{UnreadKey, increment_unread}
use ara_chat_service.RateLimit.{RateLimitResult, RateLimitError, check_user_rate}
use ara_chat_service.WebSocket.{
  AppState, Desk, put_subscriptions, with_manager, with_world, tell, send_error,
}

-- `limits` of domain/validation/limits.rs
abbrev pub max_message_length : ℕ
max_message_length = 10000

abbrev pub max_mentions_per_message : ℕ
max_mentions_per_message = 50

-- `ReadReceiptTracker::increment_unread`, whose result is dropped.
abbrev pub track_unread : {S : Type 0} → Option (RedisTallies S UnreadKey) → ℕ → ℕ → S → S
track_unread none user_id conversation_id s = s
track_unread (some cache) user_id conversation_id s =
    (increment_unread cache user_id conversation_id s).1

-- The loop over the participants.
unfoldable pub count_unread :
    {S : Type 0} → Option (RedisTallies S UnreadKey) → ℕ → ℕ → List ℕ → S → S
count_unread cache user_id conversation_id [] s = s
count_unread cache user_id conversation_id (participant_id ∷ participants) s =
    count_unread cache user_id conversation_id participants
      (if participant_id == user_id then s else track_unread cache participant_id conversation_id s)

-- `content.is_empty()`, `content.len()` in bytes, and the number of mentions: the code of the error.
unfoldable pub refusal : String → List ℕ → Option String
refusal content mentions =
    if String.len content == 0
    then some "EMPTY_CONTENT"
    else if ltb max_message_length (String.len content)
    then some "CONTENT_TOO_LONG"
    else if ltb max_mentions_per_message (length mentions)
    then some "TOO_MANY_MENTIONS"
    else none

-- A failure of the limiter lets the message through.
abbrev pub is_limited : Result RateLimitError RateLimitResult → Bool
is_limited (ok result) = not result.is_allowed
is_limited (err e) = false

module _ {S Sender Queue : Type 0} (channel : Channel Sender OutboundMessage) (serde : Serde)
    (mentioned : String → List ℕ) (parse_markdown : String → Option String)
    (encode_text : String → String) (state : AppState S Queue) where
  abbrev pub subscribe_to :
      ℕ → ℕ → Option ConnectionSubscriptions → Desk S Sender Queue → Desk S Sender Queue
  subscribe_to connection_id conversation_id none desk = desk
  subscribe_to connection_id conversation_id (some subs) desk =
      with_manager
        (put_subscriptions connection_id (Subscription.subscribe subs (conversation_id ∷ [])).0)
        desk

  -- The subscription that comes before all else.
  unfoldable pub auto_subscribe : ℕ → ℕ → Desk S Sender Queue → Desk S Sender Queue
  auto_subscribe connection_id conversation_id desk =
      if state.auto_subscribe_on_send_message
      then subscribe_to connection_id conversation_id
          (get_subscriptions desk.site.net.manager connection_id) desk
      else desk

  -- The unread counts of the other participants, where all the services are there.
  abbrev pub count_all : ℕ → ℕ → Desk S Sender Queue → Desk S Sender Queue
  count_all user_id conversation_id desk = elim state.conversation_service [
    | none ↦ desk
    | some tenant ↦
        let (listed, w) = get_participant_ids tenant conversation_id desk.site.world in
        let desk' : Desk S Sender Queue = with_world w desk in
        elim listed [
          | err e ↦ desk'
          | ok participants ↦ elim state.receipt_tracker [
            | none ↦ desk'
            | some cache ↦ record desk' {
              store = count_unread cache user_id conversation_id participants desk'.store;
            }
          ]
        ]
  ]

  abbrev pub enqueue_previews : ChatMessage → Desk S Sender Queue → Desk S Sender Queue
  enqueue_previews message desk = elim state.link_preview_service [
    | none ↦ desk
    | some enqueue ↦ record desk { store = enqueue message.id message.content desk.store }
  ]

  -- The answer to the sender, and what follows a message that was sent.
  unfoldable pub after_handler :
      ℕ
      → ℕ
      → Option String
      → Result MessageHandlerError ChatMessage
      → Desk S Sender Queue
      → Desk S Sender Queue
  unfolding count_unread
  after_handler user_id conversation_id client_message_id (err e) desk =
      send_error channel user_id "SEND_FAILED" desk
  after_handler user_id conversation_id client_message_id (ok message) desk =
      enqueue_previews message (
        count_all user_id conversation_id (
          tell channel user_id
            (message_sent conversation_id message.id client_message_id message.created_at) desk))

  abbrev pub to_handler :
      Option (MessageHandler Queue)
      → ℕ
      → ℕ
      → ℕ
      → String
      → ContentType
      → Option ℕ
      → Option String
      → List ℕ
      → Desk S Sender Queue
      → Desk S Sender Queue
  to_handler none id user_id conversation_id content content_type reply_to client_message_id
        mentions desk =
      send_error channel user_id "SERVICE_UNAVAILABLE" desk
  to_handler (some handler) id user_id conversation_id content content_type reply_to
        client_message_id mentions desk =
      let (answer, site) =
        send_by_handler channel serde mentioned parse_markdown handler id user_id conversation_id
          content content_type reply_to client_message_id mentions desk.site in
      after_handler user_id conversation_id client_message_id answer (record desk { site = site })

  -- `handle_send_message` for a message of a permitted size; `id` is the id of the new message.
  unfoldable pub send_checked :
      ℕ
      → ℕ
      → ℕ
      → String
      → ContentType
      → Option ℕ
      → Option String
      → List ℕ
      → Desk S Sender Queue
      → Desk S Sender Queue
  unfolding after_handler
  send_checked id user_id conversation_id content content_type reply_to client_message_id mentions
        desk =
      let (answer, store) = check_user_rate state.rate_limiter user_id desk.store in
      let desk' : Desk S Sender Queue = record desk { store = store } in
      if is_limited answer
      then send_error channel user_id "RATE_LIMITED" desk'
      else to_handler state.message_handler id user_id conversation_id (encode_text content)
          content_type reply_to client_message_id mentions desk'

  -- What is done with a message, given its refusal.
  abbrev pub unless_refused :
      Option String
      → ℕ
      → (Desk S Sender Queue → Desk S Sender Queue)
      → Desk S Sender Queue
      → Desk S Sender Queue
  unless_refused (some code) user_id send desk = send_error channel user_id code desk
  unless_refused none user_id send desk = send desk

  unfoldable pub handle_send_message :
      ℕ
      → ℕ
      → ℕ
      → ℕ
      → String
      → ContentType
      → Option ℕ
      → Option String
      → List ℕ
      → Desk S Sender Queue
      → Desk S Sender Queue
  unfolding auto_subscribe send_checked
  handle_send_message id connection_id user_id conversation_id content content_type reply_to
        client_message_id mentions desk =
      unless_refused (refusal content mentions) user_id
        (send_checked id user_id conversation_id content content_type reply_to client_message_id
          mentions)
        (auto_subscribe connection_id conversation_id desk)
