-- ===== src/WebSocket/Examples.antt =====
-- User 20 on connection 7: a member of conversation 1, not of 2.
use ara_chat_service.Base.{
  ℕ, true, false, ◌&&◌, ◌||◌, List, [], ◌∷◌, none, some, ◌==◌, contains, ◌≡◌, ◌⊎◌, refl, arith,
}
use ara_chat_service.Subscription.{
  ConnectionSubscriptions, new, is_subscribed, is_legacy_mode, should_receive, count, subscribe,
}
use ara_chat_service.Connection.{get_subscriptions, with_limits, new_connection}
use ara_chat_service.Connection.Channels.{send_to_user, send_each}
use ara_chat_service.Conversation.{is_participant}
use ara_chat_service.Message.{OutboundMessage, text}
use ara_chat_service.Receipt.{unread}
use ara_chat_service.Receipt.Examples.{Store, redis, at, laws, up, empty}
use ara_chat_service.Cluster.Examples.{logs, serde}
use ara_chat_service.Router.Examples.{line, site, alone, hi}
use ara_chat_service.Handler.{MessageHandler, new_handler}
use ara_chat_service.WebSocket.{AppState, Desk}
use ara_chat_service.WebSocket.Requests.{valid_each, handle_subscribe_conversations}
use ara_chat_service.WebSocket.Sending.{is_limited, handle_send_message, refusal}
use ara_chat_service.WebSocket.Subscribing.{
  takes_part, handle_subscribe_conversations_safe, handle_subscribe_conversations_complete,
}
use ara_chat_service.WebSocket.Sets.{subscriptions_at}
use ara_chat_service.WebSocket.Guards.{
  Passed, refused_message_narrows, handle_send_message_safe, handle_send_message_complete,
}
use ara_chat_service.RateLimit.{check_user_rate}
use ara_chat_service.WebSocket.Checked.{sent_row, IsSendable}
use ara_chat_service.WebSocket.Unread.{answered, after_handler_counts}

abbrev handler : MessageHandler ℕ
handler = record (new_handler alone) { conversation_service = "acme" }

abbrev state : AppState Store ℕ
state = record {
  auto_subscribe_on_send_message = true;
  rate_limiter = record { redis = none; max_messages = 60; window_seconds = 60 };
  message_handler = some handler;
  conversation_service = some "acme";
  receipt_tracker = some (some redis);
  link_preview_service = none;
}

abbrev desk : Desk Store (List OutboundMessage) ℕ
desk = record { site = site; store = empty }

abbrev subs : ConnectionSubscriptions
subs = line.subscriptions

there : subscriptions_at desk 7 ≡ some subs
unfolding get_subscriptions with_limits new_connection
there = refl

abbrev asked : Desk Store (List OutboundMessage) ℕ
asked = handle_subscribe_conversations logs state 7 20 (1 ∷ 2 ∷ []) desk

only_valid : subscriptions_at asked 7 ≡ some (subscribe subs (1 ∷ [])).0
unfolding get_subscriptions handle_subscribe_conversations valid_each is_participant subscribe
    with_limits new_connection send_to_user send_each
only_valid = refl

handle_subscribe_conversations_safe_example :
    (s' : ConnectionSubscriptions) × (subscriptions_at asked 7 ≡ some s')
    × (is_subscribed s' 2 ≡ (
        is_subscribed subs 2
        || (is_subscribed s' 2
            && (contains 2 (1 ∷ 2 ∷ [])
                && takes_part "acme" 20 desk.site.world.tables.participants 2))))
    × (subscriptions_at asked 8 ≡ subscriptions_at desk 8)
    × (asked.site.world.tables ≡ desk.site.world.tables)
handle_subscribe_conversations_safe_example =
    handle_subscribe_conversations_safe logs state "acme" refl 7 20 (1 ∷ 2 ∷ []) subs desk there 2 8
      refl

handle_subscribe_conversations_complete_example :
    (s' : ConnectionSubscriptions) × (subscriptions_at asked 7 ≡ some s')
    × ((is_subscribed s' 1 ≡ true) ⊎ (count s' ≡ subs.max_subscriptions))
unfolding new new_connection
handle_subscribe_conversations_complete_example =
    handle_subscribe_conversations_complete logs state "acme" refl 7 20 (1 ∷ 2 ∷ []) subs desk there
      1 (record { distinct = tt; bounded = omega arith }) (λ n. refl) refl refl

-- An empty message to conversation 2.
abbrev refused : Desk Store (List OutboundMessage) ℕ
refused =
    handle_send_message logs serde (λ s. []) (λ s. none) (λ s. s) state 4 7 20 2 "" text none none
      [] desk

refused_message_narrows_example :
    (refused.site.world ≡ desk.site.world)
    × (refused.store ≡ desk.store)
    × (should_receive subs 1 false ≡ true)
    × (s' : ConnectionSubscriptions) × (subscriptions_at refused 7 ≡ some s')
    × (should_receive s' 1 false ≡ (is_subscribed s' 1 && (is_subscribed subs 1 || 1 == 2)))
    × ((is_subscribed s' 2 ≡ true) ⊎ (count s' ≡ subs.max_subscriptions))
unfolding is_legacy_mode new new_connection refusal
refused_message_narrows_example =
    refused_message_narrows logs serde (λ s. []) (λ s. none) (λ s. s) state 4 7 20 2 "" text none
      none [] desk "EMPTY_CONTENT" subs 1 refl refl there refl
      (record { distinct = tt; bounded = omega arith })

abbrev sent : Desk Store (List OutboundMessage) ℕ
sent =
    handle_send_message logs serde (λ s. []) (λ s. none) (λ s. s) state 4 7 20 1 "hi" text none none
      [] desk

handle_send_message_safe_example :
    (sent.site.world.tables ≡ desk.site.world.tables)
    ⊎ ((refusal "hi" [] ≡ none)
        × Passed logs serde
            (λ s. [])
            (λ s. none)
            (λ s. s)
            state
            4
            7
            20
            1
            "hi"
            text
            none
            none
            []
            desk
            desk
            sent)
handle_send_message_safe_example =
    handle_send_message_safe logs serde (λ s. []) (λ s. none) (λ s. s) state 4 7 20 1 "hi" text none
      none [] desk

permitted : refusal "hi" [] ≡ none
unfolding refusal
permitted = refl

under_limit : is_limited (check_user_rate state.rate_limiter 20 empty).0 ≡ false
unfolding check_user_rate
under_limit = refl

hi-IsSendable :
    IsSendable logs serde
      (λ s. [])
      (λ s. none)
      (λ s. s)
      state
      4
      20
      1
      "hi"
      text
      none
      none
      []
      handler
      desk.site.world
hi-IsSendable = record {
  takes_part = refl;
  not_sent = λ client_id e. refl;
  replies = λ reply_to_id e. cc e;
  fits = refl;
  fresh = refl;
}

handle_send_message_complete_example :
    sent.site.world.tables.messages
    ≡ sent_row logs serde
        (λ s. [])
        (λ s. none)
        (λ s. s)
        state
        4
        20
        1
        "hi"
        text
        none
        none
        []
        handler
        desk.site.world
      ∷ []
handle_send_message_complete_example =
    handle_send_message_complete logs serde (λ s. []) (λ s. none) (λ s. s) state 4 7 20 1 "hi" text
      none none [] desk handler permitted under_limit refl (λ n. refl) hi-IsSendable

after_handler_counts_example :
    at
      (answered logs serde
        (λ s. [])
        (λ s. none)
        (λ s. s)
        state
        redis
        at
        laws
        up
        20
        1
        none
        hi
        "acme"
        desk).store
      (unread 10 1)
    ≡ 1
after_handler_counts_example =
    after_handler_counts logs serde (λ s. []) (λ s. none) (λ s. s) state redis at laws up 20 1 none
      hi "acme" desk refl refl (λ enqueue s k e. cc e) refl (refl, (refl, (refl, tt))) 10 1
