-- ===== src/WebSocket/Requests.antt =====
-- The requests of api/websocket.rs that change the subscriptions of a connection.
use Prim.Native.String.{String}
use ara_chat_service.Base.{ℕ, List, [], ◌∷◌, Option, none, some, if◌then◌else◌, is_empty}
use ara_chat_service.Base.Results.{ok, err}
use ara_chat_service.Database.{World}
use ara_chat_service.Subscription
use ara_chat_service.Subscription.{ConnectionSubscriptions}
use ara_chat_service.Connection.{Channel, get_subscriptions}
use ara_chat_service.Conversation.{is_participant}
use ara_chat_service.Message.{subscription_updated, OutboundMessage}
use ara_chat_service.WebSocket.{AppState, Desk, put_subscriptions, with_manager, with_world, tell}

-- The ids of which the service says that the user takes part.
unfoldable pub valid_each : String → ℕ → List ℕ → World → List ℕ × World
valid_each tenant user_id [] w = ([], w)
valid_each tenant user_id (conv_id ∷ ids) w =
    let (answer, w1) = is_participant tenant conv_id user_id w in
    let (valid, w2) = valid_each tenant user_id ids w1 in
    ((elim answer [ ok b ↦ (if b then conv_id ∷ valid else valid) | err e ↦ valid ]), w2)

abbrev pub valid_ids : Option String → ℕ → List ℕ → World → List ℕ × World
valid_ids none user_id ids w = (ids, w)
valid_ids (some tenant) user_id ids w = valid_each tenant user_id ids w

module _ {S Sender Queue : Type 0} (channel : Channel Sender OutboundMessage) where
  -- What `handle_subscribe_conversations` does with the ids that are valid.
  abbrev pub subscribe_valid :
      ℕ → ℕ → ConnectionSubscriptions → List ℕ → Desk S Sender Queue → Desk S Sender Queue
  subscribe_valid connection_id user_id subs ids desk =
      if is_empty ids
      then tell channel user_id (subscription_updated [] [] (Subscription.count subs)) desk
      else (let (subs', result) = Subscription.subscribe subs ids in
          tell channel user_id
            (subscription_updated result.subscribed [] (Subscription.count subs'))
            (with_manager (put_subscriptions connection_id subs') desk))

  unfoldable pub handle_subscribe_conversations :
      AppState S Queue → ℕ → ℕ → List ℕ → Desk S Sender Queue → Desk S Sender Queue
  handle_subscribe_conversations state connection_id user_id conversation_ids desk =
      elim (get_subscriptions desk.site.net.manager connection_id) [
        | none ↦ desk
        | some subs ↦
            let (ids, w) =
              valid_ids state.conversation_service user_id conversation_ids desk.site.world in
            subscribe_valid connection_id user_id subs ids (with_world w desk)
      ]

  unfoldable pub handle_unsubscribe_conversations :
      ℕ → ℕ → List ℕ → Desk S Sender Queue → Desk S Sender Queue
  handle_unsubscribe_conversations connection_id user_id conversation_ids desk =
      elim (get_subscriptions desk.site.net.manager connection_id) [
        | none ↦ desk
        | some subs ↦
            let (subs', result) = Subscription.unsubscribe subs conversation_ids in
            tell channel user_id
              (subscription_updated [] result.unsubscribed (Subscription.count subs'))
              (with_manager (put_subscriptions connection_id subs') desk)
      ]
