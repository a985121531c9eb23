-- ===== src/WebSocket/Guards.antt =====
-- When `handle_send_message` of api/websocket.rs changes the tables, and what it does before.
use Prim.Native.String.{String}
use mathlib.Core.Path.{subst}
use ara_chat_service.Base.{
  ℕ, true, false, ◌&&◌, ◌||◌, List, [], ◌∷◌, Option, none, some, ◌==◌, ==_refl, ◌≡◌, ◌⊎◌, refl, sym,
  ap, ◌∙◌, arith, Option-cases, inl, inr, ◌++◌,
}
use ara_chat_service.Database.{MessageRow, World}
use ara_chat_service.RateLimit.{check_user_rate}
use ara_chat_service.Handler.{MessageHandler}
use ara_chat_service.Subscription.{
  ConnectionSubscriptions, IsValid, is_subscribed, is_legacy_mode, count, should_receive, subscribe,
}
use ara_chat_service.Subscription.Subscribe.{subscribe_only, subscribe_complete}
use ara_chat_service.Connection.{Channel, get_subscriptions}
use ara_chat_service.Message.{ContentType, OutboundMessage}
use ara_chat_service.Cluster.{Serde}
use ara_chat_service.WebSocket.{AppState, Desk, send_error}
use ara_chat_service.WebSocket.Sending.{is_limited, refusal, auto_subscribe, handle_send_message}
use ara_chat_service.WebSocket.Checked.{
  Passes, Passes-from, checked, send_checked_safe, sent_row, IsSendable, send_checked_complete,
}
use ara_chat_service.WebSocket.Sets.{
  subscriptions_at, get_subscriptions-put, get_subscriptions-send,
}

-- A call of `subscribe` ends the mode in which a connection takes everything.
should_receive-subscribe :
    (s : ConnectionSubscriptions) (ids : List ℕ) (c : ℕ)
    → should_receive (subscribe s ids).0 c false ≡ is_subscribed (subscribe s ids).0 c
unfolding should_receive subscribe
should_receive-subscribe s ids c = refl

should_receive-legacy :
    (s : ConnectionSubscriptions) (c : ℕ)
    → is_legacy_mode s ≡ true
    → should_receive s c false ≡ true
unfolding should_receive
should_receive-legacy s c h = rw h refl

module _ {S Sender Queue : Type 0} (channel : Channel Sender OutboundMessage) (serde : Serde)
    (mentioned : String → List ℕ) (parse_markdown : String → Option String)
    (encode_text : String → String) (state : AppState S Queue)
    (id connection_id user_id conversation_id : ℕ) (content : String) (content_type : ContentType)
    (reply_to : Option ℕ) (client_message_id : Option String) (mentions : List ℕ)
    (desk : Desk S Sender Queue) where
  abbrev pub after : Desk S Sender Queue
  after =
      handle_send_message channel serde mentioned parse_markdown encode_text state id connection_id
        user_id conversation_id content content_type reply_to client_message_id mentions desk

  abbrev subscribed_desk : Desk S Sender Queue
  subscribed_desk =
      auto_subscribe channel serde mentioned parse_markdown encode_text state connection_id
        conversation_id desk

  -- The subscription touches nothing but the connection.
  subscribed_desk_lem :
      (subscribed_desk.site.world ≡ desk.site.world) × (subscribed_desk.store ≡ desk.store)
  unfolding auto_subscribe get_subscriptions
  subscribed_desk_lem = ground arith

  subscribed_desk-at :
      (s : ConnectionSubscriptions)
      → state.auto_subscribe_on_send_message ≡ true
      → subscriptions_at desk connection_id ≡ some s
      → subscriptions_at subscribed_desk connection_id ≡ some (subscribe s (conversation_id ∷ [])).0
  unfolding auto_subscribe
  subscribed_desk-at s auto there =
      let s' : ConnectionSubscriptions = (subscribe s (conversation_id ∷ [])).0 in
      rw (auto, there)
        (get_subscriptions-put connection_id connection_id s' desk.site.net.manager
          ∙ rw (==_refl connection_id, there) refl)

  -- With automatic subscription, a message that is refused for its size or its mentions leaves the
  -- tables and the store of the services as they were, but subscribes the connection to the
  -- conversation that it names, in which the user need not take part, unless its set is full then: a
  -- connection that got the messages of all conversations, with a valid set, gets afterwards, system
  -- messages apart, only those of conversations in the set, which are among this one and those
  -- that stood in it before.
  pub refused_message_narrows :
      (code : String) (s : ConnectionSubscriptions) (c : ℕ)
      → refusal content mentions ≡ some code
      → state.auto_subscribe_on_send_message ≡ true
      → subscriptions_at desk connection_id ≡ some s
      → is_legacy_mode s ≡ true
      → IsValid s
      → (after.site.world ≡ desk.site.world)
        × (after.store ≡ desk.store)
        × (should_receive s c false ≡ true)
        × (s' : ConnectionSubscriptions) × (subscriptions_at after connection_id ≡ some s')
        × (should_receive s' c false
            ≡ (is_subscribed s' c && (is_subscribed s c || c == conversation_id)))
        × ((is_subscribed s' conversation_id ≡ true) ⊎ (count s' ≡ s.max_subscriptions))
  unfolding handle_send_message
  refused_message_narrows code s c refused auto there legacy valid =
      let told : after ≡ send_error channel user_id code subscribed_desk = rw refused refl in
      (
        ap (λ d. d.site.world) told ∙ subscribed_desk_lem.0,
        ap (λ d. d.store) told ∙ subscribed_desk_lem.1,
        should_receive-legacy s c legacy,
        (subscribe s (conversation_id ∷ [])).0,
        ap (λ d. subscriptions_at d connection_id) told
            ∙ get_subscriptions-send channel _ user_id connection_id
                subscribed_desk.site.net.manager
            ∙ subscribed_desk-at s auto there,
        should_receive-subscribe s (conversation_id ∷ []) c
            ∙ ground (arith, subscribe_only s (conversation_id ∷ []) c),
        subscribe_complete s (conversation_id ∷ []) conversation_id valid
            (ground (arith, ==_refl conversation_id)),
      )

  -- What follows the checks of the message itself, and what it then meets.
  abbrev sent : Desk S Sender Queue → Desk S Sender Queue
  sent =
      checked channel serde mentioned parse_markdown encode_text state id user_id conversation_id
        content content_type reply_to client_message_id mentions

  abbrev pub Passed : Desk S Sender Queue → Desk S Sender Queue → Type 0
  Passed =
      Passes channel serde mentioned parse_markdown encode_text state id user_id conversation_id
        content content_type reply_to client_message_id mentions

  -- Whatever fails: `handle_send_message` leaves the tables as they were, or the message is
  -- permitted in its size and its mentions, the rate limiter does not refuse it, the handler is
  -- there, the user takes part in the conversation, and no message is stored but this one, at
  -- most once: with the text escaped, and with those of the mentions, given or in the text, who
  -- take part.
  pub handle_send_message_safe :
      (after.site.world.tables ≡ desk.site.world.tables)
      ⊎ ((refusal content mentions ≡ none) × Passed desk after)
  unfolding handle_send_message
  handle_send_message_safe =
      let (world, store) = subscribed_desk_lem in
      elim (Option-cases (refusal content mentions)) [
        | inr (code, refused) ↦
            let told : after ≡ send_error channel user_id code subscribed_desk = rw refused refl in
            inl (ap (λ d. d.site.world.tables) told ∙ ap (λ w. w.tables) world)
        | inl fine ↦
            let told : after ≡ sent subscribed_desk = rw fine refl in
            elim (send_checked_safe channel serde mentioned parse_markdown encode_text state id
              user_id conversation_id content content_type reply_to client_message_id mentions
              subscribed_desk) [
                | inl kept ↦
                    inl (ap (λ d. d.site.world.tables) told ∙ kept ∙ ap (λ w. w.tables) world)
                | inr passed ↦
                    let there : Passed desk (sent subscribed_desk) =
                      Passes-from channel serde mentioned parse_markdown encode_text state id
                        user_id conversation_id content content_type reply_to client_message_id
                        mentions subscribed_desk desk (sent subscribed_desk) world store passed in
                    inr (fine, subst (Passed desk) (sym told) there)
              ]
      ]

  -- A message that passes every check is stored: it is permitted in its size and its mentions, the
  -- rate limiter does not refuse it, the handler is there, the database answers, the user takes
  -- part, has not sent it before, what it replies to is in the conversation and not recalled, the
  -- columns take the escaped text, the tenant and the client's id of the message (no NUL, and at
  -- most 64 characters in the latter two), and no row clashes with its own. Then the
  -- stored messages are those before and this one, whether or not it can be routed.
  pub handle_send_message_complete :
      (handler : MessageHandler Queue)
      → refusal content mentions ≡ none
      → is_limited (check_user_rate state.rate_limiter user_id desk.store).0 ≡ false
      → state.message_handler ≡ some handler
      → ((n : ℕ) → desk.site.world.answers n ≡ true)
      → IsSendable channel serde mentioned parse_markdown encode_text state id user_id
          conversation_id content content_type reply_to client_message_id mentions handler
          desk.site.world
      → after.site.world.tables.messages
        ≡ desk.site.world.tables.messages
          ++ sent_row channel serde mentioned parse_markdown encode_text state id user_id
              conversation_id content content_type reply_to client_message_id mentions handler
              desk.site.world
            ∷ []
  unfolding handle_send_message
  handle_send_message_complete handler fine few here up new =
      let (world, store) = subscribed_desk_lem in
      let row : World → MessageRow =
        sent_row channel serde mentioned parse_markdown encode_text state id user_id conversation_id
          content content_type reply_to client_message_id mentions handler in
      let new' =
        subst
          (IsSendable channel serde mentioned parse_markdown encode_text state id user_id
            conversation_id content content_type reply_to client_message_id mentions handler)
          (sym world) new in
      let told : after ≡ sent subscribed_desk = rw fine refl in
      ap (λ d. d.site.world.tables.messages) told
      ∙ send_checked_complete channel serde mentioned parse_markdown encode_text state id user_id
          conversation_id content content_type reply_to client_message_id mentions handler
          subscribed_desk
          (ap (λ s. is_limited (check_user_rate state.rate_limiter user_id s).0) store ∙ few) here
          (λ n. ap (λ w. w.answers n) world ∙ up n) new'
      ∙ ap (λ w. w.tables.messages ++ row w ∷ []) world
