-- ===== src/WebSocket/Checked.antt =====
-- The checks of `handle_send_message` of api/websocket.rs that follow those of the message itself.
use Prim.Native.String.{String}
use mathlib.Core.Path.{subst}
use ara_chat_service.Base.{
  ℕ, Bool, true, false, List, Option, some, ◌≡◌, ◌⊎◌, refl, sym, ap, ◌∙◌, arith, Bool-cases,
  Option-cases, inl, inr, ◌++◌, [], ◌∷◌,
}
use ara_chat_service.Base.Results.{Result, ok, err}
use ara_chat_service.Database.{MessageRow, World}
use ara_chat_service.Connection.{Channel}
use ara_chat_service.Conversation.{get_participant_ids, is_participant, database}
use ara_chat_service.Message.{ContentType, ChatMessage, OutboundMessage}
use ara_chat_service.Cluster.{Serde}
use ara_chat_service.Router.{Site}
use ara_chat_service.Handler.{not_participant, conversation, MessageHandler, MessageHandlerError}
use ara_chat_service.Handler.Storing.{handle_send_message_appends}
use ara_chat_service.Handler.NewMessages.{new_row, IsNew}
use ara_chat_service.Handler.Stores.{Stored, Stored-same, handle_send_message_stores}
use ara_chat_service.Handler.Sending.{handle_send_message as send_by_handler}
use ara_chat_service.RateLimit.{check_user_rate}
use ara_chat_service.WebSocket.{AppState, Desk}
use ara_chat_service.WebSocket.Sending.{is_limited, after_handler, send_checked}
use ara_chat_service.WebSocket.Subscribing.{takes_part}

module _ {S Sender Queue : Type 0} (channel : Channel Sender OutboundMessage) (serde : Serde)
    (mentioned : String → List ℕ) (parse_markdown : String → Option String)
    (encode_text : String → String) (state : AppState S Queue) (id user_id conversation_id : ℕ)
    (content : String) (content_type : ContentType) (reply_to : Option ℕ)
    (client_message_id : Option String) (mentions : List ℕ) where
  -- The handler stores nothing for a user of whom the database does not say that he takes part.
  send_by_handler-guard :
      (handler : MessageHandler Queue) (text : String) (site : Site Sender Queue)
      → takes_part handler.conversation_service user_id site.world.tables.participants
          conversation_id
        ≡ false
      → let answer =
          send_by_handler channel serde mentioned parse_markdown handler id user_id conversation_id
            text content_type reply_to client_message_id mentions site in
        ((e : MessageHandlerError) × (answer.0 ≡ err e))
        × (answer.1.world.tables ≡ site.world.tables)
  unfolding send_by_handler is_participant
  send_by_handler-guard handler text site away =
      elim (Bool-cases (site.world.answers site.world.queries)) [
        | inl up ↦ ((not_participant, ground (arith, up)), ground (arith, up))
        | inr down ↦ ((conversation database, ground (arith, down)), ground (arith, down))
      ]

  -- What follows a message that was sent changes no table.
  after_handler_tables :
      (answer : Result MessageHandlerError ChatMessage) (d : Desk S Sender Queue)
      → (after_handler channel serde mentioned parse_markdown encode_text state user_id
          conversation_id client_message_id answer d).site.world.tables
        ≡ d.site.world.tables
  unfolding after_handler get_participant_ids
  after_handler_tables (err e) d = refl
  after_handler_tables (ok m) d = ground arith

  -- What the handler does to the stored messages.
  abbrev pub Stores : MessageHandler Queue → Site Sender Queue → Site Sender Queue → Type 0
  Stores handler =
      Stored channel serde mentioned parse_markdown handler id user_id conversation_id
        (encode_text content) content_type reply_to client_message_id mentions

  -- What a message meets before it is stored, and what is stored: the desks before and after.
  abbrev pub Passes : Desk S Sender Queue → Desk S Sender Queue → Type 0
  Passes d d' =
      (is_limited (check_user_rate state.rate_limiter user_id d.store).0 ≡ false)
      × (handler : MessageHandler Queue) × (state.message_handler ≡ some handler)
      × (takes_part handler.conversation_service user_id d.site.world.tables.participants
            conversation_id
          ≡ true)
      × Stores handler d.site d'.site

  -- They read the world and the store only.
  pub Passes-from :
      (d e d' : Desk S Sender Queue)
      → d.site.world ≡ e.site.world
      → d.store ≡ e.store
      → Passes d d'
      → Passes e d'
  Passes-from d e d' world store (few, handler, here, part, stored) = (
    ap (λ s. is_limited (check_user_rate state.rate_limiter user_id s).0) (sym store) ∙ few,
    handler,
    here,
    ap (λ w. takes_part handler.conversation_service user_id w.tables.participants conversation_id)
          (sym world)
        ∙ part,
    subst (λ w. Stores handler (record (d.site) { world = w }) d'.site) world stored,
  )

  abbrev pub checked : Desk S Sender Queue → Desk S Sender Queue
  checked =
      send_checked channel serde mentioned parse_markdown encode_text state id user_id
        conversation_id content content_type reply_to client_message_id mentions

  -- A message that passes changes the tables as the handler does.
  checked_tables :
      (handler : MessageHandler Queue) (d : Desk S Sender Queue)
      → is_limited (check_user_rate state.rate_limiter user_id d.store).0 ≡ false
      → state.message_handler ≡ some handler
      → (checked d).site.world.tables
        ≡ (send_by_handler channel serde mentioned parse_markdown handler id user_id conversation_id
            (encode_text content)
            content_type
            reply_to
            client_message_id
            mentions
            d.site).1.world.tables
  unfolding send_checked
  checked_tables handler d few here =
      let (limit, store) = check_user_rate state.rate_limiter user_id d.store in
      let (answer, site) =
        send_by_handler channel serde mentioned parse_markdown handler id user_id conversation_id
          (encode_text content) content_type reply_to client_message_id mentions d.site in
      ground
        (arith, few, here, after_handler_tables answer (record d { site = site; store = store }))

  abbrev pub sent_row : MessageHandler Queue → World → MessageRow
  sent_row handler =
      new_row mentioned parse_markdown handler id user_id conversation_id (encode_text content)
        content_type reply_to client_message_id mentions

  abbrev pub IsSendable : MessageHandler Queue → World → Type 0
  IsSendable handler =
      IsNew mentioned parse_markdown handler id user_id conversation_id (encode_text content)
        content_type reply_to client_message_id mentions

  pub send_checked_complete :
      (handler : MessageHandler Queue) (d : Desk S Sender Queue)
      → is_limited (check_user_rate state.rate_limiter user_id d.store).0 ≡ false
      → state.message_handler ≡ some handler
      → ((n : ℕ) → d.site.world.answers n ≡ true)
      → IsSendable handler d.site.world
      → (checked d).site.world.tables.messages
        ≡ d.site.world.tables.messages ++ sent_row handler d.site.world ∷ []
  send_checked_complete handler d few here up new =
      ap (λ t. t.messages) (checked_tables handler d few here)
      ∙ handle_send_message_appends channel serde mentioned parse_markdown handler id user_id
          conversation_id (encode_text content) content_type reply_to client_message_id mentions
          d.site up new

  pub send_checked_safe :
      (d : Desk S Sender Queue)
      → ((checked d).site.world.tables ≡ d.site.world.tables) ⊎ Passes d (checked d)
  unfolding send_checked
  send_checked_safe d =
      let (limit, store) = check_user_rate state.rate_limiter user_id d.store in
      elim (Bool-cases (is_limited limit)) [
        | inl many ↦ inl (rw many refl)
        | inr few ↦ elim (Option-cases state.message_handler) [
          | inl away ↦ inl (rw (few, away) refl)
          | inr (handler, here) ↦
              let (answer, site) =
                send_by_handler channel serde mentioned parse_markdown handler id user_id
                  conversation_id (encode_text content) content_type reply_to client_message_id
                  mentions d.site in
              let kept : (checked d).site.world.tables ≡ site.world.tables =
                checked_tables handler d few here in
              let part : Bool =
                takes_part handler.conversation_service user_id d.site.world.tables.participants
                  conversation_id in
              elim (Bool-cases part) [
                | inr alien ↦
                    let (refused, same) =
                      send_by_handler-guard handler (encode_text content) d.site alien in
                    inl (kept ∙ same)
                | inl part_in ↦
                    let stored =
                      handle_send_message_stores channel serde mentioned parse_markdown handler id
                        user_id conversation_id (encode_text content) content_type reply_to
                        client_message_id mentions d.site in
                    inr (
                      few,
                      handler,
                      here,
                      part_in,
                      Stored-same channel serde mentioned parse_markdown handler id user_id
                          conversation_id (encode_text content) content_type reply_to
                          client_message_id mentions d.site site (checked d).site
                          (ap (λ t. t.messages) kept) stored,
                    )
              ]
        ]
      ]
