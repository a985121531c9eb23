-- ===== src/Handler/NewMessages.antt =====
-- A message that `handle_send_message` of domain/message/handler.rs may store, and its row.
use Prim.Native.String.{String}
use ara_chat_service.Base.{
  ℕ, ◌+◌, ◌++◌, true, false, List, [], ◌∷◌, Option, none, some, keep, map, any, ◌≡◌, arith, find,
}
use ara_chat_service.Base.Results.{ok}
use ara_chat_service.Database.{MessageRow, World}
use ara_chat_service.Conversation.{active_in, is_active}
use ara_chat_service.Message.{ContentType}
use ara_chat_service.Storage.{from_client, is_message, into_chat_message, newest}
use ara_chat_service.Storage.Creating.{clashes, does_not_fit, message_row, create_message}
use ara_chat_service.Handler.{MessageHandler, hints_of, validate_mentions, add_mentions}

pub create_message-fresh :
    (tenant : String) (id c u : ℕ) (content : String) (content_type : ContentType)
    (reply_to : Option ℕ) (client_message_id : Option String) (mentions : List ℕ)
    (hints : Option String) (w : World)
    → ((n : ℕ) → w.answers n ≡ true)
    → let row =
        message_row tenant id c u content content_type reply_to client_message_id mentions hints
          w.now in
      let made =
        create_message tenant id c u content content_type reply_to client_message_id mentions hints
          w in
      does_not_fit row ≡ false
      → any (clashes row) w.tables.messages ≡ false
      → (made.0 ≡ ok (into_chat_message row))
        × (made.1.tables.messages ≡ w.tables.messages ++ row ∷ [])
unfolding create_message
create_message-fresh tenant id c u content content_type reply_to client_message_id mentions hints w
      up fits fresh =
    ground (arith, up w.queries, up (w.queries + 1), fits, fresh)

module _ {Queue : Type 0} (mentioned : String → List ℕ) (parse_markdown : String → Option String)
    (handler : MessageHandler Queue) (id user_id conversation_id : ℕ) (content : String)
    (content_type : ContentType) (reply_to : Option ℕ) (client_message_id : Option String)
    (mentions : List ℕ) (w : World) where
  -- The row that a new message gets.
  abbrev pub new_row : MessageRow
  new_row =
      message_row handler.storage id conversation_id user_id content content_type reply_to
        client_message_id
        (validate_mentions (add_mentions mentions (mentioned content)) (
          map (λ p. p.user_id)
            (keep (active_in handler.conversation_service conversation_id) w.tables.participants)))
        (hints_of parse_markdown content_type content) w.now

  -- What a message needs of the tables: that it was not sent before, that what it replies to is
  -- there, that the columns take its texts, and that no row clashes with its own.
  pub record IsNew : Type 0 where
    pub takes_part :
        any (is_active handler.conversation_service conversation_id user_id) w.tables.participants
        ≡ true
    pub not_sent :
        (client_id : String)
        → client_message_id ≡ some client_id
        → newest (keep (from_client handler.storage user_id client_id) w.tables.messages) ≡ none
    pub replies :
        (reply_to_id : ℕ)
        → reply_to ≡ some reply_to_id
        → (r : MessageRow) × (find (is_message handler.storage reply_to_id) w.tables.messages
            ≡ some r)
          × (r.conversation_id ≡ conversation_id)
          × (r.deleted_at ≡ none)
    pub fits : does_not_fit new_row ≡ false
    pub fresh : any (clashes new_row) w.tables.messages ≡ false
