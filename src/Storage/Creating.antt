-- ===== src/Storage/Creating.antt =====
-- The insertions of domain/message/storage.rs.
use Prim.Native.Char.{code}
use Prim.Native.String.{String}
use ara_chat_service.Base.{
  ℕ, suc, ◌++◌, ◌/◌, Bool, false, ltb, ◌&&◌, ◌||◌, List, [], ◌∷◌, Option, none, some, ◌==◌,
  if◌then◌else◌, any,
}
use ara_chat_service.Base.Results.{ok, err}
use ara_chat_service.Database.{MessageRow, Db, pure, ◌>>=◌, ◌>>◌, attempt, write}
use ara_chat_service.Conversation.{update}
use ara_chat_service.Message.{ContentType, ForwardedFrom, ChatMessage}
use ara_chat_service.Storage.{
  StorageError, database, content_type_str, into_chat_message, same_text,
}

-- The primary key and the index idx_messages_dedup, both within a day (the partition key).
abbrev pub clashes : MessageRow → MessageRow → Bool
clashes new r =
    r.created_at / 86400000 == new.created_at / 86400000
    && (r.id == new.id
        || r.sender_id == new.sender_id && same_text r.client_message_id new.client_message_id)

-- The number of the characters of a text.
abbrev pub char_count : String → ℕ
char_count String.[] = 0
char_count (String.◌∷◌ c s) = suc (char_count s)

-- Whether a text has a NUL, which no text of the database has.
abbrev pub has_nul : String → Bool
has_nul String.[] = false
has_nul (String.◌∷◌ c s) = code c == 0 || has_nul s

-- A text that a column `VARCHAR(64)` does not take; that it cuts off spaces at the end which are too
-- many is left out.
abbrev pub is_too_long : Option String → Bool
is_too_long none = false
is_too_long (some s) = has_nul s || ltb 64 (char_count s)

-- A row with a text that its column in migrations/002_messages.sql does not take.
abbrev pub does_not_fit : MessageRow → Bool
does_not_fit r =
    has_nul r.content || is_too_long (some r.tenant_id) || is_too_long r.client_message_id

abbrev pub is_refused : MessageRow → List MessageRow → Bool
is_refused new rows = does_not_fit new || any (clashes new) rows

-- `INSERT INTO messages … RETURNING …`: a row that clashes with another or does not fit is refused.
abbrev pub insert_message : (ℕ → MessageRow) → Db StorageError MessageRow
insert_message row = do
  attempt database
  λ w. if is_refused (row w.now) w.tables.messages then (err database, w) else (
    ok (row w.now),
    record w { tables = record (w.tables) { messages = w.tables.messages ++ row w.now ∷ [] } },
  )

-- The statement on the conversation, which is not in one transaction with the insertion.
abbrev pub set_last_message : ℕ → ℕ → Db StorageError (Unit {0})
set_last_message c id = write database (λ now t. record t {
  conversations =
      update (λ r. r.id == c)
        (λ r. record r { last_message_id = some id; last_message_at = some now; updated_at = now })
        t.conversations;
})

module _ (tenant : String) where
  -- The row of a new message that is not forwarded.
  abbrev pub message_row :
      ℕ
      → (conversation_id sender_id : ℕ) → (content : String) → ContentType
      → (reply_to : Option ℕ) → (client_message_id : Option String) → (mentions : List ℕ)
      → (rendering_hints : Option String) → ℕ
      → MessageRow
  message_row id conversation_id sender_id content content_type reply_to client_message_id mentions
        rendering_hints now =
      record {
        id = id;
        conversation_id = conversation_id;
        sender_id = sender_id;
        tenant_id = tenant;
        content = content;
        content_type = content_type_str content_type;
        created_at = now;
        updated_at = none;
        deleted_at = none;
        reply_to_id = reply_to;
        mentions = mentions;
        client_message_id = client_message_id;
        forwarded_from_message_id = none;
        forwarded_from_sender_id = none;
        forwarded_from_conversation_id = none;
        rendering_hints = rendering_hints;
      }

  unfoldable pub create_message :
      ℕ
      → (conversation_id sender_id : ℕ) → (content : String) → ContentType
      → (reply_to : Option ℕ) → (client_message_id : Option String) → (mentions : List ℕ)
      → (rendering_hints : Option String) → Db StorageError ChatMessage
  create_message id conversation_id sender_id content content_type reply_to client_message_id
        mentions rendering_hints =
      do
        row ← insert_message (
            message_row id conversation_id sender_id content content_type reply_to client_message_id
              mentions rendering_hints)
        set_last_message conversation_id id
        pure (into_chat_message row)

  unfoldable pub create_forwarded_message :
      ℕ
      → (conversation_id sender_id : ℕ) → (content : String) → ContentType
      → ForwardedFrom
      → (rendering_hints : Option String) → Db StorageError ChatMessage
  create_forwarded_message id conversation_id sender_id content content_type forwarded_from
        rendering_hints =
      do
        row ← insert_message (λ now. record {
          id = id;
          conversation_id = conversation_id;
          sender_id = sender_id;
          tenant_id = tenant;
          content = content;
          content_type = content_type_str content_type;
          created_at = now;
          updated_at = none;
          deleted_at = none;
          reply_to_id = none;
          mentions = [];
          client_message_id = none;
          forwarded_from_message_id = some forwarded_from.message_id;
          forwarded_from_sender_id = some forwarded_from.sender_id;
          forwarded_from_conversation_id = some forwarded_from.conversation_id;
          rendering_hints = rendering_hints;
        })
        set_last_message conversation_id id
        pure (into_chat_message row)
