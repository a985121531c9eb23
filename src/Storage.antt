-- ===== src/Storage.antt =====
-- domain/message/storage.rs: messages and pins in the tables. `tenant` is the storage's
-- `tenant_id`, a new id is an argument, and a new row has the time of the call.
pub mod Creating
pub mod Replies
pub mod Examples
pub mod Pinning
pub mod Rows
use Prim.Native.String.{String}
use package.text.Mathlib.Text.{◌==◌ as str_eq}
use ara_chat_service.Base.{
  ℕ, ◌++◌, ◌/◌, Bool, true, false, not, ◌&&◌, ◌||◌, List, [], ◌∷◌, Option, none, some, ◌==◌, ltb,
  if◌then◌else◌, length, find, any, keep,
}
use ara_chat_service.Base.Results.{Result, ok, err}
use ara_chat_service.Database.{
  ConversationRow, MessageRow, PinRow, Tables, World, Db, pure, fail, ◌>>=◌, ◌>>◌, attempt, select,
  write, continue,
}
use ara_chat_service.Conversation.{is_none, is_some, update}
use ara_chat_service.Message.{
  ContentType, text, image, file, system, ForwardedFrom, ThreadInfo, ReplyContext,
  new_reply_context, ChatMessage,
}

-- The texts of the errors of the database are left out.
pub data StorageError : Type 0 where
  database not_found invalid_cursor serialization invalid_reply_target message_not_in_conversation :
      StorageError

abbrev pub parse_content_type : String → ContentType
parse_content_type t =
    if str_eq t "image"
    then image
    else if str_eq t "file"
    then file
    else if str_eq t "system"
    then system
    else text

abbrev pub content_type_str : ContentType → String
content_type_str text = "text"
content_type_str image = "image"
content_type_str file = "file"
content_type_str system = "system"

abbrev pub forwarded_parts : Option ℕ → Option ℕ → Option ℕ → Option ForwardedFrom
forwarded_parts (some message_id) (some sender_id) (some conversation_id) =
    some
      (record { message_id = message_id; sender_id = sender_id; conversation_id = conversation_id })
forwarded_parts _ _ _ = none

unfoldable pub into_chat_message : MessageRow → ChatMessage
into_chat_message r = record {
  id = r.id;
  conversation_id = r.conversation_id;
  sender_id = r.sender_id;
  content = r.content;
  content_type = parse_content_type r.content_type;
  created_at = r.created_at;
  updated_at = r.updated_at;
  reply_to_id = r.reply_to_id;
  reply_context = none;
  thread_info = none;
  mentions = r.mentions;
  reactions = [];
  recalled_at = r.deleted_at;
  pinned_at = none;
  pinned_by = none;
  forwarded_from =
      forwarded_parts r.forwarded_from_message_id r.forwarded_from_sender_id
        r.forwarded_from_conversation_id;
  rendering_hints = r.rendering_hints;
}

abbrev pub shown : Option MessageRow → Option ChatMessage
shown none = none
shown (some r) = some (into_chat_message r)

abbrev pub same_text : Option String → Option String → Bool
same_text (some a) (some b) = str_eq a b
same_text _ _ = false

-- The row of `ORDER BY created_at DESC LIMIT 1`, the first of those with the same time.
abbrev pub newest : List MessageRow → Option MessageRow
newest [] = none
newest (r ∷ rows) = elim (newest rows) [
  | none ↦ some r
  | some s ↦ if ltb r.created_at s.created_at then some s else some r
]

abbrev pub recalled : ℕ → MessageRow → MessageRow
recalled now r = record r {
  deleted_at = some now;
  content = "[Message recalled]";
  updated_at = some now;
}

abbrev pub edited : String → List ℕ → Option String → ℕ → MessageRow → MessageRow
edited content mentions hints now r = record r {
  content = content;
  mentions = mentions;
  updated_at = some now;
  rendering_hints = hints;
}

module _ (tenant : String) where
  abbrev pub is_message : ℕ → MessageRow → Bool
  is_message id r = r.id == id && str_eq r.tenant_id tenant

  abbrev pub is_kept : ℕ → MessageRow → Bool
  is_kept id r = is_message id r && is_none r.deleted_at

  unfoldable pub get_message : ℕ → Db StorageError (Option ChatMessage)
  get_message id = do row ← select database (λ t. find (is_message id) t.messages); pure (shown row)

  unfoldable pub get_forwardable_message : ℕ → Db StorageError (Option ChatMessage)
  get_forwardable_message id = do
    row ← select database (λ t. find (is_kept id) t.messages)
    pure (shown row)

  abbrev pub from_client : ℕ → String → MessageRow → Bool
  from_client sender_id client_message_id r =
      r.sender_id == sender_id
      && same_text r.client_message_id (some client_message_id)
      && str_eq r.tenant_id tenant

  unfoldable pub find_by_client_id : ℕ → String → Db StorageError (Option ChatMessage)
  find_by_client_id sender_id client_message_id = do
    row ← select database (λ t. newest (keep (from_client sender_id client_message_id) t.messages))
    pure (shown row)

  unfoldable pub recall_message : ℕ → Db StorageError (Unit {0})
  recall_message id = do
    affected ← select database (λ t. any (is_kept id) t.messages)
    λ w.
        if affected
        then (
          ok tt,
          record w {
            tables = record (w.tables) {
              messages = update (is_kept id) (recalled w.now) w.tables.messages;
            };
          },
        )
        else (err not_found, w)

  -- The row that the statement returns is the one that it changes.
  unfoldable pub edit_message : ℕ → String → List ℕ → Option String → Db StorageError ChatMessage
  edit_message id content mentions hints = do
    row ← select database (λ t. find (is_kept id) t.messages)
    λ w. elim row [
      | none ↦ (err not_found, w)
      | some r ↦ (
        ok (into_chat_message (edited content mentions hints w.now r)),
        record w {
          tables = record (w.tables) {
            messages = update (is_kept id) (edited content mentions hints w.now) w.tables.messages;
          };
        },
      )
    ]
