-- ===== src/Storage/Replies.antt =====
-- Replies and threads in domain/message/storage.rs.
use Prim.Native.String.{String}
use package.text.Mathlib.Text.{◌==◌ as str_eq}
use ara_chat_service.Base.{ℕ, Bool, false, ◌&&◌, Option, none, some, ◌==◌, length, find, keep}
use ara_chat_service.Database.{MessageRow, Db, pure, ◌>>=◌, select}
use ara_chat_service.Conversation.{is_none}
use ara_chat_service.Message.{text, ThreadInfo, ReplyContext, new_reply_context}
use ara_chat_service.Storage.{
  StorageError, database, parse_content_type, newest, is_message, is_kept,
}

module _ (tenant : String) where
  unfoldable pub validate_reply_target : ℕ → ℕ → Db StorageError Bool
  validate_reply_target reply_to_id conversation_id = do
    row ← select database (λ t. find (is_message tenant reply_to_id) t.messages)
    pure (elim row [
      | none ↦ false
      | some r ↦ r.conversation_id == conversation_id && is_none r.deleted_at
    ])

  unfoldable pub get_reply_context : ℕ → Db StorageError (Option ReplyContext)
  unfolding new_reply_context
  get_reply_context reply_to_id = do
    row ← select database (λ t. find (is_kept tenant reply_to_id) t.messages)
    pure (elim row [
      | none ↦ none
      | some r ↦
          some (new_reply_context r.id r.sender_id r.content (parse_content_type r.content_type))
    ])

  abbrev pub is_reply : ℕ → MessageRow → Bool
  is_reply message_id r =
      (elim r.reply_to_id [ none ↦ false | some id ↦ id == message_id ])
      && str_eq r.tenant_id tenant
      && is_none r.deleted_at

  unfoldable pub get_reply_count : ℕ → Db StorageError ℕ
  get_reply_count message_id = select database (λ t. length (keep (is_reply message_id) t.messages))

  -- A thread's newest reply; there is none where there is no reply.
  unfoldable pub get_thread_info : ℕ → Db StorageError (Option ThreadInfo)
  get_thread_info message_id = do
    replies ← select database (λ t. keep (is_reply message_id) t.messages)
    pure (elim (newest replies) [
      | none ↦ none
      | some last ↦ some (record {
        reply_count = length replies;
        last_reply_at = some last.created_at;
        last_reply_sender_id = some last.sender_id;
      })
    ])
