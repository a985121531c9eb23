-- ===== src/Handler/Editing.antt =====
-- `handle_edit_message` and `handle_recall_message` of domain/message/handler.rs.
use Prim.Native.String.{String}
use ara_chat_service.Base.{
  ℕ, ◌/◌, not, ◌&&◌, List, [], Option, ◌==◌, if◌then◌else◌, contains, keep, is_empty,
}
use ara_chat_service.Database.{pure, ◌>>=◌, ◌>>◌}
use ara_chat_service.Connection.{Channel}
use ara_chat_service.Conversation.{is_some, get_participant_ids}
use ara_chat_service.Message.{ChatMessage, OutboundMessage}
use ara_chat_service.Storage.{get_message, recall_message, edit_message}
use ara_chat_service.Cluster.{Serde}
use ara_chat_service.Router.{Site}
use ara_chat_service.Router.Changes.{route_recall, notify_mentions, route_message_edit}
use ara_chat_service.Handler.{
  message_not_found, not_message_owner, message_recalled, recall_window_expired,
  edit_window_expired, storage, conversation, MessageHandler, validate_mentions, add_mentions,
  Handle, ask, route, present, refuse_if, refuse_late, hints_of,
}

module _ {Sender Queue : Type 0} (channel : Channel Sender OutboundMessage) (serde : Serde)
    (mentioned : String → List ℕ) (parse_markdown : String → Option String)
    (handler : MessageHandler Queue) where
  -- `handle_edit_message` once the message may be changed.
  unfoldable pub store_edit : ℕ → ℕ → String → ChatMessage → Handle (Site Sender Queue) ChatMessage
  store_edit user_id message_id new_content m = do
    participants ←
        ask conversation (get_participant_ids handler.conversation_service m.conversation_id)
    let valid_mentions = validate_mentions (add_mentions [] (mentioned new_content)) participants
    updated ← ask storage (
        edit_message handler.storage message_id new_content valid_mentions
          (hints_of parse_markdown m.content_type new_content))
    route (route_message_edit channel serde handler.router updated)
    let targets = keep (λ u. not (contains u m.mentions) && not (u == user_id)) valid_mentions
    if is_empty targets
        then pure tt
        else route (notify_mentions channel serde handler.router updated targets)
    pure updated

  -- `handle_edit_message` once the message has been read.
  unfoldable pub edit_found : ℕ → ℕ → String → ChatMessage → Handle (Site Sender Queue) ChatMessage
  edit_found user_id message_id new_content m = do
    refuse_if (not (m.sender_id == user_id)) not_message_owner
    refuse_if (is_some m.recalled_at) message_recalled
    refuse_late handler.edit_window (edit_window_expired (handler.edit_window / 1000)) m
    store_edit user_id message_id new_content m

  unfoldable pub handle_edit_message : ℕ → ℕ → String → Handle (Site Sender Queue) ChatMessage
  handle_edit_message user_id message_id new_content = do
    found ← ask storage (get_message handler.storage message_id)
    m ← present message_not_found found
    edit_found user_id message_id new_content m

  -- The recall is announced in the conversation that the client names.
  unfoldable pub handle_recall_message : ℕ → ℕ → ℕ → Handle (Site Sender Queue) (Unit {0})
  handle_recall_message user_id conversation_id message_id = do
    found ← ask storage (get_message handler.storage message_id)
    m ← present message_not_found found
    refuse_if (not (m.sender_id == user_id)) not_message_owner
    if is_some m.recalled_at then pure tt else (do
      refuse_late handler.recall_window (recall_window_expired (handler.recall_window / 1000)) m
      ask storage (recall_message handler.storage message_id)
      route (route_recall channel serde handler.router conversation_id message_id user_id))
