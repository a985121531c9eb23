-- ===== src/Handler/Sending.antt =====
-- `handle_send_message` of domain/message/handler.rs.
use Prim.Native.String.{String}
use ara_chat_service.Base.{ℕ, not, List, Option, none, some, ◌==◌, if◌then◌else◌, keep, is_empty}
use ara_chat_service.Base.Results.{ok, err}
use ara_chat_service.Database.{pure, ◌>>=◌, ◌>>◌}
use ara_chat_service.Connection.{Channel}
use ara_chat_service.Conversation.{is_participant, get_participant_ids, update_last_message}
use ara_chat_service.Message.{ContentType, ChatMessage, ReplyContext, OutboundMessage}
use ara_chat_service.Storage.{find_by_client_id}
use ara_chat_service.Storage.Creating.{create_message}
use ara_chat_service.Storage.Replies.{validate_reply_target, get_reply_context, get_thread_info}
use ara_chat_service.Cluster.{Serde}
use ara_chat_service.Router.{Site, route_message}
use ara_chat_service.Router.Changes.{notify_mentions, route_thread_updated}
use ara_chat_service.Handler.{
  not_participant, invalid_reply_target, storage, conversation, MessageHandler, validate_mentions,
  add_mentions, Handle, ask, route, try_to, refuse_if, hints_of,
}

module _ {Sender Queue : Type 0} (channel : Channel Sender OutboundMessage) (serde : Serde)
    (mentioned : String → List ℕ) (parse_markdown : String → Option String)
    (handler : MessageHandler Queue) where
  -- What follows the storing of a new message.
  abbrev pub announce_thread :
      ℕ → ChatMessage → ℕ → Option ℕ → Handle (Site Sender Queue) (Unit {0})
  announce_thread conversation_id m sender_id none site = (ok tt, site)
  announce_thread conversation_id m sender_id (some reply_to_id) site =
      let (answer, w) = get_thread_info handler.storage reply_to_id site.world in
      let site' : Site Sender Queue = record site { world = w } in
      elim answer [
        | err e ↦ (ok tt, site')
        | ok info ↦ elim info [
          | none ↦ (ok tt, site')
          | some thread ↦
              route
                (route_thread_updated channel serde handler.router conversation_id reply_to_id
                  thread.reply_count m.created_at sender_id)
                site'
        ]
      ]

  abbrev pub reply_context_of : ℕ → Option ℕ → Handle (Site Sender Queue) (Option ReplyContext)
  reply_context_of conversation_id none = pure none
  reply_context_of conversation_id (some reply_to_id) = do
    is_valid ← ask storage (validate_reply_target handler.storage reply_to_id conversation_id)
    refuse_if (not is_valid) invalid_reply_target
    ask storage (get_reply_context handler.storage reply_to_id)

  -- The message that this client id has made before.
  abbrev pub find_duplicate : ℕ → Option String → Handle (Site Sender Queue) (Option ChatMessage)
  find_duplicate sender_id none = pure none
  find_duplicate sender_id (some client_id) =
      ask storage (find_by_client_id handler.storage sender_id client_id)

  -- `handle_send_message` for a participant and a new client id; `id` is the id of the new message.
  unfoldable pub send_new_message :
      ℕ
      → ℕ
      → ℕ
      → String
      → ContentType
      → Option ℕ
      → Option String
      → List ℕ
      → Handle (Site Sender Queue) ChatMessage
  send_new_message id sender_id conversation_id content content_type reply_to client_message_id
        explicit_mentions =
      do
        participants ←
            ask conversation (get_participant_ids handler.conversation_service conversation_id)
        let valid_mentions =
            validate_mentions (add_mentions explicit_mentions (mentioned content)) participants
        context ← reply_context_of conversation_id reply_to
        stored ← ask storage (
            create_message handler.storage id conversation_id sender_id content content_type
              reply_to client_message_id valid_mentions
              (hints_of parse_markdown content_type content))
        let m : ChatMessage = record stored { reply_context = context }
        route (route_message channel serde handler.router m)
        announce_thread conversation_id m sender_id reply_to
        let targets = keep (λ u. not (u == sender_id)) valid_mentions
        if is_empty targets
            then pure tt
            else route (notify_mentions channel serde handler.router m targets)
        try_to (
            ask conversation
              (update_last_message handler.conversation_service conversation_id m.id))
        pure m

  unfoldable pub handle_send_message :
      ℕ
      → ℕ
      → ℕ
      → String
      → ContentType
      → Option ℕ
      → Option String
      → List ℕ
      → Handle (Site Sender Queue) ChatMessage
  unfolding send_new_message
  handle_send_message id sender_id conversation_id content content_type reply_to client_message_id
        explicit_mentions =
      do
        may ←
            ask conversation (is_participant handler.conversation_service conversation_id sender_id)
        refuse_if (not may) not_participant
        existing ← find_duplicate sender_id client_message_id
        elim existing [
          | some m ↦ pure m
          | none ↦
              send_new_message id sender_id conversation_id content content_type reply_to
                client_message_id explicit_mentions
        ]
