-- ===== src/Handler/Pinning.antt =====
-- Pinning and muting in domain/message/handler.rs.
use ara_chat_service.Base.{ℕ, not, none, some, if◌then◌else◌}
use ara_chat_service.Base.Results.{ok}
use ara_chat_service.Database.{pure, ◌>>=◌, ◌>>◌}
use ara_chat_service.Connection.{Channel}
use ara_chat_service.Connection.Channels.{send_to_user}
use ara_chat_service.Conversation.{can_pin_messages, get_participant_info}
use ara_chat_service.Conversation.Muting.{mute_conversation, unmute_conversation}
use ara_chat_service.Message.{
  ServerMessage, conversation_muted, conversation_unmuted, OutboundMessage, preserialized,
}
use ara_chat_service.Storage.Pinning.{pin_message, unpin_message}
use ara_chat_service.Cluster.{Serde}
use ara_chat_service.Router.{Site}
use ara_chat_service.Router.Changes.{route_message_pinned, route_message_unpinned}
use ara_chat_service.Handler.{
  not_participant, insufficient_pin_permission, storage, conversation, MessageHandler, Handle, ask,
  route, present, refuse_if,
}

module _ {Sender Queue : Type 0} (channel : Channel Sender OutboundMessage) (serde : Serde)
    (handler : MessageHandler Queue) where
  abbrev pub may_pin : ℕ → ℕ → Handle (Site Sender Queue) (Unit {0})
  may_pin user_id conversation_id = do
    found ←
        ask conversation (get_participant_info handler.conversation_service conversation_id user_id)
    participant ← present not_participant found
    refuse_if (not (can_pin_messages participant)) insufficient_pin_permission

  unfoldable pub handle_pin_message : ℕ → ℕ → ℕ → Handle (Site Sender Queue) ℕ
  unfolding can_pin_messages
  handle_pin_message user_id conversation_id message_id = do
    may_pin user_id conversation_id
    pinned_at ← ask storage (pin_message handler.storage message_id conversation_id user_id)
    route (
        route_message_pinned channel serde handler.router conversation_id message_id user_id
          pinned_at)
    pure pinned_at

  unfoldable pub handle_unpin_message : ℕ → ℕ → ℕ → Handle (Site Sender Queue) (Unit {0})
  unfolding can_pin_messages
  handle_unpin_message user_id conversation_id message_id = do
    may_pin user_id conversation_id
    was_pinned ← ask storage (unpin_message handler.storage message_id conversation_id)
    if was_pinned
        then route
            (route_message_unpinned channel serde handler.router conversation_id message_id user_id)
        else pure tt

  -- A confirmation for the user, where it has a JSON.
  abbrev pub confirm : ℕ → ServerMessage → Handle (Site Sender Queue) (Unit {0})
  confirm user_id m site = (
    ok tt,
    (elim (preserialized serde.message_json m) [
      | none ↦ site
      | some out ↦ record site {
        net = record (site.net) { manager = send_to_user channel site.net.manager user_id out };
      }
    ]),
  )

  unfoldable pub handle_mute_conversation : ℕ → ℕ → Handle (Site Sender Queue) ℕ
  handle_mute_conversation user_id conversation_id = do
    muted_at ←
        ask conversation (mute_conversation handler.conversation_service conversation_id user_id)
    confirm user_id (conversation_muted conversation_id muted_at)
    pure muted_at

  unfoldable pub handle_unmute_conversation : ℕ → ℕ → Handle (Site Sender Queue) (Unit {0})
  handle_unmute_conversation user_id conversation_id = do
    ask conversation (unmute_conversation handler.conversation_service conversation_id user_id)
    confirm user_id (conversation_unmuted conversation_id)
