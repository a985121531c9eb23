-- ===== src/Router/Changes.antt =====
-- The calls of domain/message/router.rs that tell of changes to messages and of typing.
use ara_chat_service.Base.{ℕ, Bool, true, false, List, none, some, ◌==◌}
use ara_chat_service.Base.Results.{Result, err}
use ara_chat_service.Connection.{Channel}
use ara_chat_service.Message.{
  ChatMessage, message_recalled, message_edited, typing, mention, thread_updated, message_pinned,
  message_unpinned, OutboundMessage, preserialized, take_chars,
}
use ara_chat_service.Cluster.{Serde}
use ara_chat_service.Router.{
  MessageRouter, RouterError, serialization, Site, deliver_each, to_participants,
}

module _ {Sender Queue : Type 0} (channel : Channel Sender OutboundMessage) (serde : Serde)
    (router : MessageRouter Queue) where
  unfoldable pub route_recall :
      ℕ → ℕ → ℕ → Site Sender Queue → Result RouterError (Unit {0}) × Site Sender Queue
  unfolding deliver_each preserialized
  route_recall conversation_id message_id recalled_by site =
      let m = message_recalled conversation_id message_id recalled_by in
      to_participants channel serde router (λ u. false) conversation_id m (some m) site

  unfoldable pub notify_mentions :
      ChatMessage → List ℕ → Site Sender Queue → Result RouterError (Unit {0}) × Site Sender Queue
  unfolding deliver_each preserialized
  notify_mentions m mentions site =
      let note = mention m.conversation_id m.id m.sender_id "" (take_chars 100 m.content) in
      elim (preserialized serde.message_json note) [
        | none ↦ (err serialization, site)
        | some out ↦
            let (done, net') =
              deliver_each channel serde router (λ u. false) m.conversation_id out true (some note)
                mentions site.net in
            (done, record site { net = net' })
      ]

  unfoldable pub route_message_edit :
      ChatMessage → Site Sender Queue → Result RouterError (Unit {0}) × Site Sender Queue
  unfolding deliver_each preserialized
  route_message_edit m site =
      let edited_at : ℕ = elim m.updated_at [ none ↦ m.created_at | some t ↦ t ] in
      let note = message_edited m.conversation_id m.id m.content edited_at m.mentions in
      to_participants channel serde router (λ u. false) m.conversation_id note (some note) site

  unfoldable pub route_typing :
      ℕ → ℕ → Bool → Site Sender Queue → Result RouterError (Unit {0}) × Site Sender Queue
  unfolding deliver_each preserialized
  route_typing conversation_id user_id is_typing site =
      to_participants channel serde router (λ u. u == user_id) conversation_id
        (typing conversation_id user_id is_typing) none site

  unfoldable pub route_thread_updated :
      ℕ → ℕ → ℕ → ℕ → ℕ → Site Sender Queue → Result RouterError (Unit {0}) × Site Sender Queue
  unfolding deliver_each preserialized
  route_thread_updated conversation_id message_id reply_count last_reply_at last_reply_sender_id
        site =
      to_participants channel serde router (λ u. false) conversation_id
        (thread_updated conversation_id message_id reply_count last_reply_at last_reply_sender_id)
        none site

  unfoldable pub route_message_pinned :
      ℕ → ℕ → ℕ → ℕ → Site Sender Queue → Result RouterError (Unit {0}) × Site Sender Queue
  unfolding deliver_each preserialized
  route_message_pinned conversation_id message_id pinned_by pinned_at site =
      let m = message_pinned conversation_id message_id pinned_by pinned_at in
      to_participants channel serde router (λ u. false) conversation_id m (some m) site

  unfoldable pub route_message_unpinned :
      ℕ → ℕ → ℕ → Site Sender Queue → Result RouterError (Unit {0}) × Site Sender Queue
  unfolding deliver_each preserialized
  route_message_unpinned conversation_id message_id unpinned_by site =
      let m = message_unpinned conversation_id message_id unpinned_by in
      to_participants channel serde router (λ u. false) conversation_id m (some m) site
