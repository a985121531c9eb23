-- ===== src/Handler/Forwards.antt =====
-- What forwarding in domain/message/handler.rs answers.
use ara_chat_service.Base.{
  ℕ, ◌≤◌, Option-cases, true, false, List, [], ◌∷◌, length, any, map, is_empty, ◌≡◌, inl, inr, refl,
  ap, ◌∙◌, arith,
}
use ara_chat_service.Base.Results.{ok, Result-cases}
use ara_chat_service.Connection.{Channel}
use ara_chat_service.Conversation.{is_participant}
use ara_chat_service.Message.{ChatMessage, ForwardedFrom, ForwardResult, OutboundMessage}
use ara_chat_service.Storage.{get_forwardable_message}
use ara_chat_service.Storage.Creating.{create_forwarded_message}
use ara_chat_service.Cluster.{Serde}
use ara_chat_service.Router.{Site}
use ara_chat_service.Handler.{MessageHandler, consult}
use ara_chat_service.Handler.Forwarding.{
  check_dm_block_for_forward, store_forward, forward_to_conversation, forward_each,
  handle_forward_message,
}

module _ {Sender Queue : Type 0} (channel : Channel Sender OutboundMessage) (serde : Serde)
    (handler : MessageHandler Queue) (user_id : ℕ) where
  store_forward_target :
      (id target : ℕ) (source : ChatMessage) (from : ForwardedFrom) (site : Site Sender Queue)
      → (store_forward channel serde handler id user_id target source from site).0.conversation_id
        ≡ target
  unfolding store_forward
  store_forward_target id target source from site =
      elim (Result-cases
        (consult
          (create_forwarded_message handler.storage id target user_id source.content
            source.content_type from source.rendering_hints)
          site).0) [
            | inl (m, stored) ↦ ground (arith, stored)
            | inr (e, failed) ↦ ground (arith, failed)
          ]

  forward_target :
      (id target : ℕ) (source : ChatMessage) (from : ForwardedFrom) (site : Site Sender Queue)
      → (forward_to_conversation channel serde handler id user_id target source from
          site).0.conversation_id
        ≡ target
  unfolding forward_to_conversation
  forward_target id target source from site =
      let (may, s1) = consult (is_participant handler.conversation_service target user_id) site in
      let (refused, s2) = check_dm_block_for_forward channel serde handler user_id target s1 in
      ground (arith, store_forward_target id target source from s2)

  forward_targets :
      (source : ChatMessage) (from : ForwardedFrom) (targets : List (ℕ × ℕ))
      (site : Site Sender Queue)
      → map
          (λ r. r.conversation_id)
          (forward_each channel serde handler user_id source from targets site).0
        ≡ map (λ t. t.1) targets
  unfolding forward_each
  forward_targets source from [] site = refl
  forward_targets source from ((id, target) ∷ targets) site =
      let first =
        forward_to_conversation channel serde handler id user_id target source from site in
      ap
        (λ c.
          c
          ∷ map (λ r. r.conversation_id)
              (forward_each channel serde handler user_id source from targets first.1).0)
        (forward_target id target source from site)
      ∙ ap (λ cs. target ∷ cs) (forward_targets source from targets first.1)

  -- When `handle_forward_message` answers with results, there are at most ten targets and at least
  -- one, the results are for the targets in their order, and one of them is a success.
  pub handle_forward_message_ok :
      (message_id conversation_id : ℕ) (targets : List (ℕ × ℕ)) (site : Site Sender Queue)
      (results : List ForwardResult)
      → (handle_forward_message channel serde handler user_id message_id conversation_id targets
          site).0
        ≡ ok results
      → (length targets ≤ 10)
        × (is_empty targets ≡ false)
        × (map (λ r. r.conversation_id) results ≡ map (λ t. t.1) targets)
        × (any (λ r. r.success) results ≡ true)
  unfolding handle_forward_message
  handle_forward_message_ok message_id conversation_id targets site results e =
      let (may, s1) =
        consult (is_participant handler.conversation_service conversation_id user_id) site in
      let (found, s2) = consult (get_forwardable_message handler.storage message_id) s1 in
      elim (Result-cases found) [
        | inr (x, lost) ↦ absurd (ground (arith, lost))
        | inl (row, read) ↦ elim (Option-cases row) [
          | inl away ↦ absurd (ground (arith, read, away))
          | inr (source, here) ↦
              let from : ForwardedFrom = record {
                message_id = message_id;
                sender_id = source.sender_id;
                conversation_id = conversation_id;
              } in
              ground (arith, read, here, forward_targets source from targets s2)
        ]
      ]
