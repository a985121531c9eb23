-- ===== src/Handler/Forwarding.antt =====
-- `handle_forward_message` of domain/message/handler.rs.
use Prim.Native.String.{String}
use ara_chat_service.Base.{
  ℕ, true, false, not, List, [], ◌∷◌, Option, none, some, ◌==◌, ltb, if◌then◌else◌, length, find,
  any, is_empty,
}
use ara_chat_service.Base.Results.{ok, err}
use ara_chat_service.Database.{pure, ◌>>=◌, ◌>>◌}
use ara_chat_service.Connection.{Channel}
use ara_chat_service.Conversation.{
  direct, group, is_some, is_participant, get_participant_ids, get_conversation,
  update_last_message,
}
use ara_chat_service.Message.{ChatMessage, ForwardedFrom, ForwardResult, OutboundMessage}
use ara_chat_service.Storage.{get_forwardable_message}
use ara_chat_service.Storage.Creating.{create_forwarded_message}
use ara_chat_service.Cluster.{Serde}
use ara_chat_service.Router.{Site, is_blocked, route_message}
use ara_chat_service.Handler.{
  not_participant, message_not_found, cannot_forward_recalled, no_valid_targets,
  too_many_forward_targets, storage, conversation, MessageHandler, max_forward_targets, Handle, ask,
  present, refuse_if, consult,
}

module _ {Sender Queue : Type 0} (channel : Channel Sender OutboundMessage) (serde : Serde)
    (handler : MessageHandler Queue) where
  -- The block between the two users of a direct conversation; `none` lets the message through.
  unfoldable pub check_dm_block_for_forward :
      ℕ → ℕ → Site Sender Queue → Option String × Site Sender Queue
  check_dm_block_for_forward user_id conversation_id site =
      let (found, s1) =
        consult (get_conversation handler.conversation_service conversation_id) site in
      elim found [
        | err e ↦ (some "Error checking conversation: ", s1)
        | ok none ↦ (some "Conversation not found", s1)
        | ok (some c) ↦ elim c.conversation_type [
          | group ↦ (none, s1)
          | direct ↦
              let (listed, s2) =
                consult (get_participant_ids handler.conversation_service conversation_id) s1 in
              elim listed [
                | err e ↦ (some "Error getting participants: ", s2)
                | ok participants ↦ elim (find (λ u. not (u == user_id)) participants) [
                  | none ↦ (none, s2)
                  | some other ↦
                      let (blocked, w) =
                        is_blocked channel serde handler.router user_id other s2.world in
                      (
                        (if blocked then some "Cannot forward to blocked user" else none),
                        record s2 { world = w },
                      )
                ]
              ]
        ]
      ]

  abbrev pub forward_failed : ℕ → String → ForwardResult
  forward_failed target reason = record {
    conversation_id = target;
    success = false;
    message_id = none;
    error = some reason;
  }

  -- What follows when the message may be forwarded to the conversation.
  unfoldable pub store_forward :
      ℕ
      → (user_id target : ℕ) → ChatMessage
      → ForwardedFrom
      → Site Sender Queue
      → ForwardResult × Site Sender Queue
  store_forward id user_id target source forwarded_from site =
      let (stored, s1) =
        consult
          (create_forwarded_message handler.storage id target user_id source.content
            source.content_type forwarded_from source.rendering_hints)
          site in
      elim stored [
        | err e ↦ (forward_failed target "Storage error: ", s1)
        | ok m ↦
            let s2 = (route_message channel serde handler.router m s1).1 in
            let s3 =
              (consult (update_last_message handler.conversation_service target m.id) s2).1 in
            (
              record {
                conversation_id = target;
                success = true;
                message_id = some m.id;
                error = none;
              },
              s3,
            )
      ]

  unfoldable pub forward_to_conversation :
      ℕ
      → (user_id target : ℕ) → ChatMessage
      → ForwardedFrom
      → Site Sender Queue
      → ForwardResult × Site Sender Queue
  forward_to_conversation id user_id target source forwarded_from site =
      let (may, s1) = consult (is_participant handler.conversation_service target user_id) site in
      elim may [
        | err e ↦ (forward_failed target "Validation error: ", s1)
        | ok false ↦ (forward_failed target "Not a participant", s1)
        | ok true ↦
            let (refused, s2) = check_dm_block_for_forward user_id target s1 in
            elim refused [
              | some reason ↦ (forward_failed target reason, s2)
              | none ↦ store_forward id user_id target source forwarded_from s2
            ]
      ]

  -- The loop over the targets, each with the id for its new message.
  unfoldable pub forward_each :
      ℕ
      → ChatMessage
      → ForwardedFrom
      → List (ℕ × ℕ)
      → Site Sender Queue
      → List ForwardResult × Site Sender Queue
  unfolding forward_to_conversation
  forward_each user_id source forwarded_from [] site = ([], site)
  forward_each user_id source forwarded_from ((id, target) ∷ targets) site =
      let (result, s1) = forward_to_conversation id user_id target source forwarded_from site in
      let (results, s2) = forward_each user_id source forwarded_from targets s1 in
      (result ∷ results, s2)

  unfoldable pub handle_forward_message :
      (user_id source_message_id source_conversation_id : ℕ)
      → List (ℕ × ℕ)
      → Handle (Site Sender Queue) (List ForwardResult)
  unfolding forward_each
  handle_forward_message user_id source_message_id source_conversation_id targets = do
    refuse_if (ltb max_forward_targets (length targets))
        (too_many_forward_targets max_forward_targets)
    refuse_if (is_empty targets) no_valid_targets
    may ←
        ask conversation
          (is_participant handler.conversation_service source_conversation_id user_id)
    refuse_if (not may) not_participant
    found ← ask storage (get_forwardable_message handler.storage source_message_id)
    source ← present message_not_found found
    refuse_if (not (source.conversation_id == source_conversation_id)) message_not_found
    refuse_if (is_some source.recalled_at) cannot_forward_recalled
    results ← λ site.
        let (results, site') =
          forward_each user_id source
            (record {
              message_id = source_message_id;
              sender_id = source.sender_id;
              conversation_id = source_conversation_id;
            })
            targets site in
        (ok results, site')
    refuse_if (not (any (λ r. r.success) results)) no_valid_targets
    pure results
