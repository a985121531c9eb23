-- ===== src/Handler/Examples.antt =====
-- User 10, an owner who has left conversation 1, and a message of his from a minute ago.
use ara_chat_service.Base.{ℕ, true, false, List, [], ◌∷◌, none, some, ◌≡◌, ◌⊎◌, refl}
use ara_chat_service.Database.{MessageRow, ParticipantRow}
use ara_chat_service.Conversation.{
  group, get_conversation, is_participant, update_last_message, get_participant_ids, update,
  into_participant, can_pin_messages,
}
use ara_chat_service.Conversation.Membership.{joining}
use ara_chat_service.Conversation.Muting.{get_muted_user_ids}
use ara_chat_service.Message.{OutboundMessage, ForwardResult}
use ara_chat_service.Base.Results.{ok}
use ara_chat_service.Conversation.Direct.{new_row}
use ara_chat_service.Conversation.Examples.{sum}
use ara_chat_service.Storage.{is_kept, recalled, into_chat_message, get_forwardable_message}
use ara_chat_service.Storage.Creating.{create_forwarded_message}
use ara_chat_service.Cluster.Examples.{logs, serde}
use ara_chat_service.Router.{Site, route_message}
use ara_chat_service.Blocking.{get_all_blocked_user_ids}
use ara_chat_service.Router.Examples.{alone, site}
use ara_chat_service.Handler.{MessageHandler, new_handler}
use ara_chat_service.Handler.Editing.{handle_recall_message, handle_edit_message}
use ara_chat_service.Handler.Pinning.{handle_pin_message}
use ara_chat_service.Handler.Forwarding.{
  handle_forward_message, check_dm_block_for_forward, store_forward,
}
use ara_chat_service.Handler.Windows.{IsOpen, handle_recall_message_safe, handle_edit_message_safe}
use ara_chat_service.Handler.Edits.{rewritten_tables}
use ara_chat_service.Handler.Pins.{
  MayPin, pinned_tables, handle_pin_message_safe, handle_pin_message_complete,
}

abbrev handler : MessageHandler ℕ
handler = new_handler alone

abbrev hello : MessageRow
hello = record {
  id = 4;
  conversation_id = 1;
  sender_id = 10;
  tenant_id = "default";
  content = "hello";
  content_type = "text";
  created_at = 1000;
  updated_at = none;
  deleted_at = none;
  reply_to_id = none;
  mentions = [];
  client_message_id = none;
  forwarded_from_message_id = none;
  forwarded_from_sender_id = none;
  forwarded_from_conversation_id = none;
  rendering_hints = none;
}

abbrev former : ParticipantRow
former = record (joining "default" 1 10 "owner" 2) { left_at = some 3 }

abbrev here : Site (List OutboundMessage) ℕ
here = record site {
  world = record (site.world) {
    now = 61000;
    tables = record (site.world.tables) {
      messages = hello ∷ [];
      participants = former ∷ joining "default" 1 20 "member" 2 ∷ [];
    };
  };
}

handle_recall_message_safe_example :
    let after =
      (handle_recall_message logs serde (λ s. []) (λ s. none) handler 10 1 4 here).1.world.tables in
    (after ≡ here.world.tables)
    ⊎ ((r : MessageRow) × IsOpen logs serde (λ s. []) (λ s. none) handler 10 4 here 120000 r
        × (after ≡ record (here.world.tables) {
          messages = update (is_kept "default" 4) (recalled 61000) here.world.tables.messages;
        }))
handle_recall_message_safe_example =
    handle_recall_message_safe logs serde (λ s. []) (λ s. none) handler 10 4 here 1

handle_edit_message_safe_example :
    let after =
      (handle_edit_message logs serde
        (λ s. [])
        (λ s. none)
        handler
        10
        4
        "bye"
        here).1.world.tables in
    (after ≡ here.world.tables)
    ⊎ ((r : MessageRow) × IsOpen logs serde (λ s. []) (λ s. none) handler 10 4 here 900000 r
        × (after
            ≡ rewritten_tables logs serde
                (λ s. [])
                (λ s. none)
                handler
                10
                4
                here
                "bye"
                (into_chat_message r)))
handle_edit_message_safe_example =
    handle_edit_message_safe logs serde (λ s. []) (λ s. none) handler 10 4 here "bye"

handle_pin_message_safe_example :
    let after = (handle_pin_message logs serde handler 10 1 4 here).1.world.tables in
    (after ≡ here.world.tables)
    ⊎ ((p : ParticipantRow) × (r : MessageRow) × MayPin logs serde handler 10 1 4 here p r
        × (after ≡ pinned_tables logs serde handler 10 1 4 here))
handle_pin_message_safe_example = handle_pin_message_safe logs serde handler 10 1 4 here

former-MayPin : MayPin logs serde handler 10 1 4 here former hello
unfolding can_pin_messages into_participant
former-MayPin = record { takes_part = refl; allowed = refl; there = refl; in_conversation = refl }

handle_pin_message_complete_example :
    (handle_pin_message logs serde handler 10 1 4 here).1.world.tables
    ≡ pinned_tables logs serde handler 10 1 4 here
handle_pin_message_complete_example =
    handle_pin_message_complete logs serde handler 10 1 4 here former hello former-MayPin
      (λ n. refl)

-- User 20 takes part in the groups 1 and 2, not in 3.
abbrev both : Site (List OutboundMessage) ℕ
both = record here {
  world = record (here.world) {
    tables = record (here.world.tables) {
      participants = joining "default" 1 20 "member" 2 ∷ joining "default" 2 20 "member" 2 ∷ [];
      conversations = new_row sum "default" 2 group 20 none 1 2 ∷ [];
    };
  };
}

abbrev answered : List ForwardResult
answered =
    record { conversation_id = 2; success = true; message_id = some 7; error = none }
    ∷ record {
      conversation_id = 3;
      success = false;
      message_id = none;
      error = some "Not a participant";
    }
    ∷ []

forwarded :
    (handle_forward_message logs serde handler 20 4 1 ((7, 2) ∷ (8, 3) ∷ []) both).0 ≡ ok answered
unfolding handle_forward_message check_dm_block_for_forward store_forward get_conversation
    is_participant get_forwardable_message into_chat_message create_forwarded_message
    update_last_message route_message get_participant_ids get_all_blocked_user_ids
    get_muted_user_ids
forwarded = refl
