-- ===== src/Handler.antt =====
-- domain/message/handler.rs: the requests of clients that change messages. The state is that of the
-- router (`Site`); windows are in milliseconds. Parameters are the user ids that the regular
-- expressions of domain/mention/parser.rs find in a text, and the rendering hints of the Markdown
-- library. Texts of errors of other components are left out of `ForwardResult`.
pub mod NewMessages
pub mod Storing
pub mod Stores
pub mod Steps
pub mod Edits
pub mod Editing
pub mod Examples
pub mod Forwarding
pub mod Forwards
pub mod Pinning
pub mod Pins
pub mod Sending
pub mod Windows
use Prim.Native.String.{String}
use ara_chat_service.Base.{
  ℕ, ◌-◌, ◌/◌, Bool, true, false, not, ◌&&◌, ◌||◌, List, [], ◌∷◌, ◌++◌, Option, none, some, ◌==◌,
  ltb, if◌then◌else◌, length, contains, keep, find, any, is_empty,
}
use ara_chat_service.Base.Results.{Result, ok, err}
use ara_chat_service.Database.{World, Stateful, Db, pure, fail, ◌>>=◌, ◌>>◌, continue}
use ara_chat_service.Connection.{Channel}
use ara_chat_service.Connection.Channels.{send_to_user}
use ara_chat_service.Conversation.{
  ConversationError, ConversationType, direct, group, Conversation, ConversationParticipant,
  can_pin_messages, is_some, is_participant, get_participant_ids, get_participant_info,
  get_conversation, update_last_message,
}
use ara_chat_service.Conversation.Muting.{
  mute_conversation, unmute_conversation, get_muted_conversations,
}
use ara_chat_service.Message.{
  ContentType, text, ChatMessage, ReplyContext, ForwardedFrom, ForwardResult, ServerMessage,
  conversation_muted, conversation_unmuted, OutboundMessage, preserialized,
}
use ara_chat_service.Storage.{
  StorageError, get_message, get_forwardable_message, find_by_client_id, recall_message,
  edit_message,
}
use ara_chat_service.Storage.Creating.{create_message, create_forwarded_message}
use ara_chat_service.Storage.Replies.{validate_reply_target, get_reply_context, get_thread_info}
use ara_chat_service.Storage.Pinning.{pin_message, unpin_message}
use ara_chat_service.Cluster.{Serde, Net}
use ara_chat_service.Router.{MessageRouter, RouterError, Site, is_blocked, route_message}
use ara_chat_service.Router.Changes.{
  route_recall, notify_mentions, route_message_edit, route_thread_updated, route_message_pinned,
  route_message_unpinned,
}

pub data MessageHandlerError : Type 0 where
  not_participant message_not_found not_message_owner message_recalled invalid_reply_target
        insufficient_pin_permission cannot_forward_recalled no_valid_targets :
      MessageHandlerError
  recall_window_expired edit_window_expired : (allowed_seconds : ℕ) → MessageHandlerError
  too_many_forward_targets : (max : ℕ) → MessageHandlerError
  storage : StorageError → MessageHandlerError
  routing : RouterError → MessageHandlerError
  conversation : ConversationError → MessageHandlerError

-- `MessageHandler`, with the tenants of the storage and the conversation service.
pub record MessageHandler (Queue : Type 0) : Type 0 where
  pub storage : String
  pub router : MessageRouter Queue
  pub conversation_service : String
  pub recall_window : ℕ
  pub edit_window : ℕ

abbrev pub new_handler : {Queue : Type 0} → MessageRouter Queue → MessageHandler Queue
new_handler router = record {
  storage = "default";
  router = router;
  conversation_service = "default";
  recall_window = 120000;
  edit_window = 900000;
}

-- `MentionParser::validate_mentions`
abbrev pub validate_mentions : List ℕ → List ℕ → List ℕ
validate_mentions mentions participants = keep (λ u. contains u participants) mentions

-- The loop that adds the parsed mentions to those given, each once.
abbrev pub add_mentions : List ℕ → List ℕ → List ℕ
add_mentions all [] = all
add_mentions all (u ∷ parsed) = add_mentions (if contains u all then all else all ++ u ∷ []) parsed

abbrev pub max_forward_targets : ℕ
max_forward_targets = 10

abbrev pub hints_of : (String → Option String) → ContentType → String → Option String
hints_of parse_markdown text content = parse_markdown content
hints_of parse_markdown _ content = none

-- A request: what it answers or refuses with, and the state it leaves.
abbrev pub Handle : Type 0 → Type 0 → Type 0
Handle S A = Stateful S MessageHandlerError A

module _ {Sender Queue : Type 0} where
  -- A call of a service, whose error becomes one of the handler.
  abbrev pub ask :
      {E A : Type 0} → (E → MessageHandlerError) → Db E A → Handle (Site Sender Queue) A
  ask wrap m site =
      let (answer, w) = m site.world in
      (elim answer [ ok a ↦ ok a | err e ↦ err (wrap e) ], record site { world = w })

  abbrev pub route :
      (Site Sender Queue → Result RouterError (Unit {0}) × Site Sender Queue)
      → Handle (Site Sender Queue) (Unit {0})
  route m site =
      let (answer, site') = m site in (elim answer [ ok a ↦ ok a | err e ↦ err (routing e) ], site')

  -- A call whose error is only logged.
  abbrev pub try_to : Handle (Site Sender Queue) (Unit {0}) → Handle (Site Sender Queue) (Unit {0})
  try_to m site = (ok tt, (m site).1)

  -- `.ok_or(…)`
  abbrev pub present : {A : Type 0} → MessageHandlerError → Option A → Handle (Site Sender Queue) A
  present e none = fail e
  present e (some a) = pure a

  -- `if … { return Err(…) }`
  abbrev pub refuse_if : Bool → MessageHandlerError → Handle (Site Sender Queue) (Unit {0})
  refuse_if b e = if b then fail e else pure tt

  -- Whether `now - created_at`, on `i64`, is more than the window; a negative age is not.
  abbrev pub is_late : ℕ → ChatMessage → Site Sender Queue → Bool
  is_late window m site = ltb window (site.world.now - m.created_at)

  abbrev pub refuse_late :
      ℕ → MessageHandlerError → ChatMessage → Handle (Site Sender Queue) (Unit {0})
  refuse_late window e m site = refuse_if (is_late window m site) e site

  -- `match service.call(…)`: the answer, with its error kept.
  abbrev pub consult : {E A : Type 0} → Db E A → Site Sender Queue → Result E A × Site Sender Queue
  consult m site = let (answer, w) = m site.world in (answer, record site { world = w })
