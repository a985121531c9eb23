-- ===== src/Message.antt =====
-- domain/message/types.rs: the messages that are routed. Of `ServerMessage` those constructors
-- stand here that domain/message/router.rs and handler.rs, domain/presence/broadcast.rs and
-- api/websocket.rs build; rendering hints are the text of their JSON.
use Prim.Native.String
use Prim.Native.String.{String, ◌++◌ as str_append}
use ara_chat_service.Base.{ℕ, zero, suc, Bool, List, Option, none, some, ltb, if◌then◌else◌}
use ara_chat_service.Base.Offsets.{ℤ}

pub data ContentType : Type 0 where
  text image file system : ContentType

-- `content.chars().take(n).collect()`
abbrev pub take_chars : ℕ → String → String
take_chars zero s = String.[]
take_chars (suc n) String.[] = String.[]
take_chars (suc n) (String.◌∷◌ c s) = String.◌∷◌ c (take_chars n s)

pub record ReplyContext : Type 0 where
  pub id : ℕ
  pub sender_id : ℕ
  pub content_preview : String
  pub content_type : ContentType

-- `ReplyContext::new`: the length is in bytes, the cut in characters.
unfoldable pub new_reply_context : ℕ → ℕ → String → ContentType → ReplyContext
new_reply_context id sender_id content content_type = record {
  id = id;
  sender_id = sender_id;
  content_preview =
      if ltb 100 (String.len content) then str_append (take_chars 100 content) "..." else content;
  content_type = content_type;
}

pub record ThreadInfo : Type 0 where
  pub reply_count : ℕ
  pub last_reply_at : Option ℕ
  pub last_reply_sender_id : Option ℕ

pub record ForwardedFrom : Type 0 where
  pub message_id : ℕ
  pub sender_id : ℕ
  pub conversation_id : ℕ

pub record ForwardResult : Type 0 where
  pub conversation_id : ℕ
  pub success : Bool
  pub message_id : Option ℕ
  pub error : Option String

pub record ChatMessage : Type 0 where
  pub id : ℕ
  pub conversation_id : ℕ
  pub sender_id : ℕ
  pub content : String
  pub content_type : ContentType
  pub created_at : ℕ
  pub updated_at : Option ℕ
  pub reply_to_id : Option ℕ
  pub reply_context : Option ReplyContext
  pub thread_info : Option ThreadInfo
  pub mentions : List ℕ
  pub reactions : List (String × List ℕ)
  pub recalled_at : Option ℕ
  pub pinned_at : Option ℕ
  pub pinned_by : Option ℕ
  pub forwarded_from : Option ForwardedFrom
  pub rendering_hints : Option String

pub data PresenceStatus : Type 0 where
  online away busy offline : PresenceStatus

pub data ServerMessage : Type 0 where
  message : (message : ChatMessage) → ServerMessage
  message_recalled : (conversation_id message_id recalled_by : ℕ) → ServerMessage
  message_edited :
      (conversation_id message_id : ℕ)
      → (new_content : String) → (edited_at : ℕ) → (mentions : List ℕ) → ServerMessage
  typing : (conversation_id user_id : ℕ) → (is_typing : Bool) → ServerMessage
  mention :
      (conversation_id message_id sender_id : ℕ) → (sender_name preview : String) → ServerMessage
  thread_updated :
      (conversation_id message_id reply_count last_reply_at last_reply_sender_id : ℕ)
      → ServerMessage
  message_pinned : (conversation_id message_id pinned_by pinned_at : ℕ) → ServerMessage
  message_unpinned : (conversation_id message_id unpinned_by : ℕ) → ServerMessage
  conversation_muted : (conversation_id muted_at : ℕ) → ServerMessage
  presence : (user_id : ℕ) → (status : PresenceStatus) → (last_seen : Option ℤ) → ServerMessage
  conversation_unmuted : (conversation_id : ℕ) → ServerMessage
  message_sent :
      (conversation_id message_id : ℕ)
      → (client_message_id : Option String) → (created_at : ℕ) → ServerMessage
  subscription_updated :
      (subscribed unsubscribed : List ℕ) → (total_subscriptions : ℕ) → ServerMessage
  -- The text beside the code is left out.
  error : (code : String) → ServerMessage

pub data OutboundMessage : Type 0 where
  raw : ServerMessage → OutboundMessage
  serialized : String → OutboundMessage

-- `serde_json::to_string` of a message is the parameter `json`.
module _ (json : ServerMessage → Option String) where
  unfoldable pub preserialized : ServerMessage → Option OutboundMessage
  preserialized m = elim (json m) [ none ↦ none | some s ↦ some (serialized s) ]

  unfoldable pub to_json : OutboundMessage → Option String
  to_json (raw m) = json m
  to_json (serialized s) = some s
