-- ===== src/Conversation.antt =====
-- domain/conversation/service.rs and types.rs: who takes part in a conversation.
-- `tenant` is the service's `tenant_id`.
pub mod Membership
pub mod Muting
pub mod Direct
pub mod Examples
pub mod Insertion
pub mod Lookups
pub mod Creation
pub mod Calls
pub mod Changes
pub mod Counts
pub mod Members
pub mod Pairs
use Prim.Native.String.{String}
use text.Mathlib.Text.{◌==◌ as str_eq}
use ara_chat_service.Base.{
  ℕ, ◌++◌, ◌+◌, Bool, true, false, ◌&&◌, List, [], ◌∷◌, Option, none, some, ◌==◌, ltb,
  if◌then◌else◌, length, keep, find, any, map,
}
use ara_chat_service.Base.Results.{Result, ok, err}
use ara_chat_service.Database.{
  ConversationRow, ParticipantRow, DirectRow, Tables, World, Db, pure, fail, ◌>>=◌, ◌>>◌, attempt,
  select, write, transaction, continue, settle,
}

pub data ConversationType : Type 0 where
  direct group : ConversationType

pub data ParticipantRole : Type 0 where
  owner admin member : ParticipantRole

-- The texts of the errors of the database are left out.
pub data ConversationError : Type 0 where
  not_found database not_participant : ConversationError

pub record Conversation : Type 0 where
  pub id : ℕ
  pub tenant_id : String
  pub conversation_type : ConversationType
  pub name : Option String
  pub avatar_url : Option String
  pub created_by : ℕ
  pub created_at : ℕ
  pub updated_at : ℕ
  pub participant_count : ℕ
  pub last_message_id : Option ℕ
  pub last_message_at : Option ℕ

pub record ConversationParticipant : Type 0 where
  pub conversation_id : ℕ
  pub user_id : ℕ
  pub tenant_id : String
  pub role : ParticipantRole
  pub joined_at : ℕ
  pub left_at : Option ℕ
  pub last_read_message_id : Option ℕ
  pub last_read_at : Option ℕ
  pub is_muted : Bool
  pub muted_at : Option ℕ

abbrev pub parse_type : String → ConversationType
parse_type t = if str_eq t "group" then group else direct

abbrev pub type_str : ConversationType → String
type_str direct = "direct"
type_str group = "group"

abbrev pub parse_role : String → ParticipantRole
parse_role r = if str_eq r "owner" then owner else if str_eq r "admin" then admin else member

unfoldable pub can_pin_messages : ConversationParticipant → Bool
can_pin_messages p = elim p.role [ owner ↦ true | admin ↦ true | member ↦ false ]

unfoldable pub into_conversation : ConversationRow → Conversation
into_conversation r = record {
  id = r.id;
  tenant_id = r.tenant_id;
  conversation_type = parse_type r.conversation_type;
  name = r.name;
  avatar_url = r.avatar_url;
  created_by = r.created_by;
  created_at = r.created_at;
  updated_at = r.updated_at;
  participant_count = r.participant_count;
  last_message_id = r.last_message_id;
  last_message_at = r.last_message_at;
}

unfoldable pub into_participant : ParticipantRow → ConversationParticipant
into_participant r = record {
  conversation_id = r.conversation_id;
  user_id = r.user_id;
  tenant_id = r.tenant_id;
  role = parse_role r.role;
  joined_at = r.joined_at;
  left_at = r.left_at;
  last_read_message_id = r.last_read_message_id;
  last_read_at = r.last_read_at;
  is_muted = r.is_muted;
  muted_at = r.muted_at;
}

abbrev pub is_none {ℓ} : {A : Type ℓ} → Option A → Bool
is_none none = true
is_none (some a) = false

abbrev pub is_some {ℓ} : {A : Type ℓ} → Option A → Bool
is_some none = false
is_some (some a) = true

-- The row of a user in a conversation, by the primary key.
abbrev pub is_row : ℕ → ℕ → ParticipantRow → Bool
is_row c u r = r.conversation_id == c && r.user_id == u

abbrev pub count_active : ℕ → List ParticipantRow → ℕ
count_active c rows = length (keep (λ r. r.conversation_id == c && is_none r.left_at) rows)

-- `UPDATE … WHERE p`
abbrev pub update {ℓ} : {A : Type ℓ} → (A → Bool) → (A → A) → List A → List A
update p f [] = []
update p f (x ∷ xs) = (if p x then f x else x) ∷ update p f xs

module _ (tenant : String) where
  abbrev pub active_in : ℕ → ParticipantRow → Bool
  active_in c r = r.conversation_id == c && str_eq r.tenant_id tenant && is_none r.left_at

  abbrev pub is_active : ℕ → ℕ → ParticipantRow → Bool
  is_active c u r = is_row c u r && str_eq r.tenant_id tenant && is_none r.left_at

  abbrev pub is_mine : ℕ → ℕ → ParticipantRow → Bool
  is_mine c u r = is_row c u r && str_eq r.tenant_id tenant

  unfoldable pub is_participant : ℕ → ℕ → Db ConversationError Bool
  is_participant c u = select database (λ t. any (is_active c u) t.participants)

  unfoldable pub get_participant_ids : ℕ → Db ConversationError (List ℕ)
  get_participant_ids c =
      select database (λ t. map (λ r. r.user_id) (keep (active_in c) t.participants))

  unfoldable pub get_participants : ℕ → Db ConversationError (List ConversationParticipant)
  unfolding into_participant
  get_participants c =
      select database (λ t. map into_participant (keep (active_in c) t.participants))

  unfoldable pub get_conversation : ℕ → Db ConversationError (Option Conversation)
  unfolding into_conversation
  get_conversation c = do
    row ← select database (λ t. find (λ r. r.id == c && str_eq r.tenant_id tenant) t.conversations)
    pure (elim row [ none ↦ none | some r ↦ some (into_conversation r) ])

  -- The row also of a user who has left.
  unfoldable pub get_participant_info :
      ℕ → ℕ → Db ConversationError (Option ConversationParticipant)
  unfolding into_participant
  get_participant_info c u = do
    row ← select database (λ t. find (is_mine c u) t.participants)
    pure (elim row [ none ↦ none | some r ↦ some (into_participant r) ])

  unfoldable pub update_last_message : ℕ → ℕ → Db ConversationError (Unit {0})
  update_last_message c message_id = write database (λ now t. record t {
    conversations =
        update (λ r. r.id == c && str_eq r.tenant_id tenant)
          (λ r. record r {
            last_message_id = some message_id;
            last_message_at = some now;
            updated_at = now;
          })
          t.conversations;
  })
