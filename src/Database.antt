-- ===== src/Database.antt =====
-- The rows that the services keep (the tables of migrations/001_conversations.sql and 002_messages.sql) and the
-- way they are read and written. A statement may find the database away; a transaction that ends
-- in an error leaves the tables as they were.
pub mod Laws
use Prim.Native.String.{String}
use ara_chat_service.Base.{ℕ, ◌+◌, Bool, false, Option, List, if◌then◌else◌}
use ara_chat_service.Base.Results.{Result, ok, err}
pub use ara_chat_service.Base.Stateful.{Stateful, pure, fail, continue, ◌>>=◌, ◌>>◌}

-- `ConversationRow` of domain/conversation/service.rs
pub record ConversationRow : Type 0 where
  pub id : ℕ
  pub tenant_id : String
  pub conversation_type : String
  pub name : Option String
  pub avatar_url : Option String
  pub created_by : ℕ
  pub created_at : ℕ
  pub updated_at : ℕ
  pub participant_count : ℕ
  pub last_message_id : Option ℕ
  pub last_message_at : Option ℕ

-- `ParticipantRow` of domain/conversation/service.rs
pub record ParticipantRow : Type 0 where
  pub conversation_id : ℕ
  pub user_id : ℕ
  pub tenant_id : String
  pub role : String
  pub joined_at : ℕ
  pub left_at : Option ℕ
  pub last_read_message_id : Option ℕ
  pub last_read_at : Option ℕ
  pub is_muted : Bool
  pub muted_at : Option ℕ

-- `DirectMessageEntry` of domain/conversation/types.rs
pub record DirectRow : Type 0 where
  pub user_pair_hash : ℕ
  pub conversation_id : ℕ
  pub user1_id : ℕ
  pub user2_id : ℕ
  pub tenant_id : String

-- `MessageRow` of domain/message/storage.rs, with the tenant that its queries name; the rendering
-- hints are the text of their JSON.
pub record MessageRow : Type 0 where
  pub id : ℕ
  pub conversation_id : ℕ
  pub sender_id : ℕ
  pub tenant_id : String
  pub content : String
  pub content_type : String
  pub created_at : ℕ
  pub updated_at : Option ℕ
  pub deleted_at : Option ℕ
  pub reply_to_id : Option ℕ
  pub mentions : List ℕ
  pub client_message_id : Option String
  pub forwarded_from_message_id : Option ℕ
  pub forwarded_from_sender_id : Option ℕ
  pub forwarded_from_conversation_id : Option ℕ
  pub rendering_hints : Option String

-- A row of `message_pins`, migrations/009_message_pins.sql
pub record PinRow : Type 0 where
  pub message_id : ℕ
  pub conversation_id : ℕ
  pub pinned_by : ℕ
  pub pinned_at : ℕ

-- A row of `user_blocks`, migrations/011_user_blocking.sql
pub record BlockRow : Type 0 where
  pub blocker_id : ℕ
  pub blocked_user_id : ℕ
  pub tenant_id : String
  pub blocked_at : ℕ
  pub reason : Option String

-- A row of `message_reactions`, migrations/003_reactions.sql
pub record ReactionRow : Type 0 where
  pub message_id : ℕ
  pub message_partition_key : ℕ
  pub user_id : ℕ
  pub emoji : String
  pub created_at : ℕ

pub record Tables : Type 0 where
  pub conversations : List ConversationRow
  pub participants : List ParticipantRow
  pub direct_lookup : List DirectRow
  pub messages : List MessageRow
  pub pins : List PinRow
  pub blocks : List BlockRow
  pub reactions : List ReactionRow

-- `answers n` says whether the database answers the statement of number `n`; `queries` counts them.
-- `now` is the time of the call.
pub record World : Type 0 where
  pub tables : Tables
  pub now : ℕ
  pub queries : ℕ
  pub answers : ℕ → Bool

abbrev pub Db : Type 0 → Type 0 → Type 0
Db E A = Stateful World E A

module _ {E : Type 0} where
  -- One statement, which fails with `e` where the database does not answer.
  abbrev pub attempt : E → Db E (Unit {0})
  attempt e w =
      ((if w.answers w.queries then ok tt else err e), record w { queries = w.queries + 1 })

  -- `SELECT`, and a statement that writes; both see the time of the call.
  abbrev pub select : {A : Type 0} → E → (Tables → A) → Db E A
  select e read = do attempt e; λ w. (ok (read w.tables), w)

  -- `SELECT 1`, whose row is read as `Option<(i64,)>`: the literal is an INT4, which the client does
  -- not decode as an i64, so that a row is an error.
  abbrev pub select_one : E → (Tables → Bool) → Db E Bool
  select_one e found = do attempt e; λ w. ((if found w.tables then err e else ok false), w)

  abbrev pub write : E → (ℕ → Tables → Tables) → Db E (Unit {0})
  write e change = do attempt e; λ w. (ok tt, record w { tables = change w.now w.tables })

  abbrev pub settle : {A : Type 0} → Tables → Result E A × World → Result E A × World
  settle before (ok a, w) = (ok a, w)
  settle before (err e, w) = (err e, record w { tables = before })

  -- `begin`, the body and `commit`; an error on the way drops the transaction.
  abbrev pub transaction : {A : Type 0} → E → Db E A → Db E A
  transaction e body = do attempt e; λ w. settle w.tables ((do a ← body; attempt e; pure a) w)
