-- ===== src/Conversation/Membership.antt =====
-- Who enters and leaves a conversation (domain/conversation/service.rs).
use Prim.Native.String.{String}
use ara_chat_service.Base.{ℕ, false, List, [], ◌∷◌, none, some, ◌==◌, if◌then◌else◌}
use ara_chat_service.Database.{
  ParticipantRow, Tables, Db, pure, fail, ◌>>=◌, ◌>>◌, write, transaction,
}
use ara_chat_service.Conversation.{
  ConversationError, database, not_participant, is_row, count_active, update, is_mine,
  is_participant,
}

-- `INSERT … ON CONFLICT (conversation_id, user_id) DO UPDATE SET left_at = NULL, joined_at = NOW()`
abbrev pub upsert_participant : ParticipantRow → List ParticipantRow → List ParticipantRow
upsert_participant new [] = new ∷ []
upsert_participant new (r ∷ rows) =
    if is_row new.conversation_id new.user_id r
    then record r { left_at = none; joined_at = new.joined_at } ∷ rows
    else r ∷ upsert_participant new rows

-- `SET participant_count = (SELECT COUNT(*) …), updated_at = NOW()`
abbrev pub recount : ℕ → ℕ → Tables → Tables
recount c now t = record t {
  conversations =
      update (λ r. r.id == c)
        (λ r. record r { participant_count = count_active c t.participants; updated_at = now })
        t.conversations;
}

module _ (tenant : String) where
  abbrev pub joining : ℕ → ℕ → String → ℕ → ParticipantRow
  joining c u role now = record {
    conversation_id = c;
    user_id = u;
    tenant_id = tenant;
    role = role;
    joined_at = now;
    left_at = none;
    last_read_message_id = none;
    last_read_at = none;
    is_muted = false;
    muted_at = none;
  }

  -- The two statements of `add_participant` in their transaction.
  abbrev pub admit : ℕ → ℕ → Db ConversationError (Unit {0})
  admit c u = transaction database (do
    write database (λ now t. record t {
      participants = upsert_participant (joining c u "member" now) t.participants;
    })
    write database (recount c))

  unfoldable pub add_participant : ℕ → ℕ → ℕ → Db ConversationError (Unit {0})
  unfolding is_participant
  add_participant c u added_by = do
    may ← is_participant tenant c added_by
    if may
        then (do already ← is_participant tenant c u; if already then pure tt else admit c u)
        else fail not_participant

  abbrev pub dismiss : ℕ → ℕ → Db ConversationError (Unit {0})
  dismiss c u = transaction database (do
    write database (λ now t. record t {
      participants =
          update (is_mine tenant c u) (λ r. record r { left_at = some now }) t.participants;
    })
    write database (recount c))

  unfoldable pub remove_participant : ℕ → ℕ → ℕ → Db ConversationError (Unit {0})
  unfolding is_participant
  remove_participant c u removed_by = do
    may ← is_participant tenant c removed_by
    if may then dismiss c u else fail not_participant

  unfoldable pub leave_conversation : ℕ → ℕ → Db ConversationError (Unit {0})
  unfolding remove_participant
  leave_conversation c u = remove_participant c u u
