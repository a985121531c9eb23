-- ===== src/Conversation/Muting.antt =====
-- Muting in domain/conversation/service.rs.
use Prim.Native.String.{String}
use text.Mathlib.Text.{◌==◌ as str_eq}
use ara_chat_service.Base.{
  ℕ, Bool, true, false, ◌&&◌, List, none, some, ◌==◌, if◌then◌else◌, keep, find, map,
}
use ara_chat_service.Base.Results.{ok}
use ara_chat_service.Database.{Db, pure, fail, ◌>>=◌, ◌>>◌, select, write}
use ara_chat_service.Conversation.{
  ConversationError, database, not_participant, is_none, update, active_in, is_active, is_mine,
  is_participant,
}

module _ (tenant : String) where
  -- The time when the conversation was muted.
  unfoldable pub mute_conversation : ℕ → ℕ → Db ConversationError ℕ
  unfolding is_participant
  mute_conversation c u = do
    may ← is_participant tenant c u
    if may
        then (do
          write database (λ now t. record t {
            participants =
                update (is_mine tenant c u) (λ r. record r { is_muted = true; muted_at = some now })
                  t.participants;
          })
          λ w. (ok w.now, w))
        else fail not_participant

  unfoldable pub unmute_conversation : ℕ → ℕ → Db ConversationError (Unit {0})
  unfolding is_participant
  unmute_conversation c u = do
    may ← is_participant tenant c u
    if may
        then write database (λ now t. record t {
          participants =
              update (is_mine tenant c u) (λ r. record r { is_muted = false; muted_at = none })
                t.participants;
        })
        else fail not_participant

  unfoldable pub is_conversation_muted : ℕ → ℕ → Db ConversationError Bool
  is_conversation_muted c u = do
    row ← select database (λ t. find (is_active tenant c u) t.participants)
    pure (elim row [ none ↦ false | some r ↦ r.is_muted ])

  unfoldable pub get_muted_user_ids : ℕ → Db ConversationError (List ℕ)
  get_muted_user_ids c =
      select database
        (λ t. map (λ r. r.user_id) (keep (λ r. active_in tenant c r && r.is_muted) t.participants))

  unfoldable pub get_muted_conversations : ℕ → Db ConversationError (List ℕ)
  get_muted_conversations u = select database (λ t.
      map (λ r. r.conversation_id)
        (keep (λ r. r.user_id == u && str_eq r.tenant_id tenant && is_none r.left_at && r.is_muted)
          t.participants))
