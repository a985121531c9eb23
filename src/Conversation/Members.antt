-- ===== src/Conversation/Members.antt =====
-- Who may change the participants in domain/conversation/service.rs, and what a change does.
use Prim.Native.String.{String}
use text.Mathlib.Text.{◌==◌ as str_eq}
use text.Mathlib.TextPositions.{eq_refl}
use ara_chat_service.Base.{
  ℕ, Bool, true, false, ◌&&◌, List, [], ◌∷◌, some, ◌==◌, Bool-cases, ◌≡◌, refl, ◌⊎◌, inl, inr,
  arith, any, All,
}
use ara_chat_service.Base.Results.{ok, err}
use ara_chat_service.Database.{ParticipantRow, World}
use ara_chat_service.Conversation.{
  ConversationError, database, not_participant, is_row, is_active, is_mine, update,
}
use ara_chat_service.Conversation.Membership.{
  joining, upsert_participant, add_participant, remove_participant,
}

module _ (tenant : String) where
  abbrev pub takes_part : ℕ → ℕ → List ParticipantRow → Bool
  takes_part c u rows = any (is_active tenant c u) rows

  -- An error of `add_participant` leaves the tables as they were; without an outage it is that the
  -- caller takes no part.
  add_participant-error :
      (c u by : ℕ) (w : World) (e : ConversationError)
      → (add_participant tenant c u by w).0 ≡ err e
      → ((add_participant tenant c u by w).1.tables ≡ w.tables)
        × ((e ≡ database)
            ⊎ ((e ≡ not_participant) × (takes_part c by w.tables.participants ≡ false)))
  unfolding add_participant
  add_participant-error c u by w e h = ground arith

  pub remove_participant-error :
      (c u by : ℕ) (w : World) (e : ConversationError)
      → (remove_participant tenant c u by w).0 ≡ err e
      → ((remove_participant tenant c u by w).1.tables ≡ w.tables)
        × ((e ≡ database)
            ⊎ ((e ≡ not_participant) × (takes_part c by w.tables.participants ≡ false)))
  unfolding remove_participant
  remove_participant-error c u by w e h = ground arith

  -- The rows of a user in a conversation are of this tenant.
  abbrev pub OwnTenant : ℕ → ℕ → List ParticipantRow → Type 0
  OwnTenant c u = All (λ r. is_row c u r ≡ true → str_eq r.tenant_id tenant ≡ true)

  takes_part-upsert_self :
      (c u now : ℕ) (rows : List ParticipantRow)
      → OwnTenant c u rows
      → takes_part c u (upsert_participant (joining tenant c u "member" now) rows) ≡ true
  takes_part-upsert_self c u now [] own = ground (arith, eq_refl tenant)
  takes_part-upsert_self c u now (r ∷ rows) own = elim (Bool-cases (is_row c u r)) [
    | inl hit ↦ ground (arith, hit, own.0 hit)
    | inr miss ↦ ground (arith, miss, takes_part-upsert_self c u now rows own.1)
  ]

  -- A row of one member is no row of another.
  other_row :
      (c u c' u' : ℕ) (r : ParticipantRow)
      → (c == c' && u == u') ≡ false
      → is_row c u r ≡ true
      → is_row c' u' r ≡ false
  other_row c u c' u' r other hit = ground arith

  takes_part-upsert_other :
      (c u c' u' now : ℕ) (rows : List ParticipantRow)
      → (c == c' && u == u') ≡ false
      → takes_part c' u' (upsert_participant (joining tenant c u "member" now) rows)
        ≡ takes_part c' u' rows
  takes_part-upsert_other c u c' u' now [] other =
      rw (other_row c u c' u' (joining tenant c u "member" now) other (ground arith)) refl
  takes_part-upsert_other c u c' u' now (r ∷ rows) other = elim (Bool-cases (is_row c u r)) [
    | inl hit ↦ rw (hit, other_row c u c' u' r other hit) refl
    | inr miss ↦ rw (miss, takes_part-upsert_other c u c' u' now rows other) refl
  ]

  takes_part-dismiss_self :
      (c u now : ℕ) (rows : List ParticipantRow)
      → takes_part c u (update (is_mine tenant c u) (λ r. record r { left_at = some now }) rows)
        ≡ false
  takes_part-dismiss_self c u now [] = refl
  takes_part-dismiss_self c u now (r ∷ rows) = ground (arith, takes_part-dismiss_self c u now rows)

  takes_part-dismiss_other :
      (c u c' u' now : ℕ) (rows : List ParticipantRow)
      → (c == c' && u == u') ≡ false
      → takes_part c' u' (update (is_mine tenant c u) (λ r. record r { left_at = some now }) rows)
        ≡ takes_part c' u' rows
  takes_part-dismiss_other c u c' u' now [] other = refl
  takes_part-dismiss_other c u c' u' now (r ∷ rows) other = elim (Bool-cases (is_row c u r)) [
    | inl hit ↦
        ground (
          arith,
          other_row c u c' u' r other hit,
          takes_part-dismiss_other c u c' u' now rows other,
        )
    | inr miss ↦ rw (miss, takes_part-dismiss_other c u c' u' now rows other) refl
  ]

  -- `add_participant` succeeds for a caller who takes part; then the user takes part too, and all
  -- others as before.
  add_participant-ok :
      (c u by : ℕ) (w : World)
      → OwnTenant c u w.tables.participants
      → (add_participant tenant c u by w).0 ≡ ok tt
      → let after = (add_participant tenant c u by w).1.tables.participants in
        (takes_part c by w.tables.participants ≡ true)
        × (takes_part c u after ≡ true)
        × ((c' u' : ℕ)
            → (c == c' && u == u') ≡ false
            → takes_part c' u' after ≡ takes_part c' u' w.tables.participants)
  unfolding add_participant
  add_participant-ok c u by w own h = (
    ground arith,
    ground (arith, takes_part-upsert_self c u w.now w.tables.participants own),
    λ c' u' other.
        ground (arith, takes_part-upsert_other c u c' u' w.now w.tables.participants other),
  )

  -- `remove_participant` succeeds for a caller who takes part; then the user takes no part, and all
  -- others do as before.
  remove_participant-ok :
      (c u by : ℕ) (w : World)
      → (remove_participant tenant c u by w).0 ≡ ok tt
      → let after = (remove_participant tenant c u by w).1.tables.participants in
        (takes_part c by w.tables.participants ≡ true)
        × (takes_part c u after ≡ false)
        × ((c' u' : ℕ)
            → (c == c' && u == u') ≡ false
            → takes_part c' u' after ≡ takes_part c' u' w.tables.participants)
  unfolding remove_participant
  remove_participant-ok c u by w h = (
    ground arith,
    ground (arith, takes_part-dismiss_self c u w.now w.tables.participants),
    λ c' u' other.
        ground (arith, takes_part-dismiss_other c u c' u' w.now w.tables.participants other),
  )
