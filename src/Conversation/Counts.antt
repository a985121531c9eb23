-- ===== src/Conversation/Counts.antt =====
-- The counter `participant_count` of a conversation, domain/conversation/service.rs.
use Prim.Native.String.{String}
use ara_chat_service.Base.{
  ℕ, ◌++◌, Bool, true, false, ◌||◌, List, [], ◌∷◌, some, ◌==◌, Bool-cases, ◌≡◌, refl, sym, ◌∙◌, inl,
  inr, arith, any, All,
}
use ara_chat_service.Database.{ConversationRow, ParticipantRow, Tables}
use ara_chat_service.Conversation.{is_mine, update, count_active}
use ara_chat_service.Conversation.Membership.{upsert_participant}

-- Every conversation's counter is the number of its participants who have not left.
abbrev pub IsCounted : Tables → Type 0
IsCounted t = All (λ c. c.participant_count ≡ count_active c.id t.participants) t.conversations

-- The counters of other conversations stay right where their participants stay.
abbrev pub Right : List ParticipantRow → List ConversationRow → Type 0
Right rows = All (λ c. c.participant_count ≡ count_active c.id rows)

pub recount-Right :
    (c now : ℕ) (old new : List ParticipantRow) (convs : List ConversationRow)
    → ((d : ℕ) → (d == c) ≡ false → count_active d new ≡ count_active d old)
    → Right old convs
    → Right new (
        update
          (λ r. r.id == c)
          (λ r. record r { participant_count = count_active c new; updated_at = now })
          convs)
recount-Right c now old new [] other h = tt
recount-Right c now old new (x ∷ convs) other h =
    ground (arith, other x.id, recount-Right c now old new convs other h.1)

pub count_active-upsert :
    (d : ℕ) (new : ParticipantRow) (rows : List ParticipantRow)
    → (d == new.conversation_id) ≡ false
    → count_active d (upsert_participant new rows) ≡ count_active d rows
count_active-upsert d new [] h = ground arith
count_active-upsert d new (r ∷ rows) h = elim (Bool-cases (r.conversation_id == d)) [
  | inl e ↦ ground (arith, e, count_active-upsert d new rows h)
  | inr e ↦ ground (arith, e, count_active-upsert d new rows h)
]

pub count_active-dismiss :
    (tenant : String) (c u now d : ℕ) (rows : List ParticipantRow)
    → (d == c) ≡ false
    → count_active d (update (is_mine tenant c u) (λ r. record r { left_at = some now }) rows)
      ≡ count_active d rows
count_active-dismiss tenant c u now d [] h = refl
count_active-dismiss tenant c u now d (r ∷ rows) h = elim (Bool-cases (r.conversation_id == d)) [
  | inl e ↦ ground (arith, e, count_active-dismiss tenant c u now d rows h)
  | inr e ↦ ground (arith, e, count_active-dismiss tenant c u now d rows h)
]

-- Each participant's conversation has a row (the foreign key).
abbrev pub known : ℕ → List ConversationRow → Bool
known c = any (λ r. r.id == c)

abbrev pub IsReferenced : List ConversationRow → List ParticipantRow → Type 0
IsReferenced convs = All (λ r. known r.conversation_id convs ≡ true)

pub record IsConsistent (t : Tables) : Type 0 where
  pub counted : IsCounted t
  pub referenced : IsReferenced t.conversations t.participants

pub known-update :
    (c : ℕ) (p : ConversationRow → Bool) (f : ConversationRow → ConversationRow)
    (convs : List ConversationRow)
    → ((r : ConversationRow) → (f r).id ≡ r.id)
    → known c (update p f convs) ≡ known c convs
known-update c p f [] same = refl
known-update c p f (r ∷ convs) same = ground (arith, same r, known-update c p f convs same)

pub known-append :
    (c : ℕ) (convs : List ConversationRow) (r : ConversationRow)
    → known c (convs ++ r ∷ []) ≡ (known c convs || (r.id == c))
known-append c [] r = ground arith
known-append c (x ∷ convs) r = ground (arith, known-append c convs r)

pub IsReferenced-mono :
    (convs convs' : List ConversationRow) (rows : List ParticipantRow)
    → ((c : ℕ) → known c convs ≡ true → known c convs' ≡ true)
    → IsReferenced convs rows
    → IsReferenced convs' rows
IsReferenced-mono convs convs' [] more h = tt
IsReferenced-mono convs convs' (r ∷ rows) more h =
    (more r.conversation_id h.0, IsReferenced-mono convs convs' rows more h.1)

pub IsReferenced-upsert :
    (convs : List ConversationRow) (new : ParticipantRow) (rows : List ParticipantRow)
    → known new.conversation_id convs ≡ true
    → IsReferenced convs rows
    → IsReferenced convs (upsert_participant new rows)
IsReferenced-upsert convs new [] k h = (k, tt)
IsReferenced-upsert convs new (r ∷ rows) k h =
    ground (arith, IsReferenced-upsert convs new rows k h.1)

pub IsReferenced-update :
    (convs : List ConversationRow) (p : ParticipantRow → Bool) (f : ParticipantRow → ParticipantRow)
    (rows : List ParticipantRow)
    → ((r : ParticipantRow) → (f r).conversation_id ≡ r.conversation_id)
    → IsReferenced convs rows
    → IsReferenced convs (update p f rows)
IsReferenced-update convs p f [] same h = tt
IsReferenced-update convs p f (r ∷ rows) same h =
    ground (arith, same r, IsReferenced-update convs p f rows same h.1)

pub count_active-update :
    (d : ℕ) (p : ParticipantRow → Bool) (f : ParticipantRow → ParticipantRow)
    (rows : List ParticipantRow)
    → ((r : ParticipantRow)
        → ((f r).conversation_id ≡ r.conversation_id) × ((f r).left_at ≡ r.left_at))
    → count_active d (update p f rows) ≡ count_active d rows
count_active-update d p f [] same = refl
count_active-update d p f (r ∷ rows) same = elim (Bool-cases (p r)) [
  | inl e ↦ ground (arith, e, same r, count_active-update d p f rows same)
  | inr e ↦ ground (arith, e, count_active-update d p f rows same)
]

pub Right-mono :
    (old new : List ParticipantRow) (convs : List ConversationRow)
    → ((d : ℕ) → count_active d new ≡ count_active d old)
    → Right old convs
    → Right new convs
Right-mono old new [] same h = tt
Right-mono old new (c ∷ convs) same h = (h.0 ∙ sym (same c.id), Right-mono old new convs same h.1)
