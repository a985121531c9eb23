-- ===== src/Conversation/Changes.antt =====
-- The changes of participants in domain/conversation/service.rs and the counters.
use mathlib.Core.Path.{subst}
use Prim.Native.String.{String}
use ara_chat_service.Base.{
  ℕ, Bool, true, false, List, [], ◌∷◌, none, some, ◌==◌, Bool-cases, ◌≡◌, refl, sym, ◌∙◌, ◌⊎◌, inl,
  inr, arith, any,
}
use ara_chat_service.Database.{ConversationRow, ParticipantRow, Tables, World}
use ara_chat_service.Conversation.{is_active, is_mine, update, count_active}
use ara_chat_service.Conversation.Membership.{
  joining, upsert_participant, add_participant, remove_participant, recount,
}
use ara_chat_service.Conversation.Muting.{mute_conversation, unmute_conversation}
use ara_chat_service.Conversation.Counts.{
  IsCounted, IsConsistent, IsReferenced, known, known-update, IsReferenced-mono, Right-mono,
  recount-Right, count_active-upsert, count_active-dismiss, IsReferenced-upsert,
  IsReferenced-update, count_active-update,
}

module _ (tenant : String) (c u by : ℕ) (w : World) where
  add_cases :
      let after = (add_participant tenant c u by w).1.tables in
      (after ≡ w.tables)
      ⊎ ((any (is_active tenant c by) w.tables.participants ≡ true)
          × (after
              ≡ recount c w.now (record (w.tables) {
                participants =
                    upsert_participant (joining tenant c u "member" w.now) w.tables.participants;
              })))
  unfolding add_participant
  add_cases = ground arith

  remove_cases :
      let after = (remove_participant tenant c u by w).1.tables in
      (after ≡ w.tables)
      ⊎ (after
          ≡ recount c w.now (record (w.tables) {
            participants =
                update
                  (is_mine tenant c u)
                  (λ r. record r { left_at = some w.now })
                  w.tables.participants;
          }))
  unfolding remove_participant
  remove_cases = ground arith

known_of_takes_part :
    (tenant : String) (c u : ℕ) (convs : List ConversationRow) (rows : List ParticipantRow)
    → IsReferenced convs rows
    → any (is_active tenant c u) rows ≡ true
    → known c convs ≡ true
known_of_takes_part tenant c u convs [] h e = cc
known_of_takes_part tenant c u convs (r ∷ rows) h e = elim (Bool-cases (r.conversation_id == c)) [
  | inl p ↦ ground (arith, p, h.0)
  | inr p ↦ known_of_takes_part tenant c u convs rows h.1 (rw p at e)
]

-- The counter after a change to the participants of one conversation.
recount-IsConsistent :
    (c now : ℕ) (t : Tables) (rows : List ParticipantRow)
    → ((d : ℕ) → (d == c) ≡ false → count_active d rows ≡ count_active d t.participants)
    → IsReferenced t.conversations rows
    → IsCounted t
    → IsConsistent (recount c now (record t { participants = rows }))
recount-IsConsistent c now t rows other r k = record {
  counted = recount-Right c now t.participants rows t.conversations other k;
  referenced =
      IsReferenced-mono t.conversations _ rows
        (λ d e. known-update d (λ x. x.id == c) _ t.conversations (λ x. refl) ∙ e) r;
}

module _ (tenant : String) (c u by : ℕ) (w : World) (k : IsConsistent w.tables) where
  pub add-IsConsistent : IsConsistent (add_participant tenant c u by w).1.tables
  add-IsConsistent = elim (add_cases tenant c u by w) [
    | inl e ↦ subst IsConsistent (sym e) k
    | inr (part, e) ↦ subst IsConsistent (sym e) (
        recount-IsConsistent c w.now w.tables _
          (λ d h. count_active-upsert d (joining tenant c u "member" w.now) w.tables.participants h)
          (IsReferenced-upsert w.tables.conversations (joining tenant c u "member" w.now)
            w.tables.participants
            (known_of_takes_part tenant c by w.tables.conversations w.tables.participants
              k.referenced part)
            k.referenced)
          k.counted)
  ]

  pub remove-IsConsistent : IsConsistent (remove_participant tenant c u by w).1.tables
  remove-IsConsistent = elim (remove_cases tenant c u by w) [
    | inl e ↦ subst IsConsistent (sym e) k
    | inr e ↦ subst IsConsistent (sym e) (
        recount-IsConsistent c w.now w.tables _
          (λ d h. count_active-dismiss tenant c u w.now d w.tables.participants h)
          (IsReferenced-update w.tables.conversations (is_mine tenant c u) _ w.tables.participants
            (λ r. refl) k.referenced)
          k.counted)
  ]

-- Marks on participants, and the last message of a conversation, change no count.
marks-IsConsistent :
    (t : Tables) (p : ParticipantRow → Bool) (f : ParticipantRow → ParticipantRow)
    → ((r : ParticipantRow)
        → ((f r).conversation_id ≡ r.conversation_id) × ((f r).left_at ≡ r.left_at))
    → IsConsistent t
    → IsConsistent (record t { participants = update p f t.participants })
marks-IsConsistent t p f same k = record {
  counted =
      Right-mono t.participants _ t.conversations
        (λ d. count_active-update d p f t.participants same) k.counted;
  referenced =
      IsReferenced-update t.conversations p f t.participants (λ r. (same r).0) k.referenced;
}

module _ (tenant : String) (c u : ℕ) (w : World) (k : IsConsistent w.tables) where
  pub mute-IsConsistent : IsConsistent (mute_conversation tenant c u w).1.tables
  unfolding mute_conversation
  mute-IsConsistent = ground (
    arith,
    k,
    marks-IsConsistent w.tables (is_mine tenant c u)
        (λ r. record r { is_muted = true; muted_at = some w.now }) (λ r. (refl, refl)) k,
  )

  pub unmute-IsConsistent : IsConsistent (unmute_conversation tenant c u w).1.tables
  unfolding unmute_conversation
  unmute-IsConsistent = ground (
    arith,
    k,
    marks-IsConsistent w.tables (is_mine tenant c u)
        (λ r. record r { is_muted = false; muted_at = none }) (λ r. (refl, refl)) k,
  )
