-- ===== src/Conversation/Insertion.antt =====
-- The rows of a new conversation, domain/conversation/service.rs.
use mathlib.Core.Path.{subst}
use Prim.Native.String.{String}
use ara_chat_service.Base.{
  ℕ, ◌+◌, ◌++◌, true, false, ◌&&◌, List, [], ◌∷◌, ◌==◌, if◌then◌else◌, Bool-cases, ◌≡◌, refl, sym,
  ap, ◌∙◌, inl, inr, arith, length, any, All,
}
use ara_chat_service.Base.Results.{ok}
use ara_chat_service.Database.{ConversationRow, ParticipantRow, Tables, World}
use ara_chat_service.Conversation.{is_row, is_none, count_active}
use ara_chat_service.Conversation.Membership.{joining}
use ara_chat_service.Conversation.Direct.{insert_participants, insert_conversation}
use ara_chat_service.Conversation.Counts.{
  IsConsistent, IsReferenced, known, known-append, IsReferenced-mono,
}

count_active-snoc :
    (d : ℕ) (rows : List ParticipantRow) (r : ParticipantRow)
    → count_active d (rows ++ r ∷ []) ≡ (
        if r.conversation_id == d && is_none r.left_at
        then count_active d rows + 1
        else count_active d rows)
count_active-snoc d [] r = ground arith
count_active-snoc d (x ∷ rows) r = elim (Bool-cases (x.conversation_id == d && is_none x.left_at)) [
  | inl e ↦ rw e (ground (arith, count_active-snoc d rows r))
  | inr e ↦ rw e (count_active-snoc d rows r)
]

IsReferenced-snoc :
    (convs : List ConversationRow) (rows : List ParticipantRow) (r : ParticipantRow)
    → known r.conversation_id convs ≡ true
    → IsReferenced convs rows
    → IsReferenced convs (rows ++ r ∷ [])
IsReferenced-snoc convs [] r k h = (k, tt)
IsReferenced-snoc convs (x ∷ rows) r k h = (h.0, IsReferenced-snoc convs rows r k h.1)

count_active_unknown :
    (c : ℕ) (convs : List ConversationRow) (rows : List ParticipantRow)
    → IsReferenced convs rows
    → known c convs ≡ false
    → count_active c rows ≡ 0
count_active_unknown c convs [] h e = refl
count_active_unknown c convs (r ∷ rows) h e = elim (Bool-cases (r.conversation_id == c)) [
  | inl p ↦ ground (arith, p, h.0)
  | inr p ↦ rw p (count_active_unknown c convs rows h.1 e)
]

module _ (sha256 : ℕ → ℕ → ℕ) (tenant : String) where
  -- What the loop over the participants does, if no statement fails.
  insert_participants_lem :
      (c created_by : ℕ) (us : List ℕ) (w : World)
      → known c w.tables.conversations ≡ true
      → IsReferenced w.tables.conversations w.tables.participants
      → (insert_participants sha256 tenant c created_by us w).0 ≡ ok tt
      → let w' = (insert_participants sha256 tenant c created_by us w).1 in
        (w'.tables.conversations ≡ w.tables.conversations)
        × IsReferenced w.tables.conversations w'.tables.participants
        × ((d : ℕ)
            → count_active d w'.tables.participants ≡ (
                if c == d
                then count_active d w.tables.participants + length us
                else count_active d w.tables.participants))
  unfolding insert_participants
  insert_participants_lem c created_by [] w k r e = (refl, r, λ d. ground arith)
  insert_participants_lem c created_by (u ∷ us) w k r e = elim (Bool-cases (w.answers w.queries)) [
    | inl a ↦ elim (Bool-cases (any (is_row c u) w.tables.participants)) [
      | inl dup ↦ absurd (ground (arith, a, dup))
      | inr free ↦
          let role : String = if u == created_by then "owner" else "member" in
          let row = joining tenant c u role w.now in
          let w1 : World = record w {
            queries = w.queries + 1;
            tables = record (w.tables) { participants = w.tables.participants ++ row ∷ [] };
          } in
          let (same, known', counts) =
            insert_participants_lem c created_by us w1 k
              (IsReferenced-snoc w.tables.conversations w.tables.participants row k r)
              (ground (arith, a, free)) in
          rw (a, free)
            (
              same,
              known',
              λ d. ground (arith, counts d, count_active-snoc d w.tables.participants row),
            )
    ]
    | inr a ↦ absurd (ground (arith, a))
  ]

  pub insert_conversation-ok :
      (row : ℕ → ConversationRow) (w : World) (r : ConversationRow)
      → (insert_conversation sha256 tenant row w).0 ≡ ok r
      → (r ≡ row w.now)
        × (known r.id w.tables.conversations ≡ false)
        × ((insert_conversation sha256 tenant row w).1.tables
            ≡ record (w.tables) { conversations = w.tables.conversations ++ r ∷ [] })
  insert_conversation-ok row w r e = elim (Bool-cases (w.answers w.queries)) [
    | inl a ↦ elim (Bool-cases (known (row w.now).id w.tables.conversations)) [
      | inl dup ↦ absurd (ground (arith, a, dup))
      | inr free ↦ ground (arith, a, free)
    ]
    | inr a ↦ absurd (ground (arith, a))
  ]

  Right-append :
      (rows : List ParticipantRow) (convs : List ConversationRow) (r : ConversationRow)
      → All (λ c. c.participant_count ≡ count_active c.id rows) convs
      → r.participant_count ≡ count_active r.id rows
      → All (λ c. c.participant_count ≡ count_active c.id rows) (convs ++ r ∷ [])
  Right-append rows [] r h e = (e, tt)
  Right-append rows (c ∷ convs) r h e = (h.0, Right-append rows convs r h.1 e)

  -- The counters of conversations other than a new one.
  Right_others :
      (id : ℕ) (old new : List ParticipantRow) (convs : List ConversationRow)
      → known id convs ≡ false
      → ((d : ℕ) → (id == d) ≡ false → count_active d new ≡ count_active d old)
      → All (λ c. c.participant_count ≡ count_active c.id old) convs
      → All (λ c. c.participant_count ≡ count_active c.id new) convs
  Right_others id old new [] n same h = tt
  Right_others id old new (c ∷ convs) n same h =
      ground (arith, same c.id, Right_others id old new convs, h.0)

  -- The tables once the rows of a new conversation have been written.
  pub written-IsConsistent :
      (created_by : ℕ) (us : List ℕ) (t : Tables) (r : ConversationRow) (w : World)
      → IsConsistent t
      → known r.id t.conversations ≡ false
      → r.participant_count ≡ length us
      → w.tables ≡ record t { conversations = t.conversations ++ r ∷ [] }
      → (insert_participants sha256 tenant r.id created_by us w).0 ≡ ok tt
      → IsConsistent (insert_participants sha256 tenant r.id created_by us w).1.tables
  written-IsConsistent created_by us t r w k new n q e =
      let after = (insert_participants sha256 tenant r.id created_by us w).1.tables in
      let convs : w.tables.conversations ≡ t.conversations ++ r ∷ [] =
        ap (λ x. x.conversations) q in
      let rows : w.tables.participants ≡ t.participants = ap (λ x. x.participants) q in
      let there : known r.id w.tables.conversations ≡ true =
        ground (arith, ap (known r.id) convs, known-append r.id t.conversations r) in
      let more : (c : ℕ) → known c t.conversations ≡ true → known c w.tables.conversations ≡ true =
        λ c h. ground (arith, ap (known c) convs, known-append c t.conversations r, h) in
      let (same, referenced, counts) =
        insert_participants_lem r.id created_by us w there
          (subst (λ x. IsReferenced w.tables.conversations x) (sym rows)
            (IsReferenced-mono t.conversations w.tables.conversations t.participants more
              k.referenced))
          e in
      record {
        counted =
            subst (λ cs. All (λ c. c.participant_count ≡ count_active c.id after.participants) cs)
              (sym (same ∙ convs))
              (Right-append after.participants t.conversations r
                (Right_others r.id t.participants after.participants t.conversations new
                  (λ d h. ground (arith, counts d, ap (count_active d) rows, h)) k.counted)
                (ground (
                  arith,
                  counts r.id,
                  ap (count_active r.id) rows,
                  count_active_unknown r.id t.conversations t.participants k.referenced new,
                )));
        referenced = subst (λ cs. IsReferenced cs after.participants) (sym same) referenced;
      }
