-- ===== src/Conversation/Creation.antt =====
-- `create_conversation` and `find_or_create_direct` of domain/conversation/service.rs and the
-- counters.
use mathlib.Core.Path.{subst}
use Prim.Native.String.{String}
use ara_chat_service.Base.{
  ℕ, List, [], ◌∷◌, Option, none, some, Bool-cases, ◌≡◌, sym, ap, ◌∙◌, inl, inr, arith, length,
}
use ara_chat_service.Base.Results.{ok}
use ara_chat_service.Database.{ConversationRow, World, Db, transaction}
use ara_chat_service.Database.Laws.{>>=-eq-ok, >>=_keeps, transaction_keeps}
use ara_chat_service.Conversation.{
  ConversationType, direct, ConversationError, Conversation, database, get_conversation,
}
use ara_chat_service.Conversation.Direct.{
  create_conversation, find_or_create_direct, insert_participants, insert_conversation, new_row,
  register_pair, direct_pair, write_conversation, find_pair, or_existing, store_conversation,
  find_direct_conversation, existing_conversation, register_direct_conversation_tx,
}
use ara_chat_service.Conversation.Counts.{IsConsistent}
use ara_chat_service.Conversation.Insertion.{insert_conversation-ok, written-IsConsistent}

module _ (sha256 : ℕ → ℕ → ℕ) (tenant : String) where
  register_pair_keeps :
      (pair : Option (ℕ × ℕ)) (id : ℕ) (w : World)
      → IsConsistent w.tables
      → IsConsistent (register_pair sha256 tenant pair id w).1.tables
  unfolding register_direct_conversation_tx
  register_pair_keeps none id w k = k
  register_pair_keeps (some (a, b)) id w k = elim (Bool-cases (w.answers w.queries)) [
    | inl h ↦ rw h (record { counted = k.counted; referenced = k.referenced })
    | inr h ↦ rw h k
  ]

  find_direct_keeps :
      (u1 u2 : ℕ) (w : World)
      → IsConsistent w.tables
      → IsConsistent (find_direct_conversation sha256 tenant u1 u2 w).1.tables
  unfolding find_direct_conversation
  find_direct_keeps u1 u2 w k = ground (arith, k)

  find_pair_keeps :
      (pair : Option (ℕ × ℕ)) (w : World)
      → IsConsistent w.tables
      → IsConsistent (find_pair sha256 tenant pair w).1.tables
  find_pair_keeps none w k = k
  find_pair_keeps (some (a, b)) w k = find_direct_keeps a b w k

  existing_keeps :
      (id : ℕ) (w : World)
      → IsConsistent w.tables
      → IsConsistent (existing_conversation sha256 tenant id w).1.tables
  unfolding existing_conversation get_conversation
  existing_keeps id w k = ground (arith, k)

  or_existing_keeps :
      (found : Option ℕ) (m : Db ConversationError Conversation) (w : World)
      → IsConsistent w.tables
      → IsConsistent (m w).1.tables
      → IsConsistent (or_existing sha256 tenant found m w).1.tables
  or_existing_keeps none m w k h = h
  or_existing_keeps (some existing) m w k h = existing_keeps existing w k

  module _ (id : ℕ) (kind : ConversationType) (created_by : ℕ) (us : List ℕ)
      (name : Option String) where
    write-IsConsistent :
        (w : World) (a : ConversationRow)
        → IsConsistent w.tables
        → (write_conversation sha256 tenant id kind created_by us name w).0 ≡ ok a
        → IsConsistent (write_conversation sha256 tenant id kind created_by us name w).1.tables
    write-IsConsistent w a k e =
        let insert =
          insert_conversation sha256 tenant
            (new_row sha256 tenant id kind created_by name (length us)) in
        let (row, inserted, rest) = >>=-eq-ok insert _ w a e in
        let (is, new, tables) = insert_conversation-ok sha256 tenant _ w row inserted in
        let w1 = (insert w).1 in
        let (u, joined, rest') =
          >>=-eq-ok (insert_participants sha256 tenant id created_by us) _ w1 a
            (ap (λ x. x.0) (sym rest) ∙ e) in
        let pair = register_pair sha256 tenant (direct_pair kind us) id in
        let w2 = (insert_participants sha256 tenant id created_by us w1).1 in
        let written : IsConsistent w2.tables =
          subst
            (λ i.
              (insert_participants sha256 tenant i created_by us w1).0 ≡ ok tt
              → IsConsistent (insert_participants sha256 tenant i created_by us w1).1.tables)
            (ap (λ x. x.id) is)
            (written-IsConsistent sha256 tenant created_by us w.tables row w1 k new
              (ap (λ x. x.participant_count) is) tables)
            joined in
        subst IsConsistent (sym (ap (λ x. x.1.tables) (rest ∙ rest'))) (
          >>=_keeps IsConsistent pair _ w2 (register_pair_keeps (direct_pair kind us) id w2 written)
            (λ x w' h. h))

    store-IsConsistent :
        (w : World)
        → IsConsistent w.tables
        → IsConsistent (store_conversation sha256 tenant id kind created_by us name w).1.tables
    unfolding store_conversation
    store-IsConsistent w k =
        let body = write_conversation sha256 tenant id kind created_by us name in
        >>=_keeps IsConsistent (transaction database body) _ w
          (transaction_keeps IsConsistent database body w k
            (λ w' a same now e. write-IsConsistent w' a (subst IsConsistent (sym same) k) e))
          (λ a w' h. h)

    pub create-IsConsistent :
        (w : World)
        → IsConsistent w.tables
        → IsConsistent (create_conversation sha256 tenant id kind created_by us name w).1.tables
    unfolding create_conversation
    create-IsConsistent w k =
        >>=_keeps IsConsistent (find_pair sha256 tenant (direct_pair kind us)) _ w
          (find_pair_keeps (direct_pair kind us) w k)
          (λ a w' h. or_existing_keeps a _ w' h (store-IsConsistent w' h))

  pub find_or_create-IsConsistent :
      (id u1 u2 : ℕ) (w : World)
      → IsConsistent w.tables
      → IsConsistent (find_or_create_direct sha256 tenant id u1 u2 w).1.tables
  unfolding find_or_create_direct
  find_or_create-IsConsistent id u1 u2 w k =
      >>=_keeps IsConsistent (find_direct_conversation sha256 tenant u1 u2) _ w
        (find_direct_keeps u1 u2 w k)
        (λ a w' h.
          or_existing_keeps a _ w' h (create-IsConsistent id direct u1 (u1 ∷ u2 ∷ []) none w' h))
