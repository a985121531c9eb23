-- ===== src/Conversation/Lookups.antt =====
-- What `create_conversation` of domain/conversation/service.rs enters into the lookup of direct
-- conversations.
use Prim.Native.String.{String}
use ara_chat_service.Base.{ℕ, List, [], ◌∷◌, Option, ◌==◌, if◌then◌else◌, ◌≡◌, sym, ap, ◌∙◌, arith}
use ara_chat_service.Base.Results.{Result, ok}
use ara_chat_service.Database.{DirectRow, ConversationRow, World}
use ara_chat_service.Database.Laws.{>>=-eq-ok, >>=_keeps}
use ara_chat_service.Conversation.{direct}
use ara_chat_service.Conversation.Direct.{
  insert_participants, insert_participant, insert_conversation, insert_entry, entry, new_row,
  write_conversation, register_direct_conversation_tx,
}

pub ok-inj : {E A : Type 0} {a b : A} → Path (Result E A) (ok a) (ok b) → a ≡ b
ok-inj h = cc

module _ (sha256 : ℕ → ℕ → ℕ) (tenant : String) where
  insert_participants_lookup :
      (c created_by : ℕ) (us : List ℕ) (w : World) (rows : List DirectRow)
      → w.tables.direct_lookup ≡ rows
      → (insert_participants sha256 tenant c created_by us w).1.tables.direct_lookup ≡ rows
  unfolding insert_participants
  insert_participants_lookup c created_by [] w rows q = q
  insert_participants_lookup c created_by (u ∷ us) w rows q =
      >>=_keeps (λ t. t.direct_lookup ≡ rows)
        (insert_participant sha256 tenant c u (if u == created_by then "owner" else "member")) _ w
        (ground (arith, q)) (λ a w' h. insert_participants_lookup c created_by us w' rows h)

  register_pair_lookup :
      (u1 u2 id : ℕ) (w : World)
      → (register_direct_conversation_tx sha256 tenant u1 u2 id w).0 ≡ ok tt
      → (register_direct_conversation_tx sha256 tenant u1 u2 id w).1.tables.direct_lookup
        ≡ insert_entry sha256 tenant (entry sha256 tenant u1 u2 id) w.tables.direct_lookup
  unfolding register_direct_conversation_tx
  register_pair_lookup u1 u2 id w e = ground arith

  insert_conversation_lookup :
      (row : ℕ → ConversationRow) (w : World) (r : ConversationRow)
      → (insert_conversation sha256 tenant row w).0 ≡ ok r
      → (r ≡ row w.now)
        × ((insert_conversation sha256 tenant row w).1.tables.direct_lookup
            ≡ w.tables.direct_lookup)
  insert_conversation_lookup row w r e = ground arith

  pub write_lookup :
      (id by u1 u2 : ℕ) (name : Option String) (w : World) (a : ConversationRow)
      → (write_conversation sha256 tenant id direct by (u1 ∷ u2 ∷ []) name w).0 ≡ ok a
      → ((write_conversation sha256 tenant id direct by
            (u1 ∷ u2 ∷ [])
            name
            w).1.tables.direct_lookup
          ≡ insert_entry sha256 tenant (entry sha256 tenant u1 u2 id) w.tables.direct_lookup)
        × (a.id ≡ id)
  write_lookup id by u1 u2 name w a e =
      let us = u1 ∷ u2 ∷ [] in
      let insert = insert_conversation sha256 tenant (new_row sha256 tenant id direct by name 2) in
      let (row, inserted, rest) = >>=-eq-ok insert _ w a e in
      let (is, kept) = insert_conversation_lookup _ w row inserted in
      let w1 = (insert w).1 in
      let (x, joined, rest') =
        >>=-eq-ok (insert_participants sha256 tenant id by us) _ w1 a
          (ap (λ x. x.0) (sym rest) ∙ e) in
      let w2 = (insert_participants sha256 tenant id by us w1).1 in
      let (y, registered, rest'') =
        >>=-eq-ok (register_direct_conversation_tx sha256 tenant u1 u2 id) _ w2 a
          (ap (λ x. x.0) (sym (rest ∙ rest')) ∙ e) in
      let all = rest ∙ rest' ∙ rest'' in
      let same : a ≡ row = ok-inj (sym e ∙ ap (λ x. x.0) all) in
      (
        ap (λ x. x.1.tables.direct_lookup) all
            ∙ register_pair_lookup u1 u2 id w2 registered
            ∙ ap (insert_entry sha256 tenant (entry sha256 tenant u1 u2 id))
                (insert_participants_lookup id by us w1 w.tables.direct_lookup kept),
        ap (λ x. x.id) (same ∙ is),
      )
