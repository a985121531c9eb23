-- ===== src/Conversation/Pairs.antt =====
-- The lookup of direct conversations: domain/conversation/direct_lookup.rs with the functions of
-- service.rs that use it.
use mathlib.Core.Path.{subst}
use Prim.Native.String.{String}
use text.Mathlib.Text.{◌==◌ as str_eq}
use text.Mathlib.TextPositions.{eq_refl}
use ara_chat_service.Base.{
  ℕ, ◌+◌, ◌++◌, Bool, true, false, ◌&&◌, List, [], ◌∷◌, Option, none, some, ◌==◌, Bool-cases,
  Option-cases, ◌≡◌, refl, sym, ap, ◌∙◌, inl, inr, arith, find, any, All,
}
use ara_chat_service.Base.Results.{ok}
use ara_chat_service.Database.{DirectRow, ConversationRow, World, transaction}
use ara_chat_service.Database.Laws.{>>=-eq-ok, transaction-eq-ok}
use ara_chat_service.Conversation.{
  direct, Conversation, database, get_conversation, into_conversation,
}
use ara_chat_service.Conversation.Direct.{
  create_conversation, insert_entry, entry, names_pair, find_hash, generate_pair_hash,
  write_conversation, or_existing, store_conversation, find_direct_conversation,
  existing_conversation,
}
use ara_chat_service.Conversation.Lookups.{ok-inj, write_lookup}

module _ (sha256 : ℕ → ℕ → ℕ) (tenant : String) where
  generate_pair_hash_comm :
      (u1 u2 : ℕ) → generate_pair_hash sha256 tenant u1 u2 ≡ generate_pair_hash sha256 tenant u2 u1
  generate_pair_hash_comm u1 u2 = ap {A = ℕ × ℕ} (λ p. sha256 p.0 p.1) (ground arith)

  -- The order of the two users does not matter for finding a direct conversation.
  pub find_direct_conversation_comm :
      (u1 u2 : ℕ) (w : World)
      → find_direct_conversation sha256 tenant u1 u2 w
        ≡ find_direct_conversation sha256 tenant u2 u1 w
  unfolding find_direct_conversation
  find_direct_conversation_comm u1 u2 w =
      ap (λ h. find_hash sha256 tenant h w) (generate_pair_hash_comm u1 u2)

  find_satisfies :
      {A : Type 0} (p : A → Bool) (xs : List A) (x : A) → find p xs ≡ some x → p x ≡ true
  find_satisfies p [] x h = cc
  find_satisfies p (y ∷ xs) x h = elim (Bool-cases (p y)) [
    | inl here ↦ ground (arith, here)
    | inr away ↦ find_satisfies p xs x (rw away at h)
  ]

  into_id : (r : ConversationRow) → (into_conversation r).id ≡ r.id
  unfolding into_conversation
  into_id r = refl

  any_of_find :
      (hash : ℕ) (rows : List DirectRow)
      → All (λ r. str_eq r.tenant_id tenant ≡ true) rows
      → find (names_pair sha256 tenant hash) rows ≡ none
      → any (λ r. r.user_pair_hash == hash) rows ≡ false
  any_of_find hash [] own free = refl
  any_of_find hash (r ∷ rows) own free = ground (arith, own.0, any_of_find hash rows own.1)

  find-snoc :
      {A : Type 0} (p : A → Bool) (xs : List A) (x : A)
      → find p xs ≡ none
      → p x ≡ true
      → find p (xs ++ x ∷ []) ≡ some x
  find-snoc p [] x free here = ground arith
  find-snoc p (y ∷ xs) x free here = ground (arith, find-snoc p xs x)

  -- A new pair can be found, if no other tenant has it.
  find-insert_entry :
      (new : DirectRow) (rows : List DirectRow)
      → str_eq new.tenant_id tenant ≡ true
      → All (λ r. str_eq r.tenant_id tenant ≡ true) rows
      → find (names_pair sha256 tenant new.user_pair_hash) rows ≡ none
      → find (names_pair sha256 tenant new.user_pair_hash) (insert_entry sha256 tenant new rows)
        ≡ some new
  find-insert_entry new rows mine own free =
      rw (any_of_find new.user_pair_hash rows own free) (
        find-snoc (names_pair sha256 tenant new.user_pair_hash) rows new free
          (ground (arith, mine)))

  -- The conversation that the lookup has for two users.
  abbrev pub pair_in : ℕ → ℕ → List DirectRow → Option ℕ
  pair_in u1 u2 rows =
      elim (find (names_pair sha256 tenant (generate_pair_hash sha256 tenant u1 u2)) rows) [
        | none ↦ none
        | some r ↦ some r.conversation_id
      ]

  find_direct_answer :
      (u1 u2 : ℕ) (w : World)
      → w.answers w.queries ≡ true
      → (find_direct_conversation sha256 tenant u1 u2 w).0
        ≡ ok (pair_in u1 u2 w.tables.direct_lookup)
  unfolding find_direct_conversation
  find_direct_answer u1 u2 w up = ground (arith, up)

  find_direct_lem :
      (u1 u2 : ℕ) (w : World) (found : Option ℕ)
      → (find_direct_conversation sha256 tenant u1 u2 w).0 ≡ ok found
      → (pair_in u1 u2 w.tables.direct_lookup ≡ found)
        × ((find_direct_conversation sha256 tenant u1 u2 w).1.tables ≡ w.tables)
  unfolding find_direct_conversation
  find_direct_lem u1 u2 w found e = ground arith

  existing_lem :
      (id : ℕ) (w : World) (c : Conversation)
      → (existing_conversation sha256 tenant id w).0 ≡ ok c
      → (c.id ≡ id) × ((existing_conversation sha256 tenant id w).1.tables ≡ w.tables)
  unfolding existing_conversation get_conversation into_conversation
  existing_lem id w c e =
      let at_id : ConversationRow → Bool = λ r. r.id == id && str_eq r.tenant_id tenant in
      elim (Option-cases (find at_id w.tables.conversations)) [
        | inl away ↦ absurd (ground (arith, away))
        | inr (r, here) ↦ ground (arith, here, find_satisfies at_id w.tables.conversations r here)
      ]

  store_lem :
      (id by u1 u2 : ℕ) (name : Option String) (w : World) (c : Conversation)
      → (store_conversation sha256 tenant id direct by (u1 ∷ u2 ∷ []) name w).0 ≡ ok c
      → (c.id ≡ id)
        × ((store_conversation sha256 tenant id direct by
              (u1 ∷ u2 ∷ [])
              name
              w).1.tables.direct_lookup
            ≡ insert_entry sha256 tenant (entry sha256 tenant u1 u2 id) w.tables.direct_lookup)
  unfolding store_conversation
  store_lem id by u1 u2 name w c e =
      let body = write_conversation sha256 tenant id direct by (u1 ∷ u2 ∷ []) name in
      let (row, stored, rest) = >>=-eq-ok (transaction database body) _ w c e in
      let (done, tables) = transaction-eq-ok database body w row stored in
      let (lookup, same) =
        write_lookup sha256 tenant id by u1 u2 name (record w { queries = w.queries + 1 }) row
          done in
      (
        ap (λ x. x.id) (ok-inj (sym e ∙ ap (λ x. x.0) rest)) ∙ into_id row ∙ same,
        ap (λ x. x.1.tables.direct_lookup) rest ∙ ap (λ t. t.direct_lookup) tables ∙ lookup,
      )

  pair_in-insert :
      (id u1 u2 : ℕ) (rows : List DirectRow)
      → All (λ r. str_eq r.tenant_id tenant ≡ true) rows
      → pair_in u1 u2 rows ≡ none
      → pair_in u1 u2 (insert_entry sha256 tenant (entry sha256 tenant u1 u2 id) rows) ≡ some id
  pair_in-insert id u1 u2 rows own free =
      ground (arith, find-insert_entry (entry sha256 tenant u1 u2 id) rows (eq_refl tenant) own)

  module _ (id by u1 u2 : ℕ) (name : Option String) (c : Conversation) where
    found_or_stored :
        (found : Option ℕ) (v : World)
        → All (λ r. str_eq r.tenant_id tenant ≡ true) v.tables.direct_lookup
        → pair_in u1 u2 v.tables.direct_lookup ≡ found
        → let m = store_conversation sha256 tenant id direct by (u1 ∷ u2 ∷ []) name in
          (or_existing sha256 tenant found m v).0 ≡ ok c
          → pair_in u1 u2 (or_existing sha256 tenant found m v).1.tables.direct_lookup ≡ some c.id
    found_or_stored none v own free e =
        let (is, rows) = store_lem id by u1 u2 name v c e in
        ap (pair_in u1 u2) rows
        ∙ pair_in-insert id u1 u2 v.tables.direct_lookup own free
        ∙ ap some (sym is)
    found_or_stored (some old) v own there e =
        let (is, same) = existing_lem old v c e in
        ap (λ t. pair_in u1 u2 t.direct_lookup) same ∙ there ∙ ap some (sym is)

    -- After `create_conversation` of a direct conversation of two users, made by anyone, has returned
    -- `c`, new or found, the conversation of the two users, in either order, is found to be `c`, when the database answers
    -- and the lookup had only entries of this tenant.
    pub find_direct-create :
        (w w' : World)
        → All (λ r. str_eq r.tenant_id tenant ≡ true) w.tables.direct_lookup
        → (create_conversation sha256 tenant id direct by (u1 ∷ u2 ∷ []) name w).0 ≡ ok c
        → w'.tables
          ≡ (create_conversation sha256 tenant id direct by (u1 ∷ u2 ∷ []) name w).1.tables
        → w'.answers w'.queries ≡ true
        → ((find_direct_conversation sha256 tenant u1 u2 w').0 ≡ ok (some c.id))
          × ((find_direct_conversation sha256 tenant u2 u1 w').0 ≡ ok (some c.id))
    unfolding create_conversation
    find_direct-create w w' own e after up =
        let (found, looked, rest) =
          >>=-eq-ok (find_direct_conversation sha256 tenant u1 u2) _ w c e in
        let (there, same) = find_direct_lem u1 u2 w found looked in
        let v = (find_direct_conversation sha256 tenant u1 u2 w).1 in
        let rows : v.tables.direct_lookup ≡ w.tables.direct_lookup =
          ap (λ t. t.direct_lookup) same in
        let answer =
          find_direct_answer u1 u2 w' up
          ∙ ap (λ t. ok (pair_in u1 u2 t.direct_lookup)) (after ∙ ap (λ x. x.1.tables) rest)
          ∙ ap ok (
              found_or_stored found v
                (subst (All (λ r. str_eq r.tenant_id tenant ≡ true)) (sym rows) own)
                (ap (pair_in u1 u2) rows ∙ there) (ap (λ x. x.0) (sym rest) ∙ e)) in
        (answer, ap (λ x. x.0) (find_direct_conversation_comm u2 u1 w') ∙ answer)
