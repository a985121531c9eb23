-- ===== src/Storage/Rows.antt =====
-- Messages that domain/message/storage.rs has stored or recalled, read again.
use Prim.Native.String.{String}
use text.Mathlib.TextPositions.{eq_refl}
use ara_chat_service.Base.{
  ℕ, ◌+◌, ◌++◌, Bool, Bool-cases, true, false, List, [], ◌∷◌, Option, none, some, find, any, ◌≡◌,
  inl, inr, refl, ap, ◌∙◌, arith,
}
use ara_chat_service.Base.Results.{ok, err}
use ara_chat_service.Database.{MessageRow, World}
use ara_chat_service.Conversation.{update}
use ara_chat_service.Message.{ContentType, ChatMessage}
use ara_chat_service.Storage.{
  not_found, is_message, is_kept, recalled, into_chat_message, get_message, get_forwardable_message,
  recall_message,
}
use ara_chat_service.Storage.Creating.{create_message, message_row, is_refused}
use ara_chat_service.Storage.Replies.{get_reply_context}

module _ (tenant : String) where
  find-snoc_new :
      (id : ℕ) (rows : List MessageRow) (r : MessageRow)
      → any (is_message tenant id) rows ≡ false
      → is_message tenant id r ≡ true
      → find (is_message tenant id) (rows ++ r ∷ []) ≡ some r
  find-snoc_new id [] r new mine = ground (arith, mine)
  find-snoc_new id (x ∷ rows) r new mine = ground (arith, find-snoc_new id rows r, mine)

  -- A message that `create_message` returns under a new id is what `get_message` finds afterwards,
  -- when the database answers.
  get_message-create_message :
      (id conversation_id sender_id : ℕ) (content : String) (content_type : ContentType)
      (reply_to : Option ℕ) (client_id : Option String) (mentions : List ℕ) (hints : Option String)
      (w w' : World) (m : ChatMessage)
      → any (is_message tenant id) w.tables.messages ≡ false
      → (create_message tenant id conversation_id sender_id content content_type reply_to client_id
          mentions hints w).0
        ≡ ok m
      → w'.tables
        ≡ (create_message tenant id conversation_id sender_id content content_type reply_to
            client_id mentions hints w).1.tables
      → w'.answers w'.queries ≡ true
      → (get_message tenant id w').0 ≡ ok (some m)
  unfolding create_message get_message
  get_message-create_message id conversation_id sender_id content content_type reply_to client_id
        mentions hints w w' m new made after up =
      let row =
        message_row tenant id conversation_id sender_id content content_type reply_to client_id
          mentions hints w.now in
      let rows = w.tables.messages in
      let stored = find-snoc_new id rows row new (ground (arith, eq_refl tenant)) in
      elim (Bool-cases (w.answers w.queries)) [
        | inr lost ↦ absurd (ground (arith, lost))
        | inl first ↦ elim (Bool-cases (is_refused row rows)) [
          | inl clash ↦ absurd (ground (arith, first, clash))
          | inr free ↦ elim (Bool-cases (w.answers (w.queries + 1))) [
            | inr lost ↦ absurd (ground (arith, first, free, lost))
            | inl second ↦
                let same : into_chat_message row ≡ m = ground (arith, first, free, second) in
                let messages : w'.tables.messages ≡ rows ++ row ∷ [] =
                  ap (λ t. t.messages) after ∙ ground (arith, first, free, second) in
                ground (arith, up, same, messages, stored)
          ]
        ]
      ]

  find-recalled :
      (id now : ℕ) (rows : List MessageRow)
      → find (is_kept tenant id) (update (is_kept tenant id) (recalled now) rows) ≡ none
  find-recalled id now [] = refl
  find-recalled id now (r ∷ rows) = elim (Bool-cases (is_kept tenant id r)) [
    | inl hit ↦ ground (arith, hit, find-recalled id now rows)
    | inr miss ↦ rw (miss, miss) (find-recalled id now rows)
  ]

  any_of_find : {A : Type 0} (p : A → Bool) (xs : List A) → find p xs ≡ none → any p xs ≡ false
  any_of_find p [] h = refl
  any_of_find p (x ∷ xs) h = ground (arith, any_of_find p xs)

  -- After `recall_message` has succeeded the message cannot be forwarded or quoted in a reply, and a
  -- second recall finds nothing and leaves the tables as they are, when the database answers.
  pub recall_message_hides :
      (id : ℕ) (w w' : World)
      → (recall_message tenant id w).0 ≡ ok tt
      → w'.tables ≡ (recall_message tenant id w).1.tables
      → w'.answers w'.queries ≡ true
      → ((get_forwardable_message tenant id w').0 ≡ ok none)
        × ((get_reply_context tenant id w').0 ≡ ok none)
        × ((recall_message tenant id w').0 ≡ err not_found)
        × ((recall_message tenant id w').1.tables ≡ w'.tables)
  unfolding recall_message get_forwardable_message get_reply_context
  recall_message_hides id w w' done after up =
      let rows = w.tables.messages in
      elim (Bool-cases (w.answers w.queries)) [
        | inr lost ↦ absurd (ground (arith, lost))
        | inl first ↦ elim (Bool-cases (any (is_kept tenant id) rows)) [
          | inr away ↦ absurd (ground (arith, first, away))
          | inl there ↦
              let messages : w'.tables.messages ≡ update (is_kept tenant id) (recalled w.now) rows =
                ap (λ t. t.messages) after ∙ ground (arith, first, there) in
              let hidden : find (is_kept tenant id) w'.tables.messages ≡ none =
                ap (find (is_kept tenant id)) messages ∙ find-recalled id w.now rows in
              let gone = any_of_find (is_kept tenant id) w'.tables.messages hidden in
              (
                ground (arith, up, hidden),
                ground (arith, up, hidden),
                ground (arith, up, gone),
                ground (arith, up, gone),
              )
        ]
      ]
