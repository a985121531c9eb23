-- ===== src/Handler/Stores.antt =====
-- What `handle_send_message` of domain/message/handler.rs does to the stored messages.
use Prim.Native.String.{String}
use ara_chat_service.Base.{
  ℕ, ◌++◌, not, List, [], ◌∷◌, Option, none, some, ◌==◌, keep, map, ◌≡◌, ◌⊎◌, inl, inr, refl, ap,
  ◌∙◌, arith, Option-cases,
}
use ara_chat_service.Base.Results.{ok, Result-cases}
use ara_chat_service.Base.Stateful.{>>=_holds}
use ara_chat_service.Database.{MessageRow, World}
use ara_chat_service.Database.Laws.{select_keeps, select_pure_keeps, select-eq-ok}
use ara_chat_service.Connection.{Channel}
use ara_chat_service.Conversation.{active_in, is_participant, get_participant_ids}
use ara_chat_service.Message.{ContentType, ChatMessage, OutboundMessage}
use ara_chat_service.Storage.{find_by_client_id}
use ara_chat_service.Storage.Creating.{message_row, create_message}
use ara_chat_service.Cluster.{Serde}
use ara_chat_service.Router.{Site}
use ara_chat_service.Handler.{
  not_participant, storage, conversation, MessageHandler, validate_mentions, add_mentions, Handle,
  ask, refuse_if, hints_of,
}
use ara_chat_service.Handler.Sending.{
  reply_context_of, find_duplicate, send_new_message, handle_send_message,
}
use ara_chat_service.Handler.Steps.{
  Same, refuse_if-Same, reply_context_of-Same, create_message_messages, announced,
}

module _ {Sender Queue : Type 0} (channel : Channel Sender OutboundMessage) (serde : Serde)
    (mentioned : String → List ℕ) (parse_markdown : String → Option String)
    (handler : MessageHandler Queue) (id user_id conversation_id : ℕ) (content : String)
    (content_type : ContentType) (reply_to : Option ℕ) (client_message_id : Option String)
    (mentions : List ℕ) (before : Site Sender Queue) where
  abbrev pub valid_mentions : List ℕ → List ℕ
  valid_mentions = validate_mentions (add_mentions mentions (mentioned content))

  -- The row of the new message, for those who take part and at a time.
  abbrev pub row_for : List ℕ → ℕ → MessageRow
  row_for participants =
      message_row handler.storage id conversation_id user_id content content_type reply_to
        client_message_id (valid_mentions participants)
        (hints_of parse_markdown content_type content)

  abbrev pub participant_ids : List ℕ
  participant_ids =
      map (λ p. p.user_id)
        (keep (active_in handler.conversation_service conversation_id)
          before.world.tables.participants)

  abbrev pub Grown : List MessageRow → Type 0
  Grown messages =
      (messages ≡ before.world.tables.messages)
      ⊎ (messages ≡ before.world.tables.messages ++ row_for participant_ids before.world.now ∷ [])

  -- No message is stored but the new one, and that at most once.
  abbrev pub Stored : Site Sender Queue → Type 0
  Stored s = Grown s.world.tables.messages

  pub Stored-same :
      (s s' : Site Sender Queue)
      → s'.world.tables.messages ≡ s.world.tables.messages
      → Stored s
      → Stored s'
  Stored-same s s' e (inl kept) = inl (e ∙ kept)
  Stored-same s s' e (inr grown) = inr (e ∙ grown)

  Same-inl : (s : Site Sender Queue) → Same before s → Stored s
  Same-inl s same = inl (ap (λ t. t.messages) same.0)

  -- The participants that are read, from a state whose tables are still those before.
  abbrev pub listed : Handle (Site Sender Queue) (List ℕ)
  listed = ask conversation (get_participant_ids handler.conversation_service conversation_id)

  pub listed-Same : (s : Site Sender Queue) → Same before s → Same before (listed s).1
  unfolding get_participant_ids
  listed-Same s same =
      select_keeps (λ v. Same before (record before { world = v })) _ _ s.world same

  participant_ids_read :
      (w : World) (ids : List ℕ)
      → (get_participant_ids handler.conversation_service conversation_id w).0 ≡ ok ids
      → ids
        ≡ map
            (λ p. p.user_id)
            (keep (active_in handler.conversation_service conversation_id) w.tables.participants)
  unfolding get_participant_ids
  participant_ids_read w ids h = select-eq-ok _ _ w ids h

  listed-eq-ok :
      (s : Site Sender Queue) (ids : List ℕ)
      → Same before s
      → (listed s).0 ≡ ok ids
      → ids ≡ participant_ids
  listed-eq-ok s ids same h =
      let answer = get_participant_ids handler.conversation_service conversation_id s.world in
      elim (Result-cases answer.0) [
        | inl (found, read) ↦
            let k : ids ≡ found = ground (arith, read) in
            k
            ∙ participant_ids_read s.world found read
            ∙ ap
                (λ t.
                  map (λ p. p.user_id)
                    (keep (active_in handler.conversation_service conversation_id) t.participants))
                same.0
        | inr (x, failed) ↦ absurd (ground (arith, failed))
      ]

  abbrev pub creating : List ℕ → Handle (Site Sender Queue) ChatMessage
  creating valid = ask storage (
      create_message handler.storage id conversation_id user_id content content_type reply_to
        client_message_id valid (hints_of parse_markdown content_type content))

  -- The insertion, from such a state.
  created :
      (s : Site Sender Queue) (ids : List ℕ)
      → Same before s
      → ids ≡ participant_ids
      → Stored (creating (valid_mentions ids) s).1
  created s ids same e =
      let old : List MessageRow = before.world.tables.messages in
      elim (create_message_messages channel serde mentioned parse_markdown handler id
        conversation_id user_id content content_type reply_to client_message_id (valid_mentions ids)
        (hints_of parse_markdown content_type content) s.world) [
          | inl kept ↦ inl (kept ∙ ap (λ t. t.messages) same.0)
          | inr grown ↦ inr (
              grown
              ∙ ap (λ t. t.messages ++ row_for ids s.world.now ∷ []) same.0
              ∙ ap (λ n. old ++ row_for ids n ∷ []) same.1
              ∙ ap (λ us. old ++ row_for us before.world.now ∷ []) e)
        ]

  send_new_message_stores :
      (s : Site Sender Queue)
      → Same before s
      → Stored
          (send_new_message channel serde mentioned parse_markdown handler id user_id
            conversation_id content content_type reply_to client_message_id mentions s).1
  unfolding send_new_message
  send_new_message_stores s same =
      let s1 : Site Sender Queue = (listed s).1 in
      let same1 : Same before s1 = listed-Same s same in
      let context =
        reply_context_of channel serde mentioned parse_markdown handler conversation_id reply_to in
      let h =
        reply_context_of-Same channel serde mentioned parse_markdown handler conversation_id
          reply_to s1 in
      let same2 : Same before (context s1).1 = (h.0 ∙ same1.0, h.1 ∙ same1.1, h.2 ∙ same1.2) in
      >>=_holds Stored listed _ s (Same-inl s1 same1) (λ ids e.
        let stored = created (context s1).1 ids same2 (listed-eq-ok s ids same e) in
        >>=_holds Stored context _ s1 (Same-inl (context s1).1 same2) (λ reply f.
          >>=_holds Stored (creating (valid_mentions ids)) _ (context s1).1 stored (λ m g.
            announced channel serde mentioned parse_markdown handler Grown conversation_id user_id
              reply_to (record m { reply_context = reply })
              (keep (λ u. not (u == user_id)) (valid_mentions ids))
              (creating (valid_mentions ids) (context s1).1).1 stored)))

  pub is_participant-Same :
      Same before
        (ask conversation
          (is_participant handler.conversation_service conversation_id user_id)
          before).1
  unfolding is_participant
  is_participant-Same =
      select_keeps (λ v. Same before (record before { world = v })) _ _ before.world
        (refl, refl, refl)

  pub find_duplicate-Same :
      (client : Option String) (s : Site Sender Queue)
      → Same before s
      → Same before
          (find_duplicate channel serde mentioned parse_markdown handler user_id client s).1
  unfolding find_by_client_id
  find_duplicate-Same none s same = same
  find_duplicate-Same (some client_id) s same =
      select_pure_keeps (λ v. Same before (record before { world = v })) _ _ _ s.world same

  -- Whatever fails, `handle_send_message` stores no message but the new one, at most once.
  pub handle_send_message_stores :
      Stored
        (handle_send_message channel serde mentioned parse_markdown handler id user_id
          conversation_id content content_type reply_to client_message_id mentions before).1
  unfolding handle_send_message
  handle_send_message_stores =
      let may =
        ask conversation (is_participant handler.conversation_service conversation_id user_id) in
      let s1 : Site Sender Queue = (may before).1 in
      let same1 : Same before s1 = is_participant-Same in
      let duplicate =
        find_duplicate channel serde mentioned parse_markdown handler user_id client_message_id in
      >>=_holds Stored may _ before (Same-inl s1 same1) (λ b e.
        let refusal = refuse_if (not b) not_participant in
        let s2 : Site Sender Queue = (refusal s1).1 in
        let same2 : Same before s2 = refuse_if-Same (not b) not_participant before s1 same1 in
        let same3 : Same before (duplicate s2).1 = find_duplicate-Same client_message_id s2 same2 in
        >>=_holds Stored refusal _ s1 (Same-inl s2 same2) (λ u f.
          >>=_holds Stored duplicate _ s2 (Same-inl (duplicate s2).1 same3) (λ found g.
            elim (Option-cases found) [
              | inl new ↦ rw new (send_new_message_stores (duplicate s2).1 same3)
              | inr (m, old) ↦ rw old (Same-inl (duplicate s2).1 same3)
            ])))
