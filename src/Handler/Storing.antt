-- ===== src/Handler/Storing.antt =====
-- When `handle_send_message` of domain/message/handler.rs stores the message.
use Prim.Native.String.{String}
use ara_chat_service.Base.{
  ℕ, ◌+◌, ◌++◌, not, inl, inr, true, false, List, [], ◌∷◌, Option, none, some, ◌==◌, keep, map, any,
  ◌≡◌, refl, sym, ap, ◌∙◌, arith, find,
}
use ara_chat_service.Base.Results.{ok, Result-cases}
use ara_chat_service.Database.Laws.{select_pure_keeps}
use ara_chat_service.Base.Stateful.{>>=_reaches}
use ara_chat_service.Database.{MessageRow, World}
use ara_chat_service.Connection.{Channel}
use ara_chat_service.Conversation.{active_in, is_participant, get_participant_ids}
use ara_chat_service.Message.{ContentType, ReplyContext, OutboundMessage}
use ara_chat_service.Storage.{from_client, is_message, into_chat_message, newest, find_by_client_id}
use ara_chat_service.Storage.Creating.{clashes}
use ara_chat_service.Storage.Replies.{validate_reply_target, get_reply_context}
use ara_chat_service.Cluster.{Serde}
use ara_chat_service.Router.{Site}
use ara_chat_service.Handler.{conversation, MessageHandler, ask}
use ara_chat_service.Handler.Sending.{
  reply_context_of, find_duplicate, send_new_message, handle_send_message,
}
use ara_chat_service.Handler.Steps.{Same, reply_context_of-Same, announced}
use ara_chat_service.Handler.NewMessages.{create_message-fresh, new_row, IsNew}
use ara_chat_service.Handler.Stores.{
  participant_ids, listed, listed-Same, creating, is_participant-Same, find_duplicate-Same,
}

module _ {Sender Queue : Type 0} (channel : Channel Sender OutboundMessage) (serde : Serde)
    (mentioned : String → List ℕ) (parse_markdown : String → Option String)
    (handler : MessageHandler Queue) (id user_id conversation_id : ℕ) (content : String)
    (content_type : ContentType) (reply_to : Option ℕ) (client_message_id : Option String)
    (mentions : List ℕ) (before : Site Sender Queue) where
  abbrev row : MessageRow
  row =
      new_row mentioned parse_markdown handler id user_id conversation_id content content_type
        reply_to client_message_id mentions before.world

  module _ (up : (n : ℕ) → before.world.answers n ≡ true)
      (new : IsNew mentioned parse_markdown handler id user_id conversation_id content content_type
        reply_to client_message_id mentions before.world) where
    answered : (s : Site Sender Queue) (n : ℕ) → Same before s → s.world.answers n ≡ true
    answered s n same = ap (λ f. f n) same.2 ∙ up n

    may_send :
        (ask conversation
          (is_participant handler.conversation_service conversation_id user_id)
          before).0
        ≡ ok true
    unfolding is_participant
    may_send = ground (arith, up before.world.queries, new.takes_part)

    no_duplicate :
        (client : Option String) (s : Site Sender Queue)
        → client ≡ client_message_id
        → Same before s
        → (find_duplicate channel serde mentioned parse_markdown handler user_id client s).0
          ≡ ok none
    unfolding find_by_client_id
    no_duplicate none s e same = refl
    no_duplicate (some client_id) s e same =
        let none_sent : newest
              (keep (from_client handler.storage user_id client_id) s.world.tables.messages)
            ≡ none =
          ap (λ t. newest (keep (from_client handler.storage user_id client_id) t.messages)) same.0
          ∙ new.not_sent client_id (sym e) in
        ground (arith, answered s s.world.queries same, none_sent)

    may_reply :
        (reply_to_id : ℕ) (s : Site Sender Queue)
        → reply_to ≡ some reply_to_id
        → Same before s
        → (validate_reply_target handler.storage reply_to_id conversation_id s.world).0 ≡ ok true
    unfolding validate_reply_target
    may_reply reply_to_id s e same =
        let (r, there, here, kept) = new.replies reply_to_id e in
        let found : find (is_message handler.storage reply_to_id) s.world.tables.messages ≡ some r =
          ap (λ t. find (is_message handler.storage reply_to_id) t.messages) same.0 ∙ there in
        ground (arith, answered s s.world.queries same, found, here, kept)

    reply_context_read :
        (reply_to_id : ℕ) (w : World)
        → w.answers w.queries ≡ true
        → (context : Option ReplyContext) × ((get_reply_context handler.storage reply_to_id w).0
            ≡ ok context)
    unfolding get_reply_context
    reply_context_read reply_to_id w here =
        elim (Result-cases (get_reply_context handler.storage reply_to_id w).0) [
          | inl read ↦ read
          | inr (x, failed) ↦ absurd (ground (arith, here, failed))
        ]

    validated_answers :
        (reply_to_id : ℕ) (s : Site Sender Queue)
        → Same before s
        → let w : World =
            (validate_reply_target handler.storage reply_to_id conversation_id s.world).1 in
          w.answers w.queries ≡ true
    unfolding validate_reply_target
    validated_answers reply_to_id s same =
        select_pure_keeps (λ v. v.answers v.queries ≡ true) _ _ _ s.world
          (answered s (s.world.queries + 1) same)

    context_found :
        (reply : Option ℕ) (s : Site Sender Queue)
        → reply ≡ reply_to
        → Same before s
        → (context : Option ReplyContext) × ((reply_context_of channel serde mentioned
              parse_markdown handler conversation_id reply s).0
            ≡ ok context)
    context_found none s e same = (none, refl)
    context_found (some reply_to_id) s e same =
        let w : World =
          (validate_reply_target handler.storage reply_to_id conversation_id s.world).1 in
        let (context, read) =
          reply_context_read reply_to_id w (validated_answers reply_to_id s same) in
        (context, ground (arith, may_reply reply_to_id s (sym e) same, read))

    participants_listed :
        (s : Site Sender Queue)
        → Same before s
        → (listed channel serde mentioned parse_markdown handler id user_id conversation_id content
            content_type reply_to client_message_id mentions before s).0
          ≡ ok (
              participant_ids channel serde mentioned parse_markdown handler id user_id
                conversation_id content content_type reply_to client_message_id mentions before)
    unfolding get_participant_ids
    participants_listed s same =
        let ids : map (λ p. p.user_id)
              (keep (active_in handler.conversation_service conversation_id)
                s.world.tables.participants)
            ≡ participant_ids channel serde mentioned parse_markdown handler id user_id
                conversation_id content content_type reply_to client_message_id mentions before =
          ap
            (λ t.
              map (λ p. p.user_id)
                (keep (active_in handler.conversation_service conversation_id) t.participants))
            same.0 in
        ground (arith, answered s s.world.queries same, ids)

    row_created :
        (s : Site Sender Queue)
        → Same before s
        → let made =
            creating channel serde mentioned parse_markdown handler id user_id conversation_id
              content content_type reply_to client_message_id mentions before row.mentions s in
          (made.0 ≡ ok (into_chat_message row))
          × (made.1.world.tables.messages ≡ before.world.tables.messages ++ row ∷ [])
    row_created s same =
        let R : ℕ → MessageRow = λ n. record row { created_at = n } in
        let fresh : any (clashes (R s.world.now)) s.world.tables.messages ≡ false =
          ap (λ n. any (clashes (R n)) s.world.tables.messages) same.1
          ∙ ap (λ t. any (clashes row) t.messages) same.0
          ∙ new.fresh in
        let made =
          create_message-fresh handler.storage id conversation_id user_id content content_type
            reply_to client_message_id row.mentions row.rendering_hints s.world
            (λ n. answered s n same) new.fits fresh in
        (
          ground (arith, made.0) ∙ ap (λ n. ok (into_chat_message (R n))) same.1,
          made.1
              ∙ ap (λ t. t.messages ++ R s.world.now ∷ []) same.0
              ∙ ap (λ n. before.world.tables.messages ++ R n ∷ []) same.1,
        )

    send_new_message_complete :
        (s : Site Sender Queue)
        → Same before s
        → (send_new_message channel serde mentioned parse_markdown handler id user_id
            conversation_id content content_type reply_to client_message_id mentions
            s).1.world.tables.messages
          ≡ before.world.tables.messages ++ row ∷ []
    unfolding send_new_message
    send_new_message_complete s same =
        let P : List MessageRow → Type 0 =
          λ messages. messages ≡ before.world.tables.messages ++ row ∷ [] in
        let Q : Site Sender Queue → Type 0 = λ v. P v.world.tables.messages in
        let reading =
          listed channel serde mentioned parse_markdown handler id user_id conversation_id content
            content_type reply_to client_message_id mentions before in
        let making =
          creating channel serde mentioned parse_markdown handler id user_id conversation_id content
            content_type reply_to client_message_id mentions before row.mentions in
        let context =
          reply_context_of channel serde mentioned parse_markdown handler conversation_id
            reply_to in
        let same1 : Same before (reading s).1 =
          listed-Same channel serde mentioned parse_markdown handler id user_id conversation_id
            content content_type reply_to client_message_id mentions before s same in
        let h =
          reply_context_of-Same channel serde mentioned parse_markdown handler conversation_id
            reply_to (reading s).1 in
        let s2 : Site Sender Queue = (context (reading s).1).1 in
        let same2 : Same before s2 = (h.0 ∙ same1.0, h.1 ∙ same1.1, h.2 ∙ same1.2) in
        let (reply, found) = context_found reply_to (reading s).1 refl same1 in
        let (made, stored) = row_created s2 same2 in
        >>=_reaches Q reading _ s _ (participants_listed s same) (
          >>=_reaches Q context _ (reading s).1 reply found (
            >>=_reaches Q making _ s2 (into_chat_message row) made (
              announced channel serde mentioned parse_markdown handler P conversation_id user_id
                reply_to (record (into_chat_message row) { reply_context = reply })
                (keep (λ u. not (u == user_id)) row.mentions) (making s2).1 stored)))

    -- `handle_send_message` stores the message, whether or not it can be routed, when the database
    -- answers: if the user takes part, has not sent it before, what it replies to is in the
    -- conversation and not recalled, the columns take its texts, and no row clashes with it.
    pub handle_send_message_appends :
        (handle_send_message channel serde mentioned parse_markdown handler id user_id
          conversation_id content content_type reply_to client_message_id mentions
          before).1.world.tables.messages
        ≡ before.world.tables.messages ++ row ∷ []
    unfolding handle_send_message
    handle_send_message_appends =
        let Q : Site Sender Queue → Type 0 =
          λ v. v.world.tables.messages ≡ before.world.tables.messages ++ row ∷ [] in
        let may =
          ask conversation (is_participant handler.conversation_service conversation_id user_id) in
        let duplicate =
          find_duplicate channel serde mentioned parse_markdown handler user_id client_message_id in
        let same1 : Same before (may before).1 =
          is_participant-Same channel serde mentioned parse_markdown handler id user_id
            conversation_id content content_type reply_to client_message_id mentions before in
        let same2 : Same before (duplicate (may before).1).1 =
          find_duplicate-Same channel serde mentioned parse_markdown handler id user_id
            conversation_id content content_type reply_to client_message_id mentions before
            client_message_id (may before).1 same1 in
        >>=_reaches Q may _ before true may_send (
          >>=_reaches Q duplicate _ (may before).1 none
            (no_duplicate client_message_id (may before).1 refl same1)
            (send_new_message_complete (duplicate (may before).1).1 same2))
