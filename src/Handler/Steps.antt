-- ===== src/Handler/Steps.antt =====
-- What the steps of `handle_send_message` of domain/message/handler.rs leave of the tables.
use Prim.Native.String.{String}
use mathlib.Core.Path.{subst}
use ara_chat_service.Base.{
  ℕ, ◌++◌, Bool, true, false, List, [], ◌∷◌, Option, none, some, ◌≡◌, ◌⊎◌, inl, inr, refl, arith,
  Bool-cases, Option-cases, sym, ap, is_empty, if◌then◌else◌,
}
use ara_chat_service.Base.Results.{Result-cases}
use ara_chat_service.Base.Stateful.{>>=_holds}
use ara_chat_service.Database.{MessageRow, World, pure, ◌>>=◌, ◌>>◌}
use ara_chat_service.Database.Laws.{select_keeps, select_pure_keeps}
use ara_chat_service.Blocking.{get_all_blocked_user_ids}
use ara_chat_service.Connection.{Channel}
use ara_chat_service.Conversation.{get_participant_ids, update_last_message}
use ara_chat_service.Conversation.Muting.{get_muted_user_ids}
use ara_chat_service.Message.{ContentType, ChatMessage, OutboundMessage, preserialized}
use ara_chat_service.Storage.Creating.{message_row, create_message}
use ara_chat_service.Storage.Replies.{validate_reply_target, get_reply_context, get_thread_info}
use ara_chat_service.Cluster.{Serde}
use ara_chat_service.Router.{MessageRouter, Site, blocked_users, route_message}
use ara_chat_service.Router.Changes.{notify_mentions, route_thread_updated}
use ara_chat_service.Handler.{
  storage, conversation, MessageHandler, MessageHandlerError, Handle, ask, route, try_to, refuse_if,
}
use ara_chat_service.Handler.Sending.{announce_thread, reply_context_of}

module _ {Sender Queue : Type 0} where
  -- Nothing but the number of statements differs in the database.
  abbrev pub Same : Site Sender Queue → Site Sender Queue → Type 0
  Same s s' =
      (s'.world.tables ≡ s.world.tables)
      × (s'.world.now ≡ s.world.now)
      × (s'.world.answers ≡ s.world.answers)

  pub refuse_if-Same :
      (b : Bool) (e : MessageHandlerError) (s s' : Site Sender Queue)
      → Same s s'
      → Same s (refuse_if b e s').1
  refuse_if-Same true e s s' h = h
  refuse_if-Same false e s s' h = h

module _ {Sender Queue : Type 0} (channel : Channel Sender OutboundMessage) (serde : Serde)
    (router : MessageRouter Queue) where
  blocked_users_tables :
      (u : ℕ) (w : World) → (blocked_users channel serde router u w).1.tables ≡ w.tables
  unfolding get_all_blocked_user_ids
  blocked_users_tables u w = elim (Option-cases router.blocking_service) [
    | inl away ↦ ground (arith, away)
    | inr (tenant, here) ↦ rw here (select_keeps (λ v. v.tables ≡ w.tables) _ _ w refl)
  ]

  pub route_message_tables :
      (m : ChatMessage) (s : Site Sender Queue)
      → (route_message channel serde router m s).1.world.tables ≡ s.world.tables
  unfolding route_message get_participant_ids get_muted_user_ids preserialized
  route_message_tables m s =
      let listed = get_participant_ids router.conversation_service m.conversation_id s.world in
      let muted = get_muted_user_ids router.conversation_service m.conversation_id listed.1 in
      let e : listed.1.tables ≡ s.world.tables =
        select_keeps (λ v. v.tables ≡ s.world.tables) _ _ s.world refl in
      let f : muted.1.tables ≡ listed.1.tables =
        select_keeps (λ v. v.tables ≡ listed.1.tables) _ _ listed.1 refl in
      ground (arith, e, f, blocked_users_tables m.sender_id muted.1)

  pub notify_mentions_tables :
      (m : ChatMessage) (us : List ℕ) (s : Site Sender Queue)
      → (notify_mentions channel serde router m us s).1.world.tables ≡ s.world.tables
  unfolding notify_mentions preserialized
  notify_mentions_tables m us s = ground arith

  route_thread_updated_tables :
      (c id n t u : ℕ) (s : Site Sender Queue)
      → (route_thread_updated channel serde router c id n t u s).1.world.tables ≡ s.world.tables
  unfolding route_thread_updated get_participant_ids preserialized
  route_thread_updated_tables c id n t u s = ground arith

module _ {Sender Queue : Type 0} (channel : Channel Sender OutboundMessage) (serde : Serde)
    (mentioned : String → List ℕ) (parse_markdown : String → Option String)
    (handler : MessageHandler Queue) where
  pub reply_context_of-Same :
      (c : ℕ) (reply_to : Option ℕ) (s : Site Sender Queue)
      → Same s (reply_context_of channel serde mentioned parse_markdown handler c reply_to s).1
  unfolding validate_reply_target get_reply_context
  reply_context_of-Same c none s = (refl, refl, refl)
  reply_context_of-Same c (some reply_to_id) s =
      let P : World → Type 0 = λ v. Same s (record s { world = v }) in
      let w : World = (validate_reply_target handler.storage reply_to_id c s.world).1 in
      let h : P w = select_pure_keeps P _ _ _ s.world (refl, refl, refl) in
      let h' : P (get_reply_context handler.storage reply_to_id w).1 =
        select_pure_keeps P _ _ _ w h in
      >>=_holds (Same s) (ask storage (validate_reply_target handler.storage reply_to_id c)) _ s h
        (λ b e. elim (Bool-cases b) [ inl valid ↦ rw valid h' | inr invalid ↦ rw invalid h ])

  get_thread_info_tables :
      (id : ℕ) (w : World) → (get_thread_info handler.storage id w).1.tables ≡ w.tables
  unfolding get_thread_info
  get_thread_info_tables id w = select_pure_keeps (λ v. v.tables ≡ w.tables) _ _ _ w refl

  pub announce_thread_tables :
      (c : ℕ) (m : ChatMessage) (u : ℕ) (reply_to : Option ℕ) (s : Site Sender Queue)
      → (announce_thread channel serde mentioned parse_markdown handler c m u reply_to
          s).1.world.tables
        ≡ s.world.tables
  announce_thread_tables c m u none s = refl
  announce_thread_tables c m u (some reply_to_id) s =
      let read = get_thread_info handler.storage reply_to_id s.world in
      let e : read.1.tables ≡ s.world.tables = get_thread_info_tables reply_to_id s.world in
      elim (Result-cases read.0) [
        | inr (x, failed) ↦ ground (arith, failed, e)
        | inl (info, found) ↦ elim (Option-cases info) [
          | inl away ↦ ground (arith, found, away, e)
          | inr (thread, there) ↦
              let routed =
                route_thread_updated_tables channel serde handler.router c reply_to_id
                  thread.reply_count m.created_at u (record s { world = read.1 }) in
              ground (arith, found, there, e, routed)
        ]
      ]

  -- The insertion of a message, where it is not refused, and the statement after it.
  pub create_message_messages :
      (id c u : ℕ) (content : String) (content_type : ContentType) (reply_to : Option ℕ)
      (client_message_id : Option String) (mentions : List ℕ) (hints : Option String) (w : World)
      → let after =
          (create_message handler.storage id c u content content_type reply_to client_message_id
            mentions hints w).1.tables.messages in
        (after ≡ w.tables.messages)
        ⊎ (after
            ≡ w.tables.messages
              ++ message_row handler.storage id c u content content_type reply_to client_message_id
                  mentions hints w.now
                ∷ [])
  unfolding create_message
  create_message_messages id c u content content_type reply_to client_message_id mentions hints w =
      ground arith

  -- A step that leaves the messages as they are, and the rest.
  step :
      {A B : Type 0} (P : List MessageRow → Type 0) (m : Handle (Site Sender Queue) A)
      (f : A → Handle (Site Sender Queue) B)
      → ((s : Site Sender Queue) → (m s).1.world.tables.messages ≡ s.world.tables.messages)
      → ((a : A) (s : Site Sender Queue)
          → P s.world.tables.messages
          → P (f a s).1.world.tables.messages)
      → (s : Site Sender Queue) → P s.world.tables.messages
      → P ((m >>= f) s).1.world.tables.messages
  step P m f keeps rest s h =
      let h' : P (m s).1.world.tables.messages = subst P (sym (keeps s)) h in
      >>=_holds (λ v. P v.world.tables.messages) m f s h' (λ a e. rest a (m s).1 h')

  abbrev pub notified : ChatMessage → List ℕ → Handle (Site Sender Queue) (Unit {0})
  notified m targets =
      if is_empty targets
      then pure tt
      else route (notify_mentions channel serde handler.router m targets)

  notified_messages :
      (m : ChatMessage) (targets : List ℕ) (s : Site Sender Queue)
      → (notified m targets s).1.world.tables.messages ≡ s.world.tables.messages
  notified_messages m targets s = elim (Bool-cases (is_empty targets)) [
    | inl nobody ↦ rw nobody refl
    | inr others ↦
        rw others
          (ap (λ t. t.messages) (notify_mentions_tables channel serde handler.router m targets s))
  ]

  update_last_message_messages :
      (c message_id : ℕ) (w : World)
      → (update_last_message handler.conversation_service c message_id w).1.tables.messages
        ≡ w.tables.messages
  unfolding update_last_message
  update_last_message_messages c message_id w = ground arith

  -- What is done once the message is stored leaves the messages as they are.
  pub announced :
      (P : List MessageRow → Type 0) (c u : ℕ) (reply_to : Option ℕ) (m : ChatMessage)
      (targets : List ℕ) (s : Site Sender Queue)
      → P s.world.tables.messages
      → P
          ((do
            route (route_message channel serde handler.router m)
            announce_thread channel serde mentioned parse_markdown handler c m u reply_to
            notified m targets
            try_to (ask conversation (update_last_message handler.conversation_service c m.id))
            pure m)
            s).1.world.tables.messages
  announced P c u reply_to m targets =
      step P (route (route_message channel serde handler.router m)) _
        (λ s. ap (λ t. t.messages) (route_message_tables channel serde handler.router m s))
        (λ a.
          step P (announce_thread channel serde mentioned parse_markdown handler c m u reply_to) _
            (λ s. ap (λ t. t.messages) (announce_thread_tables c m u reply_to s))
            (λ b. step P (notified m targets) _ (notified_messages m targets) (λ d.
              step P
                (try_to
                  (ask conversation (update_last_message handler.conversation_service c m.id)))
                (λ e. pure m) (λ s. update_last_message_messages c m.id s.world) (λ e s h. h))))
