-- ===== src/Handler/Windows.antt =====
-- When domain/message/handler.rs changes a message that was sent.
use Prim.Native.String.{String}
use ara_chat_service.Base.{
  ℕ, ◌-◌, ◌+◌, Bool-cases, ==_iff, Option-cases, false, List, Option, none, some, ◌==◌, ltb, find,
  ◌≡◌, ◌⊎◌, inl, inr, refl, sym, ap, ◌∙◌, arith,
}
use ara_chat_service.Database.{MessageRow}
use ara_chat_service.Connection.{Channel}
use ara_chat_service.Conversation.{update, get_participant_ids}
use ara_chat_service.Message.{ChatMessage, OutboundMessage, preserialized}
use ara_chat_service.Storage.{
  is_message, is_kept, recalled, get_message, recall_message, into_chat_message,
}
use ara_chat_service.Cluster.{Serde}
use ara_chat_service.Router.{Site}
use ara_chat_service.Router.Changes.{route_recall}
use ara_chat_service.Handler.{MessageHandler}
use ara_chat_service.Handler.Edits.{rewritten_tables, store_edit_tables}
use ara_chat_service.Handler.Editing.{
  handle_recall_message, handle_edit_message, store_edit, edit_found,
}

-- What is asked of a stored message.
into_fields :
    (r : MessageRow)
    → ((into_chat_message r).sender_id ≡ r.sender_id)
      × ((into_chat_message r).created_at ≡ r.created_at)
      × ((into_chat_message r).recalled_at ≡ r.deleted_at)
unfolding into_chat_message
into_fields r = (refl, refl, refl)

module _ {Sender Queue : Type 0} (channel : Channel Sender OutboundMessage) (serde : Serde)
    (mentioned : String → List ℕ) (parse_markdown : String → Option String)
    (handler : MessageHandler Queue) (user_id message_id : ℕ) (site : Site Sender Queue) where
  -- A row that its sender may still change.
  pub record IsOpen (window : ℕ) (r : MessageRow) : Type 0 where
    pub found : find (is_message handler.storage message_id) site.world.tables.messages ≡ some r
    pub own : r.sender_id ≡ user_id
    pub kept : r.deleted_at ≡ none
    pub early : ltb window (site.world.now - r.created_at) ≡ false

  route_recall_tables :
      (c m u : ℕ) (s : Site Sender Queue)
      → (route_recall channel serde handler.router c m u s).1.world.tables ≡ s.world.tables
  unfolding route_recall get_participant_ids preserialized
  route_recall_tables c m u s = ground arith

  -- `handle_recall_message` leaves the tables as they were, or the message is open for the user
  -- within the recall window, and exactly it is marked as recalled.
  pub handle_recall_message_safe :
      (conversation_id : ℕ)
      → let after =
          (handle_recall_message channel serde mentioned parse_markdown handler user_id
            conversation_id message_id site).1.world.tables in
        (after ≡ site.world.tables)
        ⊎ ((r : MessageRow) × IsOpen handler.recall_window r
            × (after ≡ record (site.world.tables) {
              messages =
                  update
                    (is_kept handler.storage message_id)
                    (recalled site.world.now)
                    site.world.tables.messages;
            }))
  unfolding handle_recall_message get_message recall_message into_chat_message
  handle_recall_message_safe conversation_id =
      let row = find (is_message handler.storage message_id) site.world.tables.messages in
      elim (Option-cases row) [
        | inl away ↦ inl (ground (arith, away))
        | inr (r, here) ↦ elim (Bool-cases (r.sender_id == user_id)) [
          | inr foreign ↦ inl (ground (arith, here, foreign))
          | inl own ↦ elim (Option-cases r.deleted_at) [
            | inr (t, gone) ↦ inl (ground (arith, here, own, gone))
            | inl kept ↦
                elim (Bool-cases (ltb handler.recall_window (site.world.now - r.created_at))) [
                  | inl late ↦ inl (ground (arith, here, own, kept, late))
                  | inr early ↦
                      let opened : IsOpen handler.recall_window r = record {
                        found = here;
                        own = (==_iff r.sender_id user_id).0 own;
                        kept = kept;
                        early = early;
                      } in
                      let w = site.world in
                      let s' : Site Sender Queue = record site {
                        world = record w {
                          queries = w.queries + 1 + 1;
                          tables = record (w.tables) {
                            messages =
                                update (is_kept handler.storage message_id) (recalled w.now)
                                  w.tables.messages;
                          };
                        };
                      } in
                      let routed = route_recall_tables conversation_id message_id user_id s' in
                      ground (arith, here, own, kept, early, routed, opened)
                ]
          ]
        ]
      ]

  -- The state after the message has been read.
  abbrev read_site : Site Sender Queue
  read_site = record site { world = record (site.world) { queries = site.world.queries + 1 } }

  edit_found_tables :
      (content : String) (m : ChatMessage)
      → let after =
          (edit_found channel serde mentioned parse_markdown handler user_id message_id content m
            read_site).1.world.tables in
        (after ≡ site.world.tables)
        ⊎ ((m.sender_id ≡ user_id)
            × (m.recalled_at ≡ none)
            × (ltb handler.edit_window (site.world.now - m.created_at) ≡ false)
            × (after
                ≡ rewritten_tables channel serde mentioned parse_markdown handler user_id message_id
                    site content m))
  unfolding edit_found store_edit
  edit_found_tables content m = elim (Bool-cases (m.sender_id == user_id)) [
    | inr foreign ↦ inl (ground (arith, foreign))
    | inl own ↦ elim (Option-cases m.recalled_at) [
      | inr (t, gone) ↦ inl (ground (arith, own, gone))
      | inl kept ↦ elim (Bool-cases (ltb handler.edit_window (site.world.now - m.created_at))) [
        | inl late ↦ inl (rw (own, kept, late) refl)
        | inr early ↦
            elim (store_edit_tables channel serde mentioned parse_markdown handler user_id
              message_id site content m) [
                | inl q ↦ inl (rw (own, kept, early) q)
                | inr q ↦
                    inr ((==_iff m.sender_id user_id).0 own, kept, early, rw (own, kept, early) q)
              ]
      ]
    ]
  ]

  -- `handle_edit_message` leaves the tables as they were, or the message is open for the user within
  -- the edit window, and exactly it gets the new text, the participants that the text mentions, its
  -- hints and the time of the call.
  pub handle_edit_message_safe :
      (content : String)
      → let after =
          (handle_edit_message channel serde mentioned parse_markdown handler user_id message_id
            content site).1.world.tables in
        (after ≡ site.world.tables)
        ⊎ ((r : MessageRow) × IsOpen handler.edit_window r
            × (after
                ≡ rewritten_tables channel serde mentioned parse_markdown handler user_id message_id
                    site content
                    (into_chat_message r)))
  unfolding handle_edit_message get_message
  handle_edit_message_safe content =
      let row = find (is_message handler.storage message_id) site.world.tables.messages in
      elim (Bool-cases (site.world.answers site.world.queries)) [
        | inr lost ↦ inl (ground (arith, lost))
        | inl up ↦ elim (Option-cases row) [
          | inl away ↦ inl (ground (arith, up, away))
          | inr (r, here) ↦
              let fields = into_fields r in
              let same : (handle_edit_message channel serde mentioned parse_markdown handler user_id
                    message_id content site).1.world.tables
                  ≡ (edit_found channel serde mentioned parse_markdown handler user_id message_id
                      content (into_chat_message r) read_site).1.world.tables =
                ground (arith, here, up) in
              elim (edit_found_tables content (into_chat_message r)) [
                | inl q ↦ inl (same ∙ q)
                | inr (own, kept, early, q) ↦
                    let opened : IsOpen handler.edit_window r = record {
                      found = here;
                      own = sym fields.0 ∙ own;
                      kept = sym fields.2 ∙ kept;
                      early =
                          ap (λ t. ltb handler.edit_window (site.world.now - t)) (sym fields.1)
                          ∙ early;
                    } in
                    inr (r, opened, same ∙ q)
              ]
        ]
      ]
