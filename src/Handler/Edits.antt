-- ===== src/Handler/Edits.antt =====
-- What `store_edit` of domain/message/handler.rs changes in the tables.
use Prim.Native.String.{String}
use ara_chat_service.Base.{
  ℕ, ◌+◌, Bool-cases, Option-cases, not, ◌&&◌, List, [], Option, ◌==◌, contains, keep, find, map,
  ◌≡◌, ◌⊎◌, inl, inr, arith,
}
use ara_chat_service.Database.{MessageRow, Tables}
use ara_chat_service.Connection.{Channel}
use ara_chat_service.Conversation.{update, active_in, get_participant_ids}
use ara_chat_service.Message.{ChatMessage, OutboundMessage, preserialized}
use ara_chat_service.Storage.{is_kept, edited, edit_message, into_chat_message}
use ara_chat_service.Cluster.{Serde}
use ara_chat_service.Router.{Site}
use ara_chat_service.Router.Changes.{route_message_edit}
use ara_chat_service.Handler.{MessageHandler, validate_mentions, add_mentions, hints_of}
use ara_chat_service.Handler.Steps.{notify_mentions_tables}
use ara_chat_service.Handler.Editing.{store_edit}

module _ {Sender Queue : Type 0} (channel : Channel Sender OutboundMessage) (serde : Serde)
    (mentioned : String → List ℕ) (parse_markdown : String → Option String)
    (handler : MessageHandler Queue) (user_id message_id : ℕ) (site : Site Sender Queue) where
  route_message_edit_tables :
      (m : ChatMessage) (s : Site Sender Queue)
      → (route_message_edit channel serde handler.router m s).1.world.tables ≡ s.world.tables
  unfolding route_message_edit get_participant_ids preserialized
  route_message_edit_tables m s = ground arith

  -- The participants of a conversation whom a text mentions, each once.
  abbrev pub mentions_in : ℕ → String → List ℕ
  mentions_in conversation_id content = validate_mentions (add_mentions [] (mentioned content)) (
      map (λ p. p.user_id)
        (keep (active_in handler.conversation_service conversation_id)
          site.world.tables.participants))

  -- What `handle_edit_message` makes of a row of the message `m`.
  abbrev pub rewritten : String → ChatMessage → MessageRow → MessageRow
  rewritten content m =
      edited content (mentions_in m.conversation_id content)
        (hints_of parse_markdown m.content_type content) site.world.now

  abbrev pub rewritten_tables : String → ChatMessage → Tables
  rewritten_tables content m = record (site.world.tables) {
    messages =
        update (is_kept handler.storage message_id) (rewritten content m)
          site.world.tables.messages;
  }

  pub store_edit_tables :
      (content : String) (m : ChatMessage)
      → let s = record site { world = record (site.world) { queries = site.world.queries + 1 } } in
        let after =
          (store_edit channel serde mentioned parse_markdown handler user_id message_id content m
            s).1.world.tables in
        (after ≡ site.world.tables) ⊎ (after ≡ rewritten_tables content m)
  unfolding store_edit edit_message get_participant_ids
  store_edit_tables content m =
      let w = site.world in
      elim (Bool-cases (w.answers (w.queries + 1))) [
        | inr lost ↦ inl (ground (arith, lost))
        | inl read ↦ elim (Bool-cases (w.answers (w.queries + 1 + 1))) [
          | inr lost ↦ inl (ground (arith, read, lost))
          | inl written ↦
              elim (Option-cases (find (is_kept handler.storage message_id) w.tables.messages)) [
                | inl away ↦ inl (ground (arith, read, written, away))
                | inr (r, here) ↦
                    let s' : Site Sender Queue = record site {
                      world = record w {
                        queries = w.queries + 1 + 1 + 1;
                        tables = rewritten_tables content m;
                      };
                    } in
                    let updated = into_chat_message (rewritten content m r) in
                    let valid = mentions_in m.conversation_id content in
                    let targets =
                      keep (λ u. not (contains u m.mentions) && not (u == user_id)) valid in
                    let routed = route_message_edit_tables updated s' in
                    let noted =
                      notify_mentions_tables channel serde handler.router updated targets
                        (route_message_edit channel serde handler.router updated s').1 in
                    inr (ground (arith, read, written, here, routed, noted))
              ]
        ]
      ]
