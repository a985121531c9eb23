-- ===== src/Handler/Pins.antt =====
-- Who may pin a message through domain/message/handler.rs.
use ara_chat_service.Base.{
  ℕ, ◌+◌, Bool-cases, ==_iff, Option-cases, true, some, ◌==◌, find, ◌≡◌, ◌⊎◌, inl, inr, arith,
}
use ara_chat_service.Database.{MessageRow, ParticipantRow, Tables}
use ara_chat_service.Connection.{Channel}
use ara_chat_service.Conversation.{
  is_mine, into_participant, can_pin_messages, get_participant_info, get_participant_ids,
}
use ara_chat_service.Message.{OutboundMessage, preserialized}
use ara_chat_service.Storage.{is_kept}
use ara_chat_service.Storage.Pinning.{upsert_pin, pin_message}
use ara_chat_service.Cluster.{Serde}
use ara_chat_service.Router.{Site}
use ara_chat_service.Router.Changes.{route_message_pinned}
use ara_chat_service.Handler.{MessageHandler}
use ara_chat_service.Handler.Pinning.{handle_pin_message}

module _ {Sender Queue : Type 0} (channel : Channel Sender OutboundMessage) (serde : Serde)
    (handler : MessageHandler Queue) (user_id conversation_id message_id : ℕ)
    (site : Site Sender Queue) where
  abbrev pub pinned_tables : Tables
  pinned_tables = record (site.world.tables) {
    pins =
        upsert_pin handler.storage
          (record {
            message_id = message_id;
            conversation_id = conversation_id;
            pinned_by = user_id;
            pinned_at = site.world.now;
          })
          site.world.tables.pins;
  }

  -- The row by which a user may pin, and the row of the message that is pinned.
  pub record MayPin (p : ParticipantRow) (r : MessageRow) : Type 0 where
    pub takes_part :
        find
          (is_mine handler.conversation_service conversation_id user_id)
          site.world.tables.participants
        ≡ some p
    pub allowed : can_pin_messages (into_participant p) ≡ true
    pub there : find (is_kept handler.storage message_id) site.world.tables.messages ≡ some r
    pub in_conversation : r.conversation_id ≡ conversation_id

  pinned_routes :
      (t : ℕ) (s : Site Sender Queue)
      → (route_message_pinned channel serde handler.router conversation_id message_id user_id t
          s).1.world.tables
        ≡ s.world.tables
  unfolding route_message_pinned get_participant_ids preserialized
  pinned_routes t s = ground arith

  -- `handle_pin_message` leaves the tables as they were, or the user has a row in the conversation
  -- with the role of an owner or an admin, the message is in that conversation and not recalled, and
  -- exactly its pin is set.
  pub handle_pin_message_safe :
      let after =
        (handle_pin_message channel serde handler user_id conversation_id message_id
          site).1.world.tables in
      (after ≡ site.world.tables)
      ⊎ ((p : ParticipantRow) × (r : MessageRow) × MayPin p r × (after ≡ pinned_tables))
  unfolding handle_pin_message get_participant_info pin_message
  handle_pin_message_safe =
      let w = site.world in
      let rows =
        find (is_mine handler.conversation_service conversation_id user_id) w.tables.participants in
      let messages = find (is_kept handler.storage message_id) w.tables.messages in
      elim (Option-cases rows) [
        | inl away ↦ inl (ground (arith, away))
        | inr (p, member) ↦ elim (Bool-cases (can_pin_messages (into_participant p))) [
          | inr low ↦ inl (ground (arith, member, low))
          | inl high ↦ elim (Option-cases messages) [
            | inl gone ↦ inl (ground (arith, member, high, gone))
            | inr (r, here) ↦ elim (Bool-cases (r.conversation_id == conversation_id)) [
              | inr elsewhere ↦ inl (ground (arith, member, high, here, elsewhere))
              | inl inside ↦
                  let s' : Site Sender Queue = record site {
                    world = record w { queries = w.queries + 1 + 1 + 1; tables = pinned_tables };
                  } in
                  let may : MayPin p r = record {
                    takes_part = member;
                    allowed = high;
                    there = here;
                    in_conversation = (==_iff r.conversation_id conversation_id).0 inside;
                  } in
                  let routed = pinned_routes w.now s' in
                  elim (Bool-cases (w.answers w.queries)) [
                    | inr lost ↦ inl (ground (arith, lost))
                    | inl first ↦ elim (Bool-cases (w.answers (w.queries + 1))) [
                      | inr lost ↦ inl (ground (arith, member, high, first, lost))
                      | inl second ↦ elim (Bool-cases (w.answers (w.queries + 1 + 1))) [
                        | inr lost ↦
                            inl (ground (arith, member, high, here, inside, first, second, lost))
                        | inl third ↦ inr (
                          p,
                          r,
                          may,
                          ground (arith, member, high, here, inside, first, second, third, routed),
                        )
                      ]
                    ]
                  ]
            ]
          ]
        ]
      ]

  -- `handle_pin_message` pins for everyone who has such a row, when the database answers;
  -- also if the row says that the user has left.
  pub handle_pin_message_complete :
      (p : ParticipantRow) (r : MessageRow)
      → MayPin p r
      → ((n : ℕ) → site.world.answers n ≡ true)
      → (handle_pin_message channel serde handler user_id conversation_id message_id
          site).1.world.tables
        ≡ pinned_tables
  unfolding handle_pin_message get_participant_info pin_message
  handle_pin_message_complete p r may up =
      let w = site.world in
      let s' : Site Sender Queue = record site {
        world = record w { queries = w.queries + 1 + 1 + 1; tables = pinned_tables };
      } in
      ground (
        arith,
        may.takes_part,
        may.allowed,
        may.there,
        may.in_conversation,
        up w.queries,
        up (w.queries + 1),
        up (w.queries + 1 + 1),
        pinned_routes w.now s',
      )
