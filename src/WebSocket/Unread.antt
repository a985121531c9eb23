-- ===== src/WebSocket/Unread.antt =====
-- The unread counts that `handle_send_message` of api/websocket.rs keeps.
use Prim.Native.String.{String}
use ara_chat_service.Base.{
  ℕ, suc, true, not, ◌&&◌, List, [], ◌∷◌, Option, some, ◌==◌, if◌then◌else◌, contains, map, keep,
  IsDistinct, ◌≡◌, ◌∙◌, arith, Bool-cases, Option-cases, inl, inr,
}
use ara_chat_service.Base.Results.{ok}
use ara_chat_service.Connection.{Channel}
use ara_chat_service.Conversation.{active_in, get_participant_ids}
use ara_chat_service.Message.{ChatMessage, OutboundMessage}
use ara_chat_service.Redis.Tallies.{RedisTallies, Tally, Documented, IsUp}
use ara_chat_service.Receipt.{UnreadKey, unread, same_key, increment_unread}
use ara_chat_service.Receipt.Steps.{increment_step}
use ara_chat_service.Cluster.{Serde}
use ara_chat_service.WebSocket.{AppState, Desk}
use ara_chat_service.WebSocket.Sending.{count_unread, after_handler}

module _ {S : Type 0} (redis : RedisTallies S UnreadKey) (at : S → Tally UnreadKey)
    (laws : Documented same_key redis at) (up : IsUp same_key redis at) where
  increment_unread-at :
      (u c v d : ℕ) (s : S)
      → at (increment_unread redis u c s).1 (unread v d)
        ≡ (if u == v && c == d then suc (at s (unread v d)) else at s (unread v d))
  increment_unread-at u c v d s = increment_step redis at laws up u c (unread v d) s

  -- Every participant but the sender is counted once.
  count_unread-at :
      (user_id c : ℕ) (ids : List ℕ) (v d : ℕ) (s : S)
      → IsDistinct ids
      → at (count_unread (some redis) user_id c ids s) (unread v d) ≡ (
          if c == d && (contains v ids && not (v == user_id))
          then suc (at s (unread v d))
          else at s (unread v d))
  unfolding count_unread
  count_unread-at user_id c [] v d s distinct = ground arith
  count_unread-at user_id c (p ∷ ids) v d s distinct = elim (Bool-cases (p == user_id)) [
    | inl own ↦ ground (arith, own, distinct.0, count_unread-at user_id c ids v d s distinct.1)
    | inr other ↦
        let s' : S = (increment_unread redis p c s).1 in
        ground (
          arith,
          other,
          distinct.0,
          increment_unread-at p c v d s,
          count_unread-at user_id c ids v d s' distinct.1,
        )
  ]

module _ {S Sender Queue : Type 0} (channel : Channel Sender OutboundMessage) (serde : Serde)
    (mentioned : String → List ℕ) (parse_markdown : String → Option String)
    (encode_text : String → String) (state : AppState S Queue) (redis : RedisTallies S UnreadKey)
    (at : S → Tally UnreadKey) (laws : Documented same_key redis at) (up : IsUp same_key redis at)
    (user_id conversation_id : ℕ) (client_message_id : Option String) (message : ChatMessage)
    (tenant : String) (desk : Desk S Sender Queue) where
  abbrev pub participants : List ℕ
  participants =
      map (λ r. r.user_id)
        (keep (active_in tenant conversation_id) desk.site.world.tables.participants)

  abbrev pub answered : Desk S Sender Queue
  answered =
      after_handler channel serde mentioned parse_markdown encode_text state user_id conversation_id
        client_message_id (ok message) desk

  -- A message was sent, and all the services are there: the tables name no participant twice, Redis
  -- and the database answer, and the queue of link previews keeps no counts. Then the unread
  -- count of every participant but the sender, in this conversation, is one more, and every other
  -- unread count is as it was.
  pub after_handler_counts :
      state.conversation_service ≡ some tenant
      → state.receipt_tracker ≡ some (some redis)
      → ((enqueue : ℕ → String → S → S) (s : S) (k : UnreadKey)
          → state.link_preview_service ≡ some enqueue
          → at (enqueue message.id message.content s) k ≡ at s k)
      → desk.site.world.answers desk.site.world.queries ≡ true
      → IsDistinct participants
      → (v d : ℕ)
      → at answered.store (unread v d) ≡ (
          if conversation_id == d && (contains v participants && not (v == user_id))
          then suc (at desk.store (unread v d))
          else at desk.store (unread v d))
  unfolding after_handler get_participant_ids
  after_handler_counts serviced tracked keeps answers distinct v d =
      let counted : S = count_unread (some redis) user_id conversation_id participants desk.store in
      let done : at answered.store (unread v d) ≡ at counted (unread v d) =
        elim (Option-cases state.link_preview_service) [
          | inl away ↦ ground (arith, serviced, tracked, answers, away)
          | inr (enqueue, here) ↦
              ground
                (arith, serviced, tracked, answers, here, keeps enqueue counted (unread v d) here)
        ] in
      done
      ∙ count_unread-at redis at laws up user_id conversation_id participants v d desk.store
          distinct
