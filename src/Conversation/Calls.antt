-- ===== src/Conversation/Calls.antt =====
-- The calls of domain/conversation/service.rs that write, one after the other: each by a server of
-- one tenant, at its time.
use Prim.Native.String.{String}
use ara_chat_service.Base.{
  ℕ, Bool, List, [], ◌∷◌, Option, ◌≡◌, refl, inl, inr, Bool-cases, ◌∙◌, arith,
}
use ara_chat_service.Database.{World, ConversationRow}
use ara_chat_service.Conversation.{ConversationType, update, update_last_message}
use ara_chat_service.Conversation.Membership.{
  add_participant, remove_participant, leave_conversation,
}
use ara_chat_service.Conversation.Muting.{mute_conversation, unmute_conversation}
use ara_chat_service.Conversation.Direct.{create_conversation, find_or_create_direct}
use ara_chat_service.Conversation.Counts.{IsConsistent, IsReferenced-mono, known-update, Right}
use ara_chat_service.Conversation.Changes.{
  add-IsConsistent, remove-IsConsistent, mute-IsConsistent, unmute-IsConsistent,
}
use ara_chat_service.Conversation.Creation.{create-IsConsistent, find_or_create-IsConsistent}

pub data Call : Type 0 where
  create : (id : ℕ) → ConversationType → (created_by : ℕ) → List ℕ → Option String → Call
  find_or_create : (id user1 user2 : ℕ) → Call
  add remove : (c u by : ℕ) → Call
  leave mute unmute : (c u : ℕ) → Call
  last_message : (c id : ℕ) → Call

-- An update that keeps the ids and the counters of the rows.
Right-update :
    (rows : _) (p : ConversationRow → Bool) (f : ConversationRow → ConversationRow)
    (convs : List ConversationRow)
    → ((r : ConversationRow) → ((f r).id ≡ r.id) × ((f r).participant_count ≡ r.participant_count))
    → Right rows convs
    → Right rows (update p f convs)
Right-update rows p f [] same h = tt
Right-update rows p f (r ∷ convs) same h =
    ground (arith, same r, h.0, Right-update rows p f convs same h.1)

last_message-IsConsistent :
    (tenant : String) (c id : ℕ) (w : World)
    → IsConsistent w.tables
    → IsConsistent (update_last_message tenant c id w).1.tables
unfolding update_last_message
last_message-IsConsistent tenant c id w k = elim (Bool-cases (w.answers w.queries)) [
  | inl h ↦ rw h (record {
    counted =
        Right-update w.tables.participants _ _ w.tables.conversations (λ r. (refl, refl)) k.counted;
    referenced =
        IsReferenced-mono w.tables.conversations _ w.tables.participants
          (λ d e. known-update d _ _ w.tables.conversations (λ x. refl) ∙ e) k.referenced;
  })
  | inr h ↦ rw h k
]

module _ (sha256 : ℕ → ℕ → ℕ) where
  abbrev pub perform : String → Call → World → World
  perform tenant (create id kind created_by us name) w =
      (create_conversation sha256 tenant id kind created_by us name w).1
  perform tenant (find_or_create id user1 user2) w =
      (find_or_create_direct sha256 tenant id user1 user2 w).1
  perform tenant (add c u by) w = (add_participant tenant c u by w).1
  perform tenant (remove c u by) w = (remove_participant tenant c u by w).1
  perform tenant (leave c u) w = (leave_conversation tenant c u w).1
  perform tenant (mute c u) w = (mute_conversation tenant c u w).1
  perform tenant (unmute c u) w = (unmute_conversation tenant c u w).1
  perform tenant (last_message c id) w = (update_last_message tenant c id w).1

  abbrev pub perform_all : List (ℕ × String × Call) → World → World
  perform_all [] w = w
  perform_all ((now, tenant, call) ∷ calls) w =
      perform_all calls (perform tenant call (record w { now = now }))

  perform-IsConsistent :
      (tenant : String) (call : Call) (w : World)
      → IsConsistent w.tables
      → IsConsistent (perform tenant call w).tables
  unfolding leave_conversation
  perform-IsConsistent tenant (create id kind created_by us name) w k =
      create-IsConsistent sha256 tenant id kind created_by us name w k
  perform-IsConsistent tenant (find_or_create id u1 u2) w k =
      find_or_create-IsConsistent sha256 tenant id u1 u2 w k
  perform-IsConsistent tenant (add c u by) w k = add-IsConsistent tenant c u by w k
  perform-IsConsistent tenant (remove c u by) w k = remove-IsConsistent tenant c u by w k
  perform-IsConsistent tenant (leave c u) w k = remove-IsConsistent tenant c u u w k
  perform-IsConsistent tenant (mute c u) w k = mute-IsConsistent tenant c u w k
  perform-IsConsistent tenant (unmute c u) w k = unmute-IsConsistent tenant c u w k
  perform-IsConsistent tenant (last_message c id) w k = last_message-IsConsistent tenant c id w k

  -- After any calls, by servers of any tenants and whatever statements fail, the counter of each
  -- conversation is the number of its participants who have not left, and each participant's
  -- conversation exists, if this held before.
  pub perform_all-IsConsistent :
      (calls : List (ℕ × String × Call)) (w : World)
      → IsConsistent w.tables
      → IsConsistent (perform_all calls w).tables
  perform_all-IsConsistent [] w k = k
  perform_all-IsConsistent ((now, tenant, call) ∷ calls) w k =
      perform_all-IsConsistent calls (perform tenant call (record w { now = now }))
        (perform-IsConsistent tenant call (record w { now = now }) k)
