-- ===== src/Conversation/Direct.antt =====
-- `create_conversation` and `find_or_create_direct` of domain/conversation/service.rs, with
-- domain/conversation/direct_lookup.rs. SHA-256 of the bytes of two users is the parameter
-- `sha256`, and a new id is an argument.
use Prim.Native.String.{String}
use text.Mathlib.Text.{◌==◌ as str_eq}
use ara_chat_service.Base.{
  ℕ, ◌++◌, Bool, ◌&&◌, List, [], ◌∷◌, Option, none, some, ◌==◌, ltb, if◌then◌else◌, length, find,
  any,
}
use ara_chat_service.Base.Results.{ok, err}
use ara_chat_service.Database.{
  ConversationRow, DirectRow, Db, pure, fail, ◌>>=◌, ◌>>◌, attempt, select, write, transaction,
}
use ara_chat_service.Conversation.{
  ConversationType, direct, ConversationError, not_found, database, Conversation, type_str,
  into_conversation, is_row, get_conversation,
}
use ara_chat_service.Conversation.Membership.{joining}

-- The smaller of two ids first.
abbrev pub sorted_pair : ℕ → ℕ → ℕ × ℕ
sorted_pair user1 user2 = if ltb user1 user2 then (user1, user2) else (user2, user1)

-- The two users of a direct conversation.
abbrev pub direct_pair : ConversationType → List ℕ → Option (ℕ × ℕ)
direct_pair direct (user1 ∷ user2 ∷ []) = some (user1, user2)
direct_pair _ _ = none

module _ (sha256 : ℕ → ℕ → ℕ) (tenant : String) where
  abbrev pub generate_pair_hash : ℕ → ℕ → ℕ
  generate_pair_hash user1 user2 = let pair = sorted_pair user1 user2 in sha256 pair.0 pair.1

  abbrev pub names_pair : ℕ → DirectRow → Bool
  names_pair hash r = r.user_pair_hash == hash && str_eq r.tenant_id tenant

  abbrev pub find_hash : ℕ → Db ConversationError (Option ℕ)
  find_hash hash = do
    row ← select database (λ t. find (names_pair hash) t.direct_lookup)
    pure (elim row [ none ↦ none | some r ↦ some r.conversation_id ])

  unfoldable pub find_direct_conversation : ℕ → ℕ → Db ConversationError (Option ℕ)
  find_direct_conversation user1 user2 = find_hash (generate_pair_hash user1 user2)

  abbrev pub entry : ℕ → ℕ → ℕ → DirectRow
  entry user1 user2 conversation_id =
      let pair = sorted_pair user1 user2 in
      record {
        user_pair_hash = generate_pair_hash user1 user2;
        conversation_id = conversation_id;
        user1_id = pair.0;
        user2_id = pair.1;
        tenant_id = tenant;
      }

  -- `INSERT … ON CONFLICT (user_pair_hash) DO NOTHING`
  abbrev pub insert_entry : DirectRow → List DirectRow → List DirectRow
  insert_entry new rows =
      if any (λ r. r.user_pair_hash == new.user_pair_hash) rows then rows else rows ++ new ∷ []

  unfoldable pub register_direct_conversation_tx : ℕ → ℕ → ℕ → Db ConversationError (Unit {0})
  register_direct_conversation_tx user1 user2 conversation_id = write database (λ now t. record t {
    direct_lookup = insert_entry (entry user1 user2 conversation_id) t.direct_lookup;
  })

  abbrev pub new_row : ℕ → ConversationType → ℕ → Option String → ℕ → ℕ → ConversationRow
  new_row id kind created_by name count now = record {
    id = id;
    tenant_id = tenant;
    conversation_type = type_str kind;
    name = name;
    avatar_url = none;
    created_by = created_by;
    created_at = now;
    updated_at = now;
    participant_count = count;
    last_message_id = none;
    last_message_at = none;
  }

  -- `INSERT INTO conversations … RETURNING …`: a second row with an id is refused.
  abbrev pub insert_conversation : (ℕ → ConversationRow) → Db ConversationError ConversationRow
  insert_conversation row = do
    attempt database
    λ w. if any (λ r. r.id == (row w.now).id) w.tables.conversations then (err database, w) else (
      ok (row w.now),
      record w {
        tables = record (w.tables) { conversations = w.tables.conversations ++ row w.now ∷ [] };
      },
    )

  -- `INSERT INTO conversation_participants`: a second row of a user is refused.
  abbrev pub insert_participant : ℕ → ℕ → String → Db ConversationError (Unit {0})
  insert_participant c u role = do
    attempt database
    λ w. if any (is_row c u) w.tables.participants then (err database, w) else (
      ok tt,
      record w {
        tables = record (w.tables) {
          participants = w.tables.participants ++ joining tenant c u role w.now ∷ [];
        };
      },
    )

  unfoldable pub insert_participants : ℕ → ℕ → List ℕ → Db ConversationError (Unit {0})
  insert_participants c created_by [] = pure tt
  insert_participants c created_by (u ∷ us) = do
    insert_participant c u (if u == created_by then "owner" else "member")
    insert_participants c created_by us

  abbrev pub register_pair : Option (ℕ × ℕ) → ℕ → Db ConversationError (Unit {0})
  register_pair none id = pure tt
  register_pair (some (user1, user2)) id = register_direct_conversation_tx user1 user2 id

  -- The statements of the transaction of `create_conversation`.
  abbrev pub write_conversation :
      ℕ → ConversationType → ℕ → List ℕ → Option String → Db ConversationError ConversationRow
  write_conversation id kind created_by participants name = do
    row ← insert_conversation (new_row id kind created_by name (length participants))
    insert_participants id created_by participants
    register_pair (direct_pair kind participants) id
    pure row

  unfoldable pub store_conversation :
      ℕ → ConversationType → ℕ → List ℕ → Option String → Db ConversationError Conversation
  unfolding insert_participants register_direct_conversation_tx into_conversation
  store_conversation id kind created_by participants name = do
    row ← transaction database (write_conversation id kind created_by participants name)
    pure (into_conversation row)

  -- `get_conversation(…)?.ok_or(NotFound)`
  unfoldable pub existing_conversation : ℕ → Db ConversationError Conversation
  unfolding get_conversation
  existing_conversation id = do
    found ← get_conversation tenant id
    elim found [ none ↦ fail not_found | some c ↦ pure c ]

  -- A conversation that was found is returned, else `m` makes one.
  abbrev pub or_existing :
      Option ℕ → Db ConversationError Conversation → Db ConversationError Conversation
  or_existing (some existing) m = existing_conversation existing
  or_existing none m = m

  abbrev pub find_pair : Option (ℕ × ℕ) → Db ConversationError (Option ℕ)
  find_pair none = pure none
  find_pair (some (user1, user2)) = find_direct_conversation user1 user2

  unfoldable pub create_conversation :
      ℕ → ConversationType → ℕ → List ℕ → Option String → Db ConversationError Conversation
  unfolding find_direct_conversation existing_conversation store_conversation
  create_conversation id kind created_by participants name = do
    found ← find_pair (direct_pair kind participants)
    or_existing found (store_conversation id kind created_by participants name)

  unfoldable pub find_or_create_direct : ℕ → ℕ → ℕ → Db ConversationError Conversation
  unfolding find_direct_conversation existing_conversation create_conversation
  find_or_create_direct id user1 user2 = do
    found ← find_direct_conversation user1 user2
    or_existing found (create_conversation id direct user1 (user1 ∷ user2 ∷ []) none)
