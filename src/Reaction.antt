-- ===== src/Reaction.antt =====
-- domain/reaction/service.rs: the reactions to messages. The partition of a message is the day of
-- its insertion. A hash map by emoji is an association list.
pub mod Reading
pub mod Grouping
pub mod Queries
pub mod Standing
pub mod Toggling
pub mod Examples
use Prim.Native.String
use Prim.Native.String.{String}
use text.Mathlib.Text.{◌==◌ as str_eq}
use ara_chat_service.Base.{
  ℕ, zero, suc, ◌+◌, ◌/◌, ◌%◌, ◌^◌, ◌++◌, Bool, true, false, not, ◌&&◌, ◌||◌, List, [], ◌∷◌, Option,
  none, some, ◌==◌, ltb, if◌then◌else◌, length, contains, find, any, keep, map, is_empty,
}
use ara_chat_service.Base.Map.{get, insert}
use ara_chat_service.Base.Sorting.{sort_by_key}
use ara_chat_service.Base.Results.{Result, ok, err}
use ara_chat_service.Database.{
  MessageRow, ReactionRow, Tables, World, Db, pure, fail, ◌>>=◌, ◌>>◌, attempt, select, select_one,
  write, continue,
}

pub data ReactionAction : Type 0 where
  add remove : ReactionAction

-- The texts of the errors of the database are left out.
pub data ReactionError : Type 0 where
  database invalid_emoji message_not_found : ReactionError

abbrev pub partition_of : Option MessageRow → Option ℕ
partition_of none = none
partition_of (some r) = some (r.created_at / 86400000)

unfoldable pub get_message_partition_key : ℕ → Db ReactionError (Option ℕ)
get_message_partition_key message_id =
    select database (λ t. partition_of (find (λ r. r.id == message_id) t.messages))

-- The row of a reaction, in any partition and in one.
abbrev pub is_reaction : ℕ → ℕ → String → ReactionRow → Bool
is_reaction message_id user_id emoji r =
    r.message_id == message_id && r.user_id == user_id && str_eq r.emoji emoji

abbrev pub is_reaction_in : ℕ → ℕ → String → ℕ → ReactionRow → Bool
is_reaction_in message_id user_id emoji partition_key r =
    is_reaction message_id user_id emoji r && r.message_partition_key == partition_key

unfoldable pub has_reaction_with_partition : ℕ → ℕ → String → ℕ → Db ReactionError Bool
has_reaction_with_partition message_id user_id emoji partition_key =
    select_one database
      (λ t. any (is_reaction_in message_id user_id emoji partition_key) t.reactions)

unfoldable pub has_reaction : ℕ → ℕ → String → Db ReactionError Bool
has_reaction message_id user_id emoji =
    select_one database (λ t. any (is_reaction message_id user_id emoji) t.reactions)

-- `INSERT … ON CONFLICT (message_id, message_partition_key, user_id, emoji) DO NOTHING`
abbrev pub insert_reaction : ℕ → ℕ → String → ℕ → ℕ → List ReactionRow → List ReactionRow
insert_reaction message_id user_id emoji partition_key now rows =
    if any (is_reaction_in message_id user_id emoji partition_key) rows
    then rows
    else rows
      ++ record {
        message_id = message_id;
        message_partition_key = partition_key;
        user_id = user_id;
        emoji = emoji;
        created_at = now;
      }
        ∷ []

unfoldable pub add_reaction_with_partition : ℕ → ℕ → String → ℕ → Db ReactionError (Unit {0})
add_reaction_with_partition message_id user_id emoji partition_key = write database (λ now t.
    record t { reactions = insert_reaction message_id user_id emoji partition_key now t.reactions })

abbrev pub delete_reaction : ℕ → ℕ → String → ℕ → List ReactionRow → List ReactionRow
delete_reaction message_id user_id emoji partition_key =
    keep (λ r. not (is_reaction_in message_id user_id emoji partition_key r))

unfoldable pub remove_reaction_with_partition : ℕ → ℕ → String → ℕ → Db ReactionError (Unit {0})
remove_reaction_with_partition message_id user_id emoji partition_key = write database (λ now t.
    record t { reactions = delete_reaction message_id user_id emoji partition_key t.reactions })

-- `is_empty() || len() > 32`, in bytes
abbrev pub is_invalid : String → Bool
is_invalid emoji = String.len emoji == 0 || ltb 32 (String.len emoji)

-- The end of `toggle_reaction`, where it knows whether the reaction exists.
unfoldable pub switch : ℕ → ℕ → String → ℕ → Bool → Db ReactionError ReactionAction
unfolding add_reaction_with_partition remove_reaction_with_partition
switch message_id user_id emoji partition_key true = do
  remove_reaction_with_partition message_id user_id emoji partition_key
  pure remove
switch message_id user_id emoji partition_key false = do
  add_reaction_with_partition message_id user_id emoji partition_key
  pure add

unfoldable pub toggle_in : ℕ → ℕ → String → Option ℕ → Db ReactionError ReactionAction
unfolding has_reaction_with_partition switch
toggle_in message_id user_id emoji none = fail message_not_found
toggle_in message_id user_id emoji (some partition_key) = do
  exists ← has_reaction_with_partition message_id user_id emoji partition_key
  switch message_id user_id emoji partition_key exists

unfoldable pub toggle_reaction : ℕ → ℕ → String → Db ReactionError ReactionAction
unfolding get_message_partition_key toggle_in
toggle_reaction message_id user_id emoji = if is_invalid emoji then fail invalid_emoji else (do
  partition_key ← get_message_partition_key message_id
  toggle_in message_id user_id emoji partition_key)
