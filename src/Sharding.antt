-- ===== src/Sharding.antt =====
-- infrastructure/sharding/mod.rs: users and conversations on shards, and shards on the nodes of a
-- ring of hashes. The hashes of `DefaultHasher`, the decimal texts and the binary search of the
-- standard library are parameters; an identifier of a user or a conversation is a number.
pub mod Ring
pub mod Routing
pub mod Search
pub mod Lookup
pub mod Consistency
pub mod Shards
pub mod Examples
use Prim.Native.String.{String, ◌++◌ as str_append}
use ara_chat_service.Base.{
  ℕ, ◌+◌, ◌-◌, ◌*◌, ◌/◌, ◌%◌, ◌^◌, Bool, not, ◌&&◌, List, [], ◌∷◌, ◌++◌, map, Option, none, some,
  ltb, leb, ◌==◌, if◌then◌else◌, length, keep, any, range_from, get_elem?, is_empty,
}
use ara_chat_service.Base.Results.{Result}

-- `hash` of `DefaultHasher`, `{}` and `{:04}` of a number, and `binary_search` on a sorted slice.
pub record Hashing : Type 0 where
  pub hash_uuid : ℕ → ℕ
  pub hash_string : String → ℕ
  pub decimal : ℕ → String
  pub padded : ℕ → String
  pub binary_search : List ℕ → ℕ → Result ℕ ℕ

abbrev pub default_shard_count : ℕ
default_shard_count = 1024

abbrev pub u32 : ℕ
u32 = 2 ^ 32

-- `ShardId(n)` is the number `n`.
abbrev pub ShardId : Type 0
ShardId = ℕ

unfoldable pub shard_group : ShardId → ℕ
shard_group shard = shard / 64

unfoldable pub shard_text : Hashing → ShardId → String
shard_text hashing shard = str_append "shard-" (hashing.padded shard)

pub record UserSharder : Type 0 where
  pub shard_count : ℕ

abbrev pub is_power_of_two : ℕ → Bool
is_power_of_two n = any (λ k. n == 2 ^ k) (range_from 0 32)

-- `none` is the panic of the assertion.
unfoldable pub new : ℕ → Option UserSharder
new shard_count =
    if ltb 0 shard_count && is_power_of_two shard_count
    then some (record { shard_count = shard_count })
    else none

module _ (hashing : Hashing) where
  unfoldable pub shard_for_user : UserSharder → ℕ → ShardId
  shard_for_user sharder user_id = hashing.hash_uuid user_id % u32 % sharder.shard_count

  unfoldable pub shard_for_conversation : UserSharder → ℕ → ShardId
  shard_for_conversation sharder conversation_id =
      hashing.hash_uuid conversation_id % u32 % sharder.shard_count

  unfoldable pub shard_for_message : UserSharder → ℕ → ShardId
  unfolding shard_for_conversation
  shard_for_message sharder conversation_id = shard_for_conversation sharder conversation_id

unfoldable pub all_shards : UserSharder → List ShardId
all_shards sharder = range_from 0 sharder.shard_count

-- `start..end`, empty where `end` is not above `start`.
abbrev pub range : ℕ → ℕ → List ℕ
range start end = range_from start (end - start)

-- The arithmetic of `u32` without the checks of a debug build; a `group_count` of 0 panics.
unfoldable pub shards_in_group : UserSharder → ℕ → ℕ → Option (List ShardId)
shards_in_group sharder group group_count =
    let shards_per_group = sharder.shard_count / group_count in
    let start = (group * shards_per_group) % u32 in
    let end = (start + shards_per_group) % u32 in
    if group_count == 0 then none else some (range start end)
