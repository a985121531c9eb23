-- ===== src/Sharding/Routing.antt =====
-- `ShardRouter` of infrastructure/sharding/mod.rs: the sharder and the ring together.
use Prim.Native.String.{String}
use mathlib.Core.Option
use ara_chat_service.Base.{ℕ, Option}
use ara_chat_service.Sharding
use ara_chat_service.Sharding.{Hashing, ShardId, UserSharder}
use ara_chat_service.Sharding.Ring
use ara_chat_service.Sharding.Ring.{ConsistentHashRing, get_node_for_shard}

pub record ShardRouter : Type 0 where
  pub sharder : UserSharder
  pub ring : ConsistentHashRing

unfoldable pub new : ℕ → ℕ → Option ShardRouter
unfolding Ring.new
new shard_count virtual_nodes =
    Option.map (λ sharder. record { sharder = sharder; ring = Ring.new virtual_nodes })
      (Sharding.new shard_count)

module _ (hashing : Hashing) where
  unfoldable pub add_node : ShardRouter → String → ShardRouter
  add_node router node_id = record router { ring = Ring.add_node hashing router.ring node_id }

  unfoldable pub node_for_user : ShardRouter → ℕ → Option String
  unfolding get_node_for_shard
  node_for_user router user_id =
      get_node_for_shard hashing router.ring
        (Sharding.shard_for_user hashing router.sharder user_id)

  unfoldable pub node_for_conversation : ShardRouter → ℕ → Option String
  unfolding get_node_for_shard
  node_for_conversation router conversation_id =
      get_node_for_shard hashing router.ring
        (Sharding.shard_for_conversation hashing router.sharder conversation_id)

  unfoldable pub shard_for_user : ShardRouter → ℕ → ShardId
  shard_for_user router user_id = Sharding.shard_for_user hashing router.sharder user_id

  unfoldable pub shard_for_conversation : ShardRouter → ℕ → ShardId
  shard_for_conversation router conversation_id =
      Sharding.shard_for_conversation hashing router.sharder conversation_id

unfoldable pub remove_node : ShardRouter → String → ShardRouter
remove_node router node_id = record router { ring = Ring.remove_node router.ring node_id }
