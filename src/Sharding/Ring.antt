-- ===== src/Sharding/Ring.antt =====
-- `ConsistentHashRing` of infrastructure/sharding/mod.rs. The method `nodes` is `node_ids` here.
use Prim.Native.String.{String, compare, ◌++◌ as str_append}
use text.Mathlib.Text.{◌==◌ as str_eq, is_le}
use ara_chat_service.Base.{
  ℕ, ◌%◌, Bool, not, List, [], ◌∷◌, ◌++◌, map, Option, none, if◌then◌else◌, length, keep,
  range_from, get_elem?, is_empty,
}
use ara_chat_service.Base.Results.{Result, ok, err}
use ara_chat_service.Base.Sorting.{sort_by_key}
use ara_chat_service.Sharding.{Hashing, ShardId, shard_text}
use mathlib.Core.Option

-- The entries are pairs of a hash and the id of a node.
pub record ConsistentHashRing : Type 0 where
  pub nodes : List (ℕ × String)
  pub virtual_nodes : ℕ

unfoldable pub new : ℕ → ConsistentHashRing
new virtual_nodes = record { nodes = []; virtual_nodes = virtual_nodes }

abbrev pub hash_of : ℕ × String → ℕ
hash_of entry = entry.0

abbrev pub index_of : ConsistentHashRing → Result ℕ ℕ → ℕ
index_of ring (ok i) = i
index_of ring (err i) = i % length ring.nodes

module _ (hashing : Hashing) where
  -- The entry pushed for the virtual node `i`, hashed as `{node_id}#{i}`.
  abbrev pub virtual_entry : String → ℕ → ℕ × String
  virtual_entry node_id i =
      (hashing.hash_string (str_append node_id (str_append "#" (hashing.decimal i))), node_id)

  unfoldable pub add_node : ConsistentHashRing → String → ConsistentHashRing
  add_node ring node_id = record ring {
    nodes =
        sort_by_key (ring.nodes ++ map (virtual_entry node_id) (range_from 0 ring.virtual_nodes));
  }

  -- `none` also where the index is out of range, which panics.
  unfoldable pub get_node : ConsistentHashRing → String → Option String
  get_node ring key =
      let idx =
        index_of ring (hashing.binary_search (map hash_of ring.nodes) (hashing.hash_string key)) in
      if is_empty ring.nodes then none else Option.map (λ entry. entry.1) (get_elem? ring.nodes idx)

  unfoldable pub get_node_for_shard : ConsistentHashRing → ShardId → Option String
  unfolding get_node
  get_node_for_shard ring shard_id = get_node ring (shard_text hashing shard_id)

abbrev pub is_other : String → ℕ × String → Bool
is_other node_id entry = not (str_eq entry.1 node_id)

unfoldable pub remove_node : ConsistentHashRing → String → ConsistentHashRing
remove_node ring node_id = record ring { nodes = keep (is_other node_id) ring.nodes }

-- `sort` and `dedup` of texts.
abbrev pub place_text : String → List String → List String
place_text s [] = s ∷ []
place_text s (t ∷ ts) = if is_le (compare s t) then s ∷ t ∷ ts else t ∷ place_text s ts

abbrev pub sort_texts : List String → List String
sort_texts [] = []
sort_texts (s ∷ ss) = place_text s (sort_texts ss)

abbrev pub dedup : List String → List String
dedup [] = []
dedup (s ∷ []) = s ∷ []
dedup (s ∷ t ∷ ts) = if str_eq s t then dedup (t ∷ ts) else s ∷ dedup (t ∷ ts)

unfoldable pub node_ids : ConsistentHashRing → List String
node_ids ring = dedup (sort_texts (map (λ entry. entry.1) ring.nodes))
