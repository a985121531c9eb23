-- ===== src/Sharding/Examples.antt =====
-- A ring with the nodes a and b, of two virtual nodes each, and a scan for the binary search.
use Prim.Native.String.{String, len}
use text.Mathlib.Text.{◌==◌ as str_eq}
use ara_chat_service.Base.{
  ℕ, zero, suc, ◌*◌, ◌≤◌, ◌<◌, ◌≡◌, refl, true, List, [], ◌∷◌, none, some, ltb, ◌==◌, if◌then◌else◌,
  length, Bool-cases, inl, inr, get_elem?, contains, ◌↔◌, arith,
}
use ara_chat_service.Base.Results.{Result, ok, err}
use ara_chat_service.Sharding
use ara_chat_service.Sharding.{
  Hashing, UserSharder, shard_for_user, shard_for_conversation, shard_for_message, all_shards,
  shards_in_group, shard_group, default_shard_count,
}
use ara_chat_service.Sharding.Ring.{new, add_node, remove_node, get_node, node_ids}
use ara_chat_service.Sharding.Search.{Searches, IsAscending, owner}
use ara_chat_service.Sharding.Lookup.{RingCall, add, perform_all, get_node-perform_all}
use ara_chat_service.Sharding.Consistency.{remove_node-add_node, get_node-remove_node}
use ara_chat_service.Sharding.Shards.{shard_for_bounds}

abbrev behind : Result ℕ ℕ → Result ℕ ℕ
behind (ok i) = ok (suc i)
behind (err i) = err (suc i)

abbrev scan : List ℕ → ℕ → Result ℕ ℕ
scan [] key = err 0
scan (h ∷ hs) key =
    let rest = behind (scan hs key) in
    if h == key then ok 0 else (if ltb key h then err 0 else rest)

abbrev Agrees : List ℕ → ℕ → Result ℕ ℕ → Type 0
Agrees hs key (ok i) = get_elem? hs i ≡ some key
Agrees hs key (err i) =
    (i ≤ length hs)
    × ((j h : ℕ) → get_elem? hs j ≡ some h → j < i → h < key)
    × ((j h : ℕ) → get_elem? hs j ≡ some h → i ≤ j → key < h)

least : (x : ℕ) (hs : List ℕ) (j h : ℕ) → IsAscending (x ∷ hs) → get_elem? hs j ≡ some h → x ≤ h
least x [] j h a g = cc
least x (y ∷ ys) zero h a g = ground (arith, g)
least x (y ∷ ys) (suc j) h a g = ground (arith, least y ys j h a.1 g)

above_all :
    (x key : ℕ) (hs : List ℕ) (j h : ℕ)
    → IsAscending (x ∷ hs)
    → key < x
    → get_elem? (x ∷ hs) j ≡ some h
    → key < h
above_all x key hs zero h a l g = ground (arith, g)
above_all x key hs (suc j) h a l g = ground (arith, least x hs j h a g)

tail-IsAscending : (x : ℕ) (hs : List ℕ) → IsAscending (x ∷ hs) → IsAscending hs
tail-IsAscending x [] a = tt
tail-IsAscending x (y ∷ ys) a = a.1

behind-Agrees :
    (x key : ℕ) (hs : List ℕ) (r : Result ℕ ℕ)
    → x < key
    → Agrees hs key r
    → Agrees (x ∷ hs) key (behind r)
behind-Agrees x key hs (ok i) l a = a
behind-Agrees x key hs (err i) l a =
    (omega (arith, a.0), λ j h g b. below j h g b, λ j h g b. above j h g b)
  where
    below : (j h : ℕ) → get_elem? (x ∷ hs) j ≡ some h → j < suc i → h < key
    below zero h g b = ground (arith, g)
    below (suc j) h g b = a.1 j h g (omega arith)

    above : (j h : ℕ) → get_elem? (x ∷ hs) j ≡ some h → suc i ≤ j → key < h
    above zero h g b = absurd (omega arith)
    above (suc j) h g b = a.2 j h g (omega arith)

scan-Agrees : (hs : List ℕ) (key : ℕ) → IsAscending hs → Agrees hs key (scan hs key)
scan-Agrees [] key a = (omega arith, λ j h g b. absurd (omega arith), λ j h g b. absurd (cc g))
scan-Agrees (x ∷ hs) key a = elim (Bool-cases (x == key)) [
  | inl same ↦ rw same (ground (arith, same))
  | inr other ↦ elim (Bool-cases (ltb key x)) [
    | inl before ↦
        rw (other, before)
          (
            omega arith,
            λ j h g b. absurd (omega arith),
            λ j h g b. above_all x key hs j h a (ground (arith, before)) g,
          )
    | inr after ↦
        rw (other, after)
          (behind-Agrees x key hs (scan hs key) (ground (arith, other, after))
            (scan-Agrees hs key (tail-IsAscending x hs a)))
  ]
]

scan-Searches : Searches scan
scan-Searches = record {
  found = λ hs key i a e. rw e at (scan-Agrees hs key a);
  missing_le = λ hs key i a e. (rw e at (scan-Agrees hs key a)).0;
  missing_below = λ hs key i j h a e. (rw e at (scan-Agrees hs key a)).1 j h;
  missing_above = λ hs key i j h a e. (rw e at (scan-Agrees hs key a)).2 j h;
}

abbrev hash_text : String → ℕ
hash_text s =
    if str_eq s "a#0"
    then 10
    else (if str_eq s "b#0"
        then 20
        else (if str_eq s "a#1" then 30 else (if str_eq s "b#1" then 40 else len s)))

abbrev digits : ℕ → String
digits n = if n == 0 then "0" else "1"

abbrev hashing : Hashing
hashing = record {
  hash_uuid = λ id. id * 7919;
  hash_string = hash_text;
  decimal = digits;
  padded = λ n. "0007";
  binary_search = scan;
}

abbrev calls : List RingCall
calls = add "b" ∷ add "a" ∷ []

wraps :
    get_node hashing
      (perform_all hashing calls (new 2))
      "a key of more than forty bytes, so of a high hash"
    ≡ some "a"
unfolding get_node add_node new
wraps = refl

both_nodes : node_ids (perform_all hashing calls (new 2)) ≡ "a" ∷ "b" ∷ []
unfolding node_ids add_node new
both_nodes = refl

get_node-perform_all_example :
    (get_node hashing (perform_all hashing calls (new 2)) "a key of 19 bytes.."
      ≡ owner 19 (perform_all hashing calls (new 2)).nodes)
    × ((get_node hashing (perform_all hashing calls (new 2)) "a key of 19 bytes.." ≡ none)
        ↔ ((perform_all hashing calls (new 2)).nodes ≡ []))
unfolding add_node new
get_node-perform_all_example =
    get_node-perform_all hashing calls 2 "a key of 19 bytes.." scan-Searches
      (refl, (refl, (refl, (refl, tt))))

remove_node-add_node_example :
    remove_node (add_node hashing (perform_all hashing (add "b" ∷ []) (new 2)) "a") "a"
    ≡ perform_all hashing (add "b" ∷ []) (new 2)
unfolding add_node new
remove_node-add_node_example = remove_node-add_node hashing (add "b" ∷ []) 2 "a" (refl, (refl, tt))

get_node-remove_node_example :
    get_node hashing (remove_node (perform_all hashing calls (new 2)) "a") "a key of 19 bytes.."
    ≡ some "b"
unfolding get_node add_node new
get_node-remove_node_example =
    get_node-remove_node hashing calls 2 "a" "a key of 19 bytes.." "b" scan-Searches
      (refl, (refl, (refl, (refl, tt)))) refl refl

abbrev eight : UserSharder
eight = record { shard_count = 8 }

three_is_refused : Sharding.new 3 ≡ none
unfolding Sharding.new
three_is_refused = refl

shard_for_bounds_example :
    (contains (shard_for_user hashing eight 5) (all_shards eight) ≡ true)
    × (contains (shard_for_message hashing eight 5) (all_shards eight) ≡ true)
    × (shard_for_message hashing eight 5 ≡ shard_for_conversation hashing eight 5)
    × (shard_for_user hashing eight 5 < 8)
unfolding Sharding.new
shard_for_bounds_example = shard_for_bounds hashing 8 eight 5 refl
