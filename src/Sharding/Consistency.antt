-- ===== src/Sharding/Consistency.antt =====
-- How the ring of infrastructure/sharding/mod.rs changes with its nodes.
use Prim.Native.String.{String}
use text.Mathlib.Text.{◌==◌ as str_eq}
use text.Mathlib.TextPositions.{eq_refl}
use text.Mathlib.TextEquality.{eq_iff}
use mathlib.Core.List.{append-nil}
use ara_chat_service.Base.{
  ℕ, ◌≡◌, refl, ◌∙◌, sym, true, false, List, [], ◌∷◌, ◌++◌, map, range_from, none, some, inl, inr,
  ◌⊎◌, keep, keep-append, contains, IsDistinct, Bool-cases, Option-cases, arith, ap,
}
use ara_chat_service.Base.Sorting.{
  IsSorted, sort_by_key, keep-IsSorted, keep-sort_by_key, sort_by_key_sorted,
}
use ara_chat_service.Sharding.{Hashing}
use ara_chat_service.Sharding.Ring.{
  ConsistentHashRing, new, add_node, remove_node, get_node, hash_of, is_other, virtual_entry,
}
use ara_chat_service.Sharding.Search.{Searches, owner, first_from, first_id}
use ara_chat_service.Sharding.Lookup.{
  RingCall, perform_all, perform_all-IsSorted, get_node-owner, add_node-IsSorted,
}

-- No entry of the ring is of the node.
abbrev pub IsAbsent : String → List (ℕ × String) → Type 0
IsAbsent node_id [] = Unit {0}
IsAbsent node_id (e ∷ es) = (str_eq e.1 node_id ≡ false) × IsAbsent node_id es

keep_absent :
    (node_id : String) (es : List (ℕ × String))
    → IsAbsent node_id es
    → keep (is_other node_id) es ≡ es
keep_absent node_id [] h = refl
keep_absent node_id (e ∷ es) h = rw h.0 (ap (λ r. e ∷ r) (keep_absent node_id es h.1))

keep_virtual :
    (hashing : Hashing) (node_id : String) (is : List ℕ)
    → str_eq node_id node_id ≡ true
    → keep (is_other node_id) (map (virtual_entry hashing node_id) is) ≡ []
keep_virtual hashing node_id [] e = refl
keep_virtual hashing node_id (i ∷ is) e = rw e (keep_virtual hashing node_id is e)

remove_sorted :
    (hashing : Hashing) (ring : ConsistentHashRing) (node_id : String)
    → IsSorted ring.nodes
    → IsAbsent node_id ring.nodes
    → remove_node (add_node hashing ring node_id) node_id ≡ ring
unfolding remove_node add_node
remove_sorted hashing ring node_id s h =
    let vs : List (ℕ × String) =
      map (virtual_entry hashing node_id) (range_from 0 ring.virtual_nodes) in
    let rest : keep (is_other node_id) ring.nodes ++ keep (is_other node_id) vs ≡ ring.nodes =
      rw
        (
          keep_absent node_id ring.nodes h,
          keep_virtual hashing node_id (range_from 0 ring.virtual_nodes) (eq_refl node_id),
        )
        (append-nil ring.nodes) in
    let e : keep (is_other node_id) (sort_by_key (ring.nodes ++ vs)) ≡ ring.nodes =
      keep-sort_by_key (is_other node_id) (ring.nodes ++ vs)
      ∙ ap sort_by_key (keep-append (is_other node_id) ring.nodes vs ∙ rest)
      ∙ sort_by_key_sorted ring.nodes s in
    ap (λ es. record ring { nodes = es }) e

first_from-keep :
    (r : String) (k : ℕ) (es : List (ℕ × String)) (n : String)
    → first_from k es ≡ some n
    → str_eq n r ≡ false
    → first_from k (keep (is_other r) es) ≡ some n
first_from-keep r k [] n h d = cc
first_from-keep r k (e ∷ es) n h d = ground (arith, first_from-keep r k es n, h, d)

first_from-keep-none :
    (r : String) (k : ℕ) (es : List (ℕ × String))
    → first_from k es ≡ none
    → first_from k (keep (is_other r) es) ≡ none
first_from-keep-none r k [] h = refl
first_from-keep-none r k (e ∷ es) h = ground (arith, first_from-keep-none r k es, h)

first_id-keep :
    (r : String) (es : List (ℕ × String)) (n : String)
    → first_id es ≡ some n
    → str_eq n r ≡ false
    → first_id (keep (is_other r) es) ≡ some n
first_id-keep r [] n h d = cc
first_id-keep r (e ∷ es) n h d = ground (arith, h, d)

owner-keep :
    (r : String) (k : ℕ) (es : List (ℕ × String)) (n : String)
    → owner k es ≡ some n
    → str_eq n r ≡ false
    → owner k (keep (is_other r) es) ≡ some n
owner-keep r k es n h d = elim (Option-cases (first_from k es)) [
  | inl e ↦ rw (first_from-keep-none r k es e) (first_id-keep r es n (rw e at h) d)
  | inr (m, e) ↦
      let same : some m ≡ some n = rw e at h in rw (first_from-keep r k es n (e ∙ same) d) refl
]

contains-keep_hashes :
    (r : String) (h : ℕ) (es : List (ℕ × String))
    → contains h (map hash_of es) ≡ false
    → contains h (map hash_of (keep (is_other r) es)) ≡ false
contains-keep_hashes r h [] c = refl
contains-keep_hashes r h (e ∷ es) c = ground (arith, contains-keep_hashes r h es, c)

IsDistinct-keep_hashes :
    (r : String) (es : List (ℕ × String))
    → IsDistinct (map hash_of es)
    → IsDistinct (map hash_of (keep (is_other r) es))
IsDistinct-keep_hashes r [] d = tt
IsDistinct-keep_hashes r (e ∷ es) d =
    ground (arith, contains-keep_hashes r e.0 es d.0, IsDistinct-keep_hashes r es d.1)

remove_moves :
    (hashing : Hashing) (ring : ConsistentHashRing) (r key n : String)
    → Searches hashing.binary_search
    → IsSorted ring.nodes
    → IsDistinct (map hash_of ring.nodes)
    → get_node hashing ring key ≡ some n
    → str_eq n r ≡ false
    → get_node hashing (remove_node ring r) key ≡ some n
unfolding remove_node
remove_moves hashing ring r key n searches s d h other =
    get_node-owner hashing searches (record ring { nodes = keep (is_other r) ring.nodes }) key
      (keep-IsSorted (is_other r) ring.nodes s) (IsDistinct-keep_hashes r ring.nodes d)
    ∙ owner-keep r (hashing.hash_string key) ring.nodes n
        (sym (get_node-owner hashing searches ring key s d) ∙ h) other

add_moves :
    (hashing : Hashing) (ring : ConsistentHashRing) (node_id key n : String)
    → Searches hashing.binary_search
    → IsSorted ring.nodes
    → IsAbsent node_id ring.nodes
    → IsDistinct (map hash_of (add_node hashing ring node_id).nodes)
    → get_node hashing (add_node hashing ring node_id) key ≡ some n
    → (n ≡ node_id) ⊎ (get_node hashing ring key ≡ some n)
add_moves hashing ring node_id key n searches s absent d h = elim (Bool-cases (str_eq n node_id)) [
  | inl same ↦ inl ((eq_iff n node_id).0 same)
  | inr other ↦ inr (
      rw (remove_sorted hashing ring node_id s absent) at (
        remove_moves hashing (add_node hashing ring node_id) node_id key n searches
          (add_node-IsSorted hashing ring node_id) d h other))
]

module _ (hashing : Hashing) (cs : List RingCall) (v : ℕ) where
  -- On a ring that calls have built, removing a node right after it was added restores the ring, if
  -- the ring had no entry of the node.
  pub remove_node-add_node :
      (node_id : String)
      → IsAbsent node_id (perform_all hashing cs (new v)).nodes
      → remove_node (add_node hashing (perform_all hashing cs (new v)) node_id) node_id
        ≡ perform_all hashing cs (new v)
  unfolding new
  remove_node-add_node node_id absent =
      remove_sorted hashing (perform_all hashing cs (new v)) node_id
        (perform_all-IsSorted hashing cs (new v) tt) absent

  -- On a ring that calls have built, whose entries have distinct hashes, and with a binary search as
  -- documented: removing a node moves no key that another node owns.
  pub get_node-remove_node :
      (node_id key n : String)
      → Searches hashing.binary_search
      → IsDistinct (map hash_of (perform_all hashing cs (new v)).nodes)
      → get_node hashing (perform_all hashing cs (new v)) key ≡ some n
      → str_eq n node_id ≡ false
      → get_node hashing (remove_node (perform_all hashing cs (new v)) node_id) key ≡ some n
  unfolding new
  get_node-remove_node node_id key n searches d h other =
      remove_moves hashing (perform_all hashing cs (new v)) node_id key n searches
        (perform_all-IsSorted hashing cs (new v) tt) d h other

  -- Adding a node to a ring that calls have built and that has no entry of it, with a binary search
  -- as documented and distinct hashes afterwards: every key goes to the new node or stays with the
  -- node that it was with.
  pub get_node-add_node :
      (node_id key n : String)
      → Searches hashing.binary_search
      → IsAbsent node_id (perform_all hashing cs (new v)).nodes
      → IsDistinct (map hash_of (add_node hashing (perform_all hashing cs (new v)) node_id).nodes)
      → get_node hashing (add_node hashing (perform_all hashing cs (new v)) node_id) key ≡ some n
      → (n ≡ node_id) ⊎ (get_node hashing (perform_all hashing cs (new v)) key ≡ some n)
  unfolding new
  get_node-add_node node_id key n searches absent d h =
      add_moves hashing (perform_all hashing cs (new v)) node_id key n searches
        (perform_all-IsSorted hashing cs (new v) tt) absent d h
