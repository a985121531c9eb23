-- ===== src/Sharding/Lookup.antt =====
-- `get_node` of infrastructure/sharding/mod.rs on a ring that calls have built.
use Prim.Native.String.{String}
use mathlib.Core.Option
use ara_chat_service.Base.{
  ℕ, ◌%◌, ◌≤◌, ◌<◌, ◌≡◌, refl, ◌∙◌, sym, List, [], ◌∷◌, ◌++◌, map, range_from, Option, none, some,
  inl, inr, length, get_elem?, IsDistinct, ltb, Bool-cases, Option-cases, ◌↔◌, arith, ap,
}
use ara_chat_service.Base.Results.{Result, ok, err}
use ara_chat_service.Base.Sorting.{IsSorted, sort_by_key-IsSorted, keep-IsSorted}
use ara_chat_service.Sharding.{Hashing}
use ara_chat_service.Sharding.Ring.{
  ConsistentHashRing, new, add_node, remove_node, get_node, hash_of, index_of, is_other,
  virtual_entry,
}
use ara_chat_service.Sharding.Search.{
  Searches, IsAscending, id_of, owner, first_from, IsSorted-IsAscending, length-hashes,
  first_from_split, first_from_found, get_elem?_past, get_elem?_within,
}

pub data RingCall : Type 0 where
  add remove : String → RingCall

abbrev pub perform : Hashing → RingCall → ConsistentHashRing → ConsistentHashRing
perform hashing (add node_id) ring = add_node hashing ring node_id
perform hashing (remove node_id) ring = remove_node ring node_id

abbrev pub perform_all : Hashing → List RingCall → ConsistentHashRing → ConsistentHashRing
perform_all hashing [] ring = ring
perform_all hashing (c ∷ cs) ring = perform_all hashing cs (perform hashing c ring)

pub add_node-IsSorted :
    (hashing : Hashing) (ring : ConsistentHashRing) (node_id : String)
    → IsSorted (add_node hashing ring node_id).nodes
unfolding add_node
add_node-IsSorted hashing ring node_id =
    sort_by_key-IsSorted
      (ring.nodes ++ map (virtual_entry hashing node_id) (range_from 0 ring.virtual_nodes))

perform-IsSorted :
    (hashing : Hashing) (c : RingCall) (ring : ConsistentHashRing)
    → IsSorted ring.nodes
    → IsSorted (perform hashing c ring).nodes
unfolding remove_node
perform-IsSorted hashing (add node_id) ring s = add_node-IsSorted hashing ring node_id
perform-IsSorted hashing (remove node_id) ring s = keep-IsSorted (is_other node_id) ring.nodes s

pub perform_all-IsSorted :
    (hashing : Hashing) (cs : List RingCall) (ring : ConsistentHashRing)
    → IsSorted ring.nodes
    → IsSorted (perform_all hashing cs ring).nodes
perform_all-IsSorted hashing [] ring s = s
perform_all-IsSorted hashing (c ∷ cs) ring s =
    perform_all-IsSorted hashing cs (perform hashing c ring) (perform-IsSorted hashing c ring s)

-- Reading at the index that the search answered gives the owner.
owner_at :
    (es : List (ℕ × String)) (key i : ℕ)
    → first_from key es ≡ Option.map id_of (get_elem? es i)
    → i < length es
    → Option.map id_of (get_elem? es i) ≡ owner key es
owner_at es key i e h = let (x, g) = get_elem?_within es i h in rw (e, g) refl

owner_wrapped :
    (e : ℕ × String) (es : List (ℕ × String)) (key : ℕ)
    → first_from key (e ∷ es) ≡ none
    → some e.1 ≡ owner key (e ∷ es)
owner_wrapped e es key h = ground (arith, h)

mod_small : (i n : ℕ) → i < n → i % n ≡ i
mod_small i n h = grind arith

mod_whole : (i n : ℕ) → i ≡ n → 0 < n → i % n ≡ 0
mod_whole i n e h = rw e (grind arith)

owner-none : (k : ℕ) (es : List (ℕ × String)) → owner k es ≡ none → es ≡ []
owner-none k [] h = refl
owner-none k (e ∷ es) h = ground (arith, Option-cases (first_from k (e ∷ es)), h)

module _ (hashing : Hashing) (searches : Searches hashing.binary_search) (v : ℕ) where
  -- The entry read at the index that the search answers.
  abbrev entry_at : List (ℕ × String) → Result ℕ ℕ → Option String
  entry_at es r =
      Option.map id_of (get_elem? es (index_of (record { nodes = es; virtual_nodes = v }) r))

  entry_at-owner :
      (e : ℕ × String) (es : List (ℕ × String)) (key : ℕ) (r : Result ℕ ℕ)
      → IsSorted (e ∷ es)
      → IsDistinct (map hash_of (e ∷ es))
      → hashing.binary_search (map hash_of (e ∷ es)) key ≡ r
      → entry_at (e ∷ es) r ≡ owner key (e ∷ es)
  entry_at-owner e es key (ok i) s d b =
      let hs : List ℕ = map hash_of (e ∷ es) in
      let g : get_elem? hs i ≡ some key =
        searches.found hs key i (IsSorted-IsAscending (e ∷ es) s) b in
      elim (Bool-cases (ltb i (length (e ∷ es)))) [
        | inl h ↦
            owner_at (e ∷ es) key i (first_from_found (e ∷ es) key i s d g) (ground (arith, h))
        | inr h ↦ absurd (ground (arith, h, get_elem?_past {A = ℕ} hs i, length-hashes (e ∷ es)))
      ]
  entry_at-owner e es key (err i) s d b =
      let hs : List ℕ = map hash_of (e ∷ es) in
      let a : IsAscending hs = IsSorted-IsAscending (e ∷ es) s in
      let split : first_from key (e ∷ es) ≡ Option.map id_of (get_elem? (e ∷ es) i) =
        first_from_split (e ∷ es) key i (λ j h g l. searches.missing_below hs key i j h a b g l)
          (λ j h g l. searches.missing_above hs key i j h a b g l) in
      let le : i ≤ length hs = searches.missing_le hs key i a b in
      let n : length hs ≡ length (e ∷ es) = length-hashes (e ∷ es) in
      elim (Bool-cases (ltb i (length (e ∷ es)))) [
        | inl h ↦
            let small : i % length (e ∷ es) ≡ i =
              mod_small i (length (e ∷ es)) (ground (arith, h)) in
            rw small (owner_at (e ∷ es) key i split (ground (arith, h)))
        | inr h ↦
            let whole : i ≡ length (e ∷ es) = ground (arith, h) in
            let zero_mod : i % length (e ∷ es) ≡ 0 =
              mod_whole i (length (e ∷ es)) whole (omega arith) in
            rw zero_mod (
              owner_wrapped e es key
                (split ∙ ap (Option.map id_of) (get_elem?_past (e ∷ es) i (omega (arith, whole)))))
      ]

  get_node_from :
      (es : List (ℕ × String)) (key : String)
      → IsSorted es
      → IsDistinct (map hash_of es)
      → get_node hashing (record { nodes = es; virtual_nodes = v }) key
        ≡ owner (hashing.hash_string key) es
  unfolding get_node
  get_node_from [] key s d = refl
  get_node_from (e ∷ es) key s d =
      entry_at-owner e es (hashing.hash_string key)
        (hashing.binary_search (map hash_of (e ∷ es)) (hashing.hash_string key)) s d refl

pub get_node-owner :
    (hashing : Hashing) (searches : Searches hashing.binary_search) (ring : ConsistentHashRing)
    (key : String)
    → IsSorted ring.nodes
    → IsDistinct (map hash_of ring.nodes)
    → get_node hashing ring key ≡ owner (hashing.hash_string key) ring.nodes
get_node-owner hashing searches ring key s d =
    get_node_from hashing searches ring.virtual_nodes ring.nodes key s d

-- On a ring that calls have built, with a binary search as the standard library documents it and
-- no two entries with one hash, `get_node` answers the node of the first entry whose hash is not
-- below the hash of the key, or of the first entry of the ring if there is none; it answers nothing
-- just on an empty ring.
pub get_node-perform_all :
    (hashing : Hashing) (cs : List RingCall) (v : ℕ) (key : String)
    → Searches hashing.binary_search
    → IsDistinct (map hash_of (perform_all hashing cs (new v)).nodes)
    → (get_node hashing (perform_all hashing cs (new v)) key
        ≡ owner (hashing.hash_string key) (perform_all hashing cs (new v)).nodes)
      × ((get_node hashing (perform_all hashing cs (new v)) key ≡ none)
          ↔ ((perform_all hashing cs (new v)).nodes ≡ []))
unfolding new
get_node-perform_all hashing cs v key searches d =
    let ring : ConsistentHashRing = perform_all hashing cs (new v) in
    let e : get_node hashing ring key ≡ owner (hashing.hash_string key) ring.nodes =
      get_node-owner hashing searches ring key (perform_all-IsSorted hashing cs (new v) tt) d in
    (
      e,
      (
        λ h. owner-none (hashing.hash_string key) ring.nodes (sym e ∙ h),
        λ h. e ∙ ap (owner (hashing.hash_string key)) h,
      ),
    )
