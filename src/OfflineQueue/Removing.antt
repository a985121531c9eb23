-- ===== src/OfflineQueue/Removing.antt =====
-- `remove_message` of domain/message/offline_queue.rs.
use Prim.Native.String.{String}
use text.Mathlib.TextEquality.{eq_iff}
use ara_chat_service.Base.{
  ℕ, ◌≡◌, refl, ◌∙◌, sym, ap, Bool, true, false, List, [], ◌∷◌, Option, none, some, inl, inr, ◌==◌,
  if◌then◌else◌, Option-cases, Bool-cases, arith,
}
use ara_chat_service.Base.Results.{ok}
use ara_chat_service.Base.Offsets.{pos, negsuc, slice_all}
use ara_chat_service.Redis.Lists.{RedisLists, Documented, IsUp, text_in, remove_first}
use ara_chat_service.OfflineQueue.{
  QueuedMessage, QueueSerde, text_with_id, remove_text, remove_message,
}
use ara_chat_service.OfflineQueue.Queueing.{AreLimits, on_redis}

abbrev pub is_some : {A : Type 0} → Option A → Bool
is_some none = false
is_some (some a) = true

-- The list without its first entry that parses and has the id.
unfoldable pub without : QueueSerde → ℕ → List String → List String
without serde id [] = []
without serde id (text ∷ texts) = elim (serde.from_str text) [
  | none ↦ text ∷ without serde id texts
  | some queued ↦ if queued.id == id then texts else text ∷ without serde id texts
]

abbrev has_id : ℕ → Option QueuedMessage → Bool
has_id id none = false
has_id id (some q) = q.id == id

-- The text that the loop finds parses to the id.
found_parses :
    (serde : QueueSerde) (id : ℕ) (texts : List String) (t : String)
    → text_with_id serde id texts ≡ some t
    → has_id id (serde.from_str t) ≡ true
unfolding text_with_id
found_parses serde id [] t h = cc
found_parses serde id (text ∷ texts) t h =
    ground (arith, h, Option-cases (serde.from_str text), found_parses serde id texts t)

-- No earlier text parses to the id, so it is the first of its kind, which Redis removes.
found_first :
    (serde : QueueSerde) (id : ℕ) (texts : List String) (t : String)
    → text_with_id serde id texts ≡ some t
    → (remove_first t texts ≡ without serde id texts) × (text_in t texts ≡ true)
unfolding text_with_id without
found_first serde id [] t h = cc
found_first serde id (text ∷ texts) t h = ground (
  arith,
  h,
  eq_iff text t,
  Option-cases (serde.from_str text),
  found_parses serde id texts t,
  found_first serde id texts t,
)

absent_without :
    (serde : QueueSerde) (id : ℕ) (texts : List String)
    → text_with_id serde id texts ≡ none
    → without serde id texts ≡ texts
unfolding text_with_id without
absent_without serde id [] h = refl
absent_without serde id (text ∷ texts) h =
    ground (arith, h, Option-cases (serde.from_str text), absent_without serde id texts)

module _ {S : Type 0} (items : ℕ → S → List String) where
  same_list :
      (u j : ℕ) (s : S) (texts rest : List String)
      → items u s ≡ texts
      → rest ≡ texts
      → items j s ≡ (if u == j then rest else items j s)
  same_list u j s texts rest e f = elim (Bool-cases (u == j)) [
    | inl h ↦ let k : u ≡ j = ground (arith, h) in rw h (ap (λ n. items n s) (sym k) ∙ e ∙ sym f)
    | inr h ↦ rw h refl
  ]

  cut :
      (u j : ℕ) (s : S) (texts rest : List String) (t : String)
      → items u s ≡ texts
      → remove_first t texts ≡ rest
      → (if u == j then remove_first t (items j s) else items j s)
        ≡ (if u == j then rest else items j s)
  cut u j s texts rest t e f = elim (Bool-cases (u == j)) [
    | inl h ↦
        let k : u ≡ j = ground (arith, h) in
        rw h (ap (λ n. remove_first t (items n s)) (sym k) ∙ ap (remove_first t) e ∙ f)
    | inr h ↦ rw h refl
  ]

module _ {S : Type 0} (serde : QueueSerde) (r : RedisLists S) (items : ℕ → S → List String)
    (laws : Documented r items) (max ttl : ℕ) (limits : AreLimits max ttl) where
  remove_text_step :
      (u id : ℕ) (texts : List String) (s : S) (j : ℕ) (found : Option String)
      → IsUp r
      → items u s ≡ texts
      → text_with_id serde id texts ≡ found
      → ((remove_text serde (on_redis r max ttl) r u found s).0 ≡ ok (is_some found))
        × (items j (remove_text serde (on_redis r max ttl) r u found s).1
            ≡ (if u == j then without serde id texts else items j s))
  remove_text_step u id texts s j none up e f = (
    refl,
    same_list items u j s texts (without serde id texts) e (absent_without serde id texts f),
  )
  remove_text_step u id texts s j (some t) up e f =
      let (n, k) = up.removes u t s in
      let (first, present) = found_first serde id texts t f in
      let one : n ≡ 1 =
        laws.removed u t s n k ∙ ap (λ xs. if text_in t xs then 1 else 0) e ∙ rw present refl in
      rw (k, one)
        (
          refl,
          laws.remove_keeps u t j s n k ∙ cut items u j s texts (without serde id texts) t e first,
        )

  -- With a Redis that answers, `remove_message` takes the first entry with the id out of the user's
  -- list and returns true, or changes no list and returns false if there is none.
  remove_message_lem :
      (u id : ℕ) (s : S) (j : ℕ)
      → IsUp r
      → ((remove_message serde (on_redis r max ttl) u id s).0
          ≡ ok (is_some (text_with_id serde id (items u s))))
        × (items j (remove_message serde (on_redis r max ttl) u id s).1
            ≡ (if u == j then without serde id (items u s) else items j s))
  unfolding remove_message
  remove_message_lem u id s j up =
      let s0 : S = (r.get_connection s).1 in
      let (texts, e) = up.ranges u (pos 0) (negsuc 0) s0 in
      let s1 : S = (r.lrange u (pos 0) (negsuc 0) s0).1 in
      let got : texts ≡ items u s =
        laws.ranged u (pos 0) (negsuc 0) s0 texts e
        ∙ slice_all (items u s0)
        ∙ laws.connected u s (up.connects s) in
      let same : (k : ℕ) → items k s1 ≡ items k s =
        λ k. laws.range_keeps u (pos 0) (negsuc 0) k s0 ∙ laws.connected k s (up.connects s) in
      let step =
        remove_text_step u id (items u s) s1 j (text_with_id serde id (items u s)) up (same u)
          refl in
      rw (up.connects s, e, got)
        (step.0, step.1 ∙ ap (λ xs. if u == j then without serde id (items u s) else xs) (same j))
