-- ===== src/Subscription/Unsubscribe.antt =====
-- What `ConnectionSubscriptions::unsubscribe` of domain/connection/subscription.rs takes away.
use mathlib.Core.List.{append-nil, append_assoc}
use ara_chat_service.Base.{
  ℕ, ◌≤◌, ◌++◌, false, not, ◌||◌, ◌&&◌, List, [], ◌∷◌, ◌≡◌, refl, arith, ◌==◌, length, contains,
  contains-append, contains-keep, length-keep-le, IsDistinct, IsDistinct-keep,
}
use ara_chat_service.Subscription.{
  ConnectionSubscriptions, IsValid, subscribe, unsubscribe, unsubscribe_loop, set_remove,
  is_subscribed,
}
use ara_chat_service.Subscription.Subscribe.{subscribe-IsValid, subscribe_reported}

loop-contains :
    (j : ℕ) (ids set removed : List ℕ)
    → contains j (unsubscribe_loop ids set removed).0 ≡ (contains j set && not (contains j ids))
unfolding unsubscribe_loop
loop-contains j [] set removed = ground arith
loop-contains j (id ∷ ids) set removed = ground (
  arith,
  loop-contains j ids (set_remove id set) removed,
  loop-contains j ids (set_remove id set) (removed ++ id ∷ []),
  contains-keep (λ other. not (other == id)) j set,
)

loop-removed :
    (j : ℕ) (ids set removed : List ℕ)
    → contains j (unsubscribe_loop ids set removed).1
      ≡ (contains j removed || (contains j set && contains j ids))
unfolding unsubscribe_loop
loop-removed j [] set removed = ground arith
loop-removed j (id ∷ ids) set removed = ground (
  arith,
  loop-removed j ids (set_remove id set) removed,
  loop-removed j ids (set_remove id set) (removed ++ id ∷ []),
  contains-append j removed (id ∷ []),
  contains-keep (λ other. not (other == id)) j set,
)

loop-IsDistinct :
    (ids set removed : List ℕ) → IsDistinct set → IsDistinct (unsubscribe_loop ids set removed).0
unfolding unsubscribe_loop
loop-IsDistinct [] set removed d = d
loop-IsDistinct (id ∷ ids) set removed d =
    loop-IsDistinct ids (set_remove id set) _ (IsDistinct-keep (λ other. not (other == id)) set d)

loop-le : (ids set removed : List ℕ) → length (unsubscribe_loop ids set removed).0 ≤ length set
unfolding unsubscribe_loop
loop-le [] set removed = ground arith
loop-le (id ∷ ids) set removed = ground (
  arith,
  loop-le ids (set_remove id set) removed,
  loop-le ids (set_remove id set) (removed ++ id ∷ []),
  length-keep-le (λ other. not (other == id)) set,
)

-- `unsubscribe` keeps the set valid.
pub unsubscribe-IsValid :
    (s : ConnectionSubscriptions) (ids : List ℕ) → IsValid s → IsValid (unsubscribe s ids).0
unfolding unsubscribe
unsubscribe-IsValid s ids v = record {
  distinct = loop-IsDistinct ids s.subscriptions [] v.distinct;
  bounded = ground (arith, loop-le ids s.subscriptions [], v.bounded);
}

-- Afterwards the subscribed ones are those that were and are not named; the ones reported are those
-- that were and are named.
pub unsubscribe_exact :
    (s : ConnectionSubscriptions) (ids : List ℕ) (j : ℕ)
    → (is_subscribed (unsubscribe s ids).0 j ≡ (is_subscribed s j && not (contains j ids)))
      × (contains j (unsubscribe s ids).1.unsubscribed ≡ (is_subscribed s j && contains j ids))
unfolding unsubscribe is_subscribed
unsubscribe_exact s ids j =
    (loop-contains j ids s.subscriptions [], loop-removed j ids s.subscriptions [])

set_remove_absent : (id : ℕ) (xs : List ℕ) → contains id xs ≡ false → set_remove id xs ≡ xs
set_remove_absent id [] h = refl
set_remove_absent id (x ∷ xs) h = ground (arith, set_remove_absent id xs)

-- Taking a member out of the middle of a distinct list.
set_remove_middle :
    (id : ℕ) (set rest : List ℕ)
    → IsDistinct (set ++ id ∷ rest)
    → set_remove id (set ++ id ∷ rest) ≡ set ++ rest
set_remove_middle id [] rest d = ground (arith, set_remove_absent id rest)
set_remove_middle id (x ∷ set) rest d =
    ground (arith, set_remove_middle id set rest d.1, contains-append x set (id ∷ rest))

loop_undo :
    (set new removed : List ℕ)
    → IsDistinct (set ++ new)
    → unsubscribe_loop new (set ++ new) removed ≡ (set, removed ++ new)
unfolding unsubscribe_loop
loop_undo set [] removed d = ground (arith, append-nil set, append-nil removed)
loop_undo set (x ∷ new) removed d = rw (set_remove_middle x set new d) (
    ground (
      arith,
      contains-append x set (x ∷ new),
      loop_undo set new (removed ++ x ∷ [])
          (rw (set_remove_middle x set new d) at (IsDistinct-keep (λ o. not (o == x)) _ d)),
      append_assoc removed (x ∷ []) new,
    ))

-- `unsubscribe` of what `subscribe` reported restores the set, and reports the same list.
unsubscribe-subscribe :
    (s : ConnectionSubscriptions) (ids : List ℕ)
    → IsValid s
    → let r = subscribe s ids in
      let u = unsubscribe r.0 r.1.subscribed in
      (u.0.subscriptions ≡ s.subscriptions) × (u.1.unsubscribed ≡ r.1.subscribed)
unfolding unsubscribe
unsubscribe-subscribe s ids v =
    let e = (subscribe_reported s ids).0 in
    let d = (subscribe-IsValid s ids v).distinct in
    ground (arith, e, loop_undo s.subscriptions (subscribe s ids).1.subscribed [] (rw e at d))
