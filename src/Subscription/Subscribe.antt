-- ===== src/Subscription/Subscribe.antt =====
-- What `ConnectionSubscriptions::subscribe` of domain/connection/subscription.rs adds.
use mathlib.Core.List.{append-nil, append_assoc}
use ara_chat_service.Base.{
  ℕ, ◌≤◌, ◌++◌, true, false, ◌||◌, List, [], ◌∷◌, ◌≡◌, ◌⊎◌, inl, inr, arith, leb, if◌then◌else◌,
  Bool-cases, length, length-append, contains, contains-append, IsDistinct, IsDistinct-snoc,
}
use ara_chat_service.Subscription.{
  ConnectionSubscriptions, IsValid, subscribe, subscribe_loop, is_subscribed, count,
}

-- What the loop adds to a set, in order.
fresh : ℕ → List ℕ → List ℕ → List ℕ
fresh limit [] set = []
fresh limit (id ∷ ids) set =
    let rest = fresh limit ids (if contains id set then set else set ++ id ∷ []) in
    if leb limit (length set) then [] else if contains id set then rest else id ∷ rest

loop-fresh :
    (limit : ℕ) (ids set added : List ℕ)
    → subscribe_loop limit ids set added
      ≡ (set ++ fresh limit ids set, added ++ fresh limit ids set)
unfolding subscribe_loop fresh
loop-fresh limit [] set added = ground (arith, append-nil set, append-nil added)
loop-fresh limit (id ∷ ids) set added = elim (Bool-cases (leb limit (length set))) [
  | inl full ↦ rw full (ground (arith, append-nil set, append-nil added))
  | inr room ↦ elim (Bool-cases (contains id set)) [
    | inl old ↦ rw (room, old) (loop-fresh limit ids set added)
    | inr new ↦
        rw (room, new)
          (ground (
            arith,
            loop-fresh limit ids (set ++ id ∷ []) (added ++ id ∷ []),
            append_assoc set (id ∷ []) (fresh limit ids (set ++ id ∷ [])),
            append_assoc added (id ∷ []) (fresh limit ids (set ++ id ∷ [])),
          ))
  ]
]

-- The loop's set: bounded, distinct, and made of the old set and the request.
module _ (limit : ℕ) where
  after-IsBounded :
      (ids set added : List ℕ)
      → length set ≤ limit
      → length (subscribe_loop limit ids set added).0 ≤ limit
  unfolding subscribe_loop
  after-IsBounded [] set added h = h
  after-IsBounded (id ∷ ids) set added h = ground (
    arith,
    after-IsBounded ids set added h,
    after-IsBounded ids (set ++ id ∷ []) (added ++ id ∷ []),
    length-append set (id ∷ []),
  )

  after-IsDistinct :
      (ids set added : List ℕ) → IsDistinct set → IsDistinct (subscribe_loop limit ids set added).0
  unfolding subscribe_loop
  after-IsDistinct [] set added h = h
  after-IsDistinct (id ∷ ids) set added h = ground (
    arith,
    after-IsDistinct ids set added h,
    after-IsDistinct ids (set ++ id ∷ []) (added ++ id ∷ []),
    IsDistinct-snoc set id h,
  )

  contains-after_old :
      (j : ℕ) (ids set added : List ℕ)
      → contains j set ≡ true
      → contains j (subscribe_loop limit ids set added).0 ≡ true
  unfolding subscribe_loop
  contains-after_old j [] set added h = h
  contains-after_old j (id ∷ ids) set added h = ground (
    arith,
    contains-after_old j ids set added h,
    contains-after_old j ids (set ++ id ∷ []) (added ++ id ∷ []),
    contains-append j set (id ∷ []),
  )

  contains-after_only :
      (j : ℕ) (ids set added : List ℕ)
      → contains j (subscribe_loop limit ids set added).0 ≡ true
      → (contains j set || contains j ids) ≡ true
  unfolding subscribe_loop
  contains-after_only j [] set added h = ground arith
  contains-after_only j (id ∷ ids) set added h = ground (
    arith,
    contains-after_only j ids set added,
    contains-after_only j ids (set ++ id ∷ []) (added ++ id ∷ []),
    contains-append j set (id ∷ []),
  )

  -- A request that is not in the set afterwards met a full set.
  contains-after_all :
      (j : ℕ) (ids set added : List ℕ)
      → contains j ids ≡ true
      → (contains j (subscribe_loop limit ids set added).0 ≡ true)
        ⊎ (limit ≤ length (subscribe_loop limit ids set added).0)
  unfolding subscribe_loop
  contains-after_all j [] set added h = cc
  contains-after_all j (id ∷ ids) set added h = ground (
    arith,
    contains-after_all j ids set added,
    contains-after_old j ids set added,
    contains-after_all j ids (set ++ id ∷ []) (added ++ id ∷ []),
    contains-after_old j ids (set ++ id ∷ []) (added ++ id ∷ []),
    contains-append j set (id ∷ []),
  )

  fresh-new :
      (j : ℕ) (ids set : List ℕ)
      → contains j (fresh limit ids set) ≡ true
      → (contains j set ≡ false) × (contains j ids ≡ true)
  unfolding fresh
  fresh-new j [] set h = cc
  fresh-new j (id ∷ ids) set h = ground (
    arith,
    fresh-new j ids set,
    fresh-new j ids (set ++ id ∷ []),
    contains-append j set (id ∷ []),
  )

-- `subscribe` keeps the set within the limit and free of repetitions.
pub subscribe-IsValid :
    (s : ConnectionSubscriptions) (ids : List ℕ) → IsValid s → IsValid (subscribe s ids).0
unfolding subscribe
subscribe-IsValid s ids v = record {
  distinct = after-IsDistinct s.max_subscriptions ids s.subscriptions [] v.distinct;
  bounded = after-IsBounded s.max_subscriptions ids s.subscriptions [] v.bounded;
}

-- The reported ones are exactly what the set gained: they were asked for and not in it before.
pub subscribe_reported :
    (s : ConnectionSubscriptions) (ids : List ℕ)
    → ((subscribe s ids).0.subscriptions ≡ s.subscriptions ++ (subscribe s ids).1.subscribed)
      × ((j : ℕ)
          → contains j (subscribe s ids).1.subscribed ≡ true
          → (is_subscribed s j ≡ false) × (contains j ids ≡ true))
unfolding subscribe is_subscribed
subscribe_reported s ids =
    let e = loop-fresh s.max_subscriptions ids s.subscriptions [] in
    (
      ground (arith, e),
      λ j h. fresh-new s.max_subscriptions j ids s.subscriptions (ground (arith, e)),
    )

-- What was subscribed stays so, and a request is missed only by a set that is full.
pub subscribe_complete :
    (s : ConnectionSubscriptions) (ids : List ℕ) (j : ℕ)
    → IsValid s
    → (is_subscribed s j || contains j ids) ≡ true
    → (is_subscribed (subscribe s ids).0 j ≡ true)
      ⊎ (count (subscribe s ids).0 ≡ s.max_subscriptions)
unfolding subscribe is_subscribed count
subscribe_complete s ids j v h = ground (
  arith,
  contains-after_all s.max_subscriptions j ids s.subscriptions [],
  contains-after_old s.max_subscriptions j ids s.subscriptions [],
  after-IsBounded s.max_subscriptions ids s.subscriptions [] v.bounded,
)

-- Nothing else is in the set.
pub subscribe_only :
    (s : ConnectionSubscriptions) (ids : List ℕ) (j : ℕ)
    → is_subscribed (subscribe s ids).0 j ≡ true
    → (is_subscribed s j || contains j ids) ≡ true
unfolding subscribe is_subscribed
subscribe_only s ids j h = contains-after_only s.max_subscriptions j ids s.subscriptions [] h
