-- ===== src/Receipt/Steps.antt =====
-- What one call on the unread counts does to each counter
-- (infrastructure/redis/cache.rs).
use ara_chat_service.Base.{
  ℕ, suc, ◌≤◌, ◌≡◌, refl, ◌∙◌, ap, List, [], ◌∷◌, ltb, if◌then◌else◌, Bool-cases, inl, inr,
}
use ara_chat_service.Redis.Tallies.{
  RedisTallies, TallyOp, Tally, incr, decr, del, expire, apply_all, CanApply, Documented, IsUp,
}
use ara_chat_service.Receipt.{
  UnreadKey, unread, total, same_key, days_30, increment_unread, reset_counted, reset_unread,
}

module _ {S : Type 0} (redis : RedisTallies S UnreadKey) (at : S → Tally UnreadKey)
    (laws : Documented same_key redis at) (up : IsUp same_key redis at) where
  -- One pipeline.
  piped :
      (ops : List (TallyOp UnreadKey)) (k : UnreadKey) (s : S)
      → CanApply same_key ops (at s)
      → at (redis.pipe ops s).1 k ≡ apply_all same_key ops (at s) k
  piped ops k s can = let (ns, e) = up.pipes ops s in laws.piped ops k s ns can e

  linked : (k : UnreadKey) (s : S) → at (redis.get_connection s).1 k ≡ at s k
  linked k s = laws.connected k s (up.connects s)

  pub increment_step :
      (u c : ℕ) (k : UnreadKey) (s : S)
      → at (increment_unread redis u c s).1 k
        ≡ apply_all same_key (incr (unread u c) ∷ incr (total u) ∷ []) (at s) k
  unfolding increment_unread
  increment_step u c k s =
      let s0 : S = (redis.get_connection s).1 in
      let ops : List (TallyOp UnreadKey) = incr (unread u c) ∷ incr (total u) ∷ [] in
      let late : List (TallyOp UnreadKey) =
        expire (unread u c) days_30 ∷ expire (total u) days_30 ∷ [] in
      let (ns, e) = up.pipes ops s0 in
      let s1 : S = (redis.pipe ops s0).1 in
      let (ms, g) = up.pipes late s1 in
      rw (up.connects s, e, g)
        (piped late k s1 tt
          ∙ piped ops k s0 tt
          ∙ ap
              (λ n.
                if same_key (total u) k
                then suc (if same_key (unread u c) k then suc n else n)
                else (if same_key (unread u c) k then suc n else n))
              (linked k s))

  pub counted_step :
      (u c n : ℕ) (k : UnreadKey) (s : S)
      → n ≤ at s (total u)
      → at (reset_counted redis u c n s).1 k ≡ (
          if ltb 0 n
          then apply_all same_key (del (unread u c) ∷ decr (total u) n ∷ []) (at s) k
          else at s k)
  unfolding reset_counted
  counted_step u c n k s le = elim (Bool-cases (ltb 0 n)) [
    | inl h ↦
        let ops : List (TallyOp UnreadKey) = del (unread u c) ∷ decr (total u) n ∷ [] in
        let (ns, e) = up.pipes ops s in rw (h, e) (piped ops k s (le, tt))
    | inr h ↦ rw h refl
  ]

  pub reset_step :
      (u c : ℕ) (s : S)
      → let read : S = (redis.get (unread u c) (redis.get_connection s).1).1 in
        (reset_unread redis u c s ≡ reset_counted redis u c (at s (unread u c)) read)
        × ((k : UnreadKey) → at read k ≡ at s k)
  unfolding reset_unread
  reset_step u c s =
      let s0 : S = (redis.get_connection s).1 in
      (
        rw (up.connects s, up.reads (unread u c) s0, linked (unread u c) s) refl,
        λ k. laws.get_keeps (unread u c) k s0 ∙ linked k s,
      )
