-- ===== src/Presence/Counting.antt =====
-- What one call of `mark_online` or `mark_offline` of domain/presence/tracker.rs does to the hashes.
use Prim.Native.String.{String}
use text.Mathlib.Text.{◌==◌ as str_eq}
use mathlib.Core.Path.{subst}
use ara_chat_service.Base.{
  ℕ, zero, suc, ◌-◌, ◌≡◌, refl, ◌∙◌, sym, ap, Bool, true, false, List, [], ◌∷◌, Option, none, some,
  ◌==◌, ◌&&◌, not, ltb, if◌then◌else◌, arith, Bool-cases, inl, inr, ==_refl,
}
use ara_chat_service.Base.Results.{ok}
use ara_chat_service.Base.Offsets.{ℤ, pos, negsuc, decrement}
use ara_chat_service.Redis.Hashes.{
  RedisHashes, HashOp, hset, hincr_one, expire, Value, word, number, number_of, Fields, apply_all,
  Documented, increment,
}
use ara_chat_service.Presence.Status.{
  StatusTracker, mark_online, mark_offline, offline_at, is_positive,
}

-- A status that is not there is read as offline.
abbrev pub or_offline : Option Value → Value
or_offline none = word "offline"
or_offline (some value) = value

-- What the hash of a user with `n` connections shows.
pub record Shows (fields : Fields) (u n : ℕ) : Type 0 where
  pub counted : number_of (fields u "connections") ≡ pos n
  pub status : or_offline (fields u "status") ≡ (if ltb 0 n then word "online" else word "offline")

same_field : (b : Bool) (x : Option Value) → (if b then x else x) ≡ x
same_field true x = refl
same_field false x = refl

two_more : (m : ℕ) → ltb 0 (suc (suc m)) ≡ ltb 0 (suc m)
two_more m = ground arith

not_last : (m : ℕ) → false ≡ ltb (suc (suc m)) 2
not_last m = ground arith

shown : (n : ℕ) → word "online" ≡ (if ltb 0 (suc n) then word "online" else word "offline")
shown n = ground arith

module _ {S : Type 0} (redis : RedisHashes S) (at : S → Fields) (laws : Documented redis at)
    (server_id : String) (ttl : ℤ) (now : ℤ) where
  abbrev tracker : StatusTracker S
  tracker = record { redis = some redis; server_id = server_id; ttl_seconds = ttl }

  online_ops : ℕ → List HashOp
  online_ops u =
      hset u "status" (word "online")
      ∷ hset u "server_id" (word server_id)
      ∷ hset u "last_seen" (number now)
      ∷ hincr_one u "connections"
      ∷ expire u ttl
      ∷ []

  offline_ops : ℕ → List HashOp
  offline_ops u =
      hset u "status" (word "offline")
      ∷ hset u "last_seen" (number now)
      ∷ hset u "connections" (number (pos 0))
      ∷ expire u ttl
      ∷ []

  online_step :
      (u j : ℕ) (f : String) (s : S)
      → at (mark_online tracker now u s).1 j f
        ≡ apply_all (online_ops u) (at (redis.get_connection s).1) j f
  unfolding mark_online online_ops
  online_step u j f s =
      rw (laws.connects s) (laws.piped (online_ops u) j f (redis.get_connection s).1)

  pub mark_online-Shows :
      (u n : ℕ) (s : S)
      → number_of (at s u "connections") ≡ pos n
      → Shows (at (mark_online tracker now u s).1) u (suc n)
  unfolding online_ops
  mark_online-Shows u n s h =
      let s0 : S = (redis.get_connection s).1 in
      let field : at (mark_online tracker now u s).1 u "connections"
          ≡ some (number (increment (number_of (at s0 u "connections")))) =
        online_step u u "connections" s ∙ rw (==_refl u) refl in
      record {
        counted =
            ap number_of field
            ∙ ap (λ x. increment (number_of x)) (laws.connected u "connections" s)
            ∙ ap increment h;
        status = ap or_offline (online_step u u "status" s) ∙ rw (==_refl u) (shown n);
      }

  pub mark_online-other :
      (u v : ℕ) (f : String) (s : S)
      → (u == v) ≡ false
      → at (mark_online tracker now u s).1 v f ≡ at s v f
  unfolding online_ops
  mark_online-other u v f s h = online_step u v f s ∙ rw h (laws.connected v f s)

  left_step :
      (u j : ℕ) (f : String) (z : ℤ) (s : S)
      → ((offline_at tracker now redis u z s).0 ≡ ok (not (is_positive z)))
        × (at (offline_at tracker now redis u z s).1 j f
            ≡ (if is_positive z then at s j f else apply_all (offline_ops u) (at s) j f))
  unfolding offline_ops
  left_step u j f z s = elim (Bool-cases (is_positive z)) [
    | inl more ↦ rw more (refl, refl)
    | inr none_left ↦
        rw (none_left, laws.pipes (offline_ops u) s) (refl, laws.piped (offline_ops u) j f s)
  ]

  -- The state in which `mark_offline` looks at the number of connections left.
  decreased_state : ℕ → S → S
  decreased_state u s = (redis.hdecr_one u "connections" (redis.get_connection s).1).1

  decreased_field :
      (u j : ℕ) (f : String) (s : S)
      → at (decreased_state u s) j f ≡ (
          if u == j && str_eq "connections" f
          then some (number (decrement (number_of (at s j f))))
          else at s j f)
  unfolding decreased_state
  decreased_field u j f s =
      laws.decreased u "connections" j f (redis.get_connection s).1
      ∙ ap
          (λ x.
            if u == j && str_eq "connections" f then some (number (decrement (number_of x))) else x)
          (laws.connected j f s)

  offline_eq :
      (u n : ℕ) (s : S)
      → number_of (at s u "connections") ≡ pos n
      → mark_offline tracker now u s
        ≡ offline_at tracker now redis u (decrement (pos n)) (decreased_state u s)
  unfolding mark_offline decreased_state
  offline_eq u n s h =
      let s0 : S = (redis.get_connection s).1 in
      let answer : (redis.hdecr_one u "connections" s0).0 ≡ some (decrement (pos n)) =
        laws.decreases u "connections" s0
        ∙ ap (λ x. some (decrement (number_of x))) (laws.connected u "connections" s)
        ∙ ap (λ z. some (decrement z)) h in
      rw (laws.connects s, answer) refl

  gone-Shows :
      (u : ℕ) (z : ℤ) (s : S)
      → is_positive z ≡ false
      → ((offline_at tracker now redis u z s).0 ≡ ok true)
        × Shows (at (offline_at tracker now redis u z s).1) u 0
  unfolding offline_ops
  gone-Shows u z s h = (
    (left_step u u "status" z s).0 ∙ rw h refl,
    record {
      counted = ap number_of ((left_step u u "connections" z s).1 ∙ zero_field);
      status = ap or_offline (left_step u u "status" z s).1 ∙ rw (h, ==_refl u) refl;
    },
  )
    where
      zero_field :
          (if is_positive z
            then at s u "connections"
            else apply_all (offline_ops u) (at s) u "connections")
          ≡ some (number (pos 0))
      zero_field = rw (h, ==_refl u) refl

  -- With one connection less the user is offline just if none is left.
  pub mark_offline-Shows :
      (u n : ℕ) (s : S)
      → Shows (at s) u n
      → ((mark_offline tracker now u s).0 ≡ ok (ltb n 2))
        × Shows (at (mark_offline tracker now u s).1) u (n - 1)
  mark_offline-Shows u zero s sh =
      let e = offline_eq u 0 s sh.counted in
      let gone = gone-Shows u (negsuc 0) (decreased_state u s) refl in
      (ap (λ p. p.0) e ∙ gone.0, subst (λ p. Shows (at p.1) u 0) (sym e) gone.1)
  mark_offline-Shows u (suc zero) s sh =
      let e = offline_eq u 1 s sh.counted in
      let gone = gone-Shows u (pos 0) (decreased_state u s) refl in
      (ap (λ p. p.0) e ∙ gone.0, subst (λ p. Shows (at p.1) u 0) (sym e) gone.1)
  mark_offline-Shows u (suc (suc m)) s sh =
      let e = offline_eq u (suc (suc m)) s sh.counted in
      let z : ℤ = pos (suc m) in
      let s1 : S = decreased_state u s in
      let left : at s1 u "connections"
          ≡ some (number (decrement (number_of (at s u "connections")))) =
        decreased_field u u "connections" s ∙ rw (==_refl u) refl in
      let kept : at s1 u "status" ≡ at s u "status" =
        decreased_field u u "status" s ∙ rw (==_refl u) refl in
      let still : Shows (at s1) u (suc m) = record {
        counted = ap number_of left ∙ ap decrement sh.counted;
        status =
            ap or_offline kept
            ∙ sh.status
            ∙ ap (λ b. if b then word "online" else word "offline") (two_more m);
      } in
      let there : Shows (at (offline_at tracker now redis u z s1).1) u (suc m) = record {
        counted = ap number_of (left_step u u "connections" z s1).1 ∙ still.counted;
        status = ap or_offline (left_step u u "status" z s1).1 ∙ still.status;
      } in
      let one_less : suc m ≡ suc (suc m) - 1 = omega arith in
      (
        ap (λ p. p.0) e ∙ (left_step u u "status" z s1).0 ∙ ap ok (not_last m),
        subst (λ k. Shows (at (mark_offline tracker now u s).1) u k) one_less
            (subst (λ p. Shows (at p.1) u (suc m)) (sym e) there),
      )

  pub mark_offline-other :
      (u v n : ℕ) (f : String) (s : S)
      → number_of (at s u "connections") ≡ pos n
      → (u == v) ≡ false
      → at (mark_offline tracker now u s).1 v f ≡ at s v f
  unfolding offline_ops
  mark_offline-other u v n f s h other =
      let z : ℤ = decrement (pos n) in
      let s1 : S = decreased_state u s in
      let kept : at s1 v f ≡ at s v f = decreased_field u v f s ∙ rw other refl in
      ap (λ p. at p.1 v f) (offline_eq u n s h)
      ∙ (left_step u v f z s1).1
      ∙ rw other (same_field (is_positive z) (at s1 v f))
      ∙ kept
