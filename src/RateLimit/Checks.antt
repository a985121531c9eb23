-- ===== src/RateLimit/Checks.antt =====
-- `check_user_rate` of infrastructure/ratelimit/mod.rs, once.
use ara_chat_service.Base.{
  ℕ, ◌-◌, ◌^◌, ◌<◌, ◌≡◌, refl, ◌∙◌, sym, ap, Bool, true, false, Option, some, inl, inr, ◌==◌,
  if◌then◌else◌, leb, Bool-cases, arith,
}
use ara_chat_service.Base.Results.{Result, ok}
use ara_chat_service.Base.Stateful.{>>=-eq-ok, >>=-ok}
use ara_chat_service.Base.Offsets.{ℤ, as_signed, as_signed-IsPositive}
use ara_chat_service.Redis.Chains.{run-eq-ok, or_error-eq-ok}
use ara_chat_service.Redis.Counters.{RedisCounters, Counter, Documented, IsUp, incremented, lapsing}
use ara_chat_service.RateLimit.{
  RateLimiter, RateLimitResult, RateLimitError, redis_error, as_u32, start_window, verdict,
  check_user_rate,
}

abbrev pub on_redis : {S : Type 0} → RedisCounters S → ℕ → ℕ → RateLimiter S
on_redis r max window = record { redis = some r; max_messages = max; window_seconds = window }

-- The counter after one more message: one that is counted as the first starts the window.
abbrev pub checked : Option Counter → Counter
checked c = record {
  value = (incremented c).value;
  lapses = if as_u32 (incremented c).value == 1 then true else (incremented c).lapses;
}

module _ {S : Type 0} (r : RedisCounters S) (at : ℕ → S → Option Counter) (laws : Documented r at)
    (max window : ℕ) (window_pos : 0 < window) (window_small : window < 2 ^ 63) where
  abbrev limiter : RateLimiter S
  limiter = on_redis r max window

  window_set :
      (here : Bool) (c : Counter) (x y : Option Counter)
      → y ≡ (if here then some c else x)
      → (if here then lapsing y else y)
        ≡ (if here then some (record { value = c.value; lapses = true }) else x)
  window_set true c x y e = ap lapsing e
  window_set false c x y e = e

  started :
      (u count : ℕ) (s : S) (j : ℕ) (c x : Option Counter)
      → count ≡ as_u32 (incremented c).value
      → at j s ≡ (if u == j then some (incremented c) else x)
      → (start_window limiter r u count s).0 ≡ ok tt
      → at j (start_window limiter r u count s).1 ≡ (if u == j then some (checked c) else x)
  started u count s j c x n e h = elim (Bool-cases (count == 1)) [
    | inl one ↦
        let answered : (r.expire u (as_signed window) s).0 ≡ some tt =
          or_error-eq-ok redis_error (r.expire u (as_signed window) s).0 tt (rw one at h) in
        let first : (as_u32 (incremented c).value == 1) ≡ true = ap (λ m. m == 1) (sym n) ∙ one in
        rw (one, first)
          (laws.expires u (as_signed window) j s
              (as_signed-IsPositive window window_pos window_small) answered
            ∙ window_set (u == j) (incremented c) x (at j s) e)
    | inr more ↦
        let later : (as_u32 (incremented c).value == 1) ≡ false = ap (λ m. m == 1) (sym n) ∙ more in
        rw (more, later) e
  ]

  at_key :
      (u j : ℕ) (s : S)
      → (if u == j then some (incremented (at j s)) else at j s)
        ≡ (if u == j then some (incremented (at u s)) else at j s)
  at_key u j s = elim (Bool-cases (u == j)) [
    | inl h ↦
        let k : u ≡ j = ground (arith, h) in rw h (ap (λ n. some (incremented (at n s))) (sym k))
    | inr h ↦ rw h refl
  ]

  judged_allowed :
      (count : ℕ) (ttl : ℤ) (result : RateLimitResult)
      → ◌≡◌ {A = Result RateLimitError RateLimitResult} (ok result) (ok (verdict limiter count ttl))
      → result.is_allowed ≡ leb count max
  judged_allowed count ttl result h = ground (arith, h)

  judged_remaining :
      (count : ℕ) (ttl : ℤ) (result : RateLimitResult)
      → ◌≡◌ {A = Result RateLimitError RateLimitResult} (ok result) (ok (verdict limiter count ttl))
      → result.remaining ≡ max - count
  judged_remaining count ttl result h = ground (arith, h)

  -- One check that succeeds counts the message and judges it by the count.
  pub check_step :
      (u : ℕ) (s : S) (j : ℕ) (result : RateLimitResult)
      → (check_user_rate limiter u s).0 ≡ ok result
      → (at j (check_user_rate limiter u s).1
          ≡ (if u == j then some (checked (at u s)) else at j s))
        × (result.is_allowed ≡ leb (as_u32 (incremented (at u s)).value) max)
        × (result.remaining ≡ max - as_u32 (incremented (at u s)).value)
  unfolding check_user_rate
  check_step u s j result h =
      let s0 : S = (r.get_connection s).1 in
      let s1 : S = (r.incr u s0).1 in
      let (a, h0, e0) = run-eq-ok redis_error r.get_connection _ s result h in
      let (answer, h1, e1) =
        run-eq-ok redis_error (r.incr u) _ s0 result (ap (λ p. p.0) (sym e0) ∙ h) in
      let count : ℕ = as_u32 answer in
      let (b, h2, e2) =
        >>=-eq-ok (start_window limiter r u count) _ s1 result
          (ap (λ p. p.0) (sym (e0 ∙ e1)) ∙ h) in
      let s2 : S = (start_window limiter r u count s1).1 in
      let (ttl, h3, e3) =
        run-eq-ok redis_error (r.ttl u) _ s2 result (ap (λ p. p.0) (sym (e0 ∙ e1 ∙ e2)) ∙ h) in
      let judged : ok result ≡ ok (verdict limiter count ttl) =
        sym h ∙ ap (λ p. p.0) (e0 ∙ e1 ∙ e2 ∙ e3) in
      let n : count ≡ as_u32 (incremented (at u s)).value =
        ap as_u32
          (laws.counts u s0 answer h1 ∙ ap (λ c. (incremented c).value) (laws.connected u s h0)) in
      let at1 : at j s1 ≡ (if u == j then some (incremented (at u s)) else at j s) =
        laws.counted u j s0 answer h1
        ∙ ap (λ c. if u == j then some (incremented c) else c) (laws.connected j s h0)
        ∙ at_key u j s in
      let after : at j (check_user_rate limiter u s).1
          ≡ (if u == j then some (checked (at u s)) else at j s) =
        ap (λ p. at j p.1) (e0 ∙ e1 ∙ e2 ∙ e3)
        ∙ laws.ttl_keeps u j s2
        ∙ started u count s1 j (at u s) (at j s) n at1 h2 in
      (
        after,
        judged_allowed count ttl result judged ∙ ap (λ m. leb m max) n,
        judged_remaining count ttl result judged ∙ ap (λ m. max - m) n,
      )

  pub check-IsUp :
      (u : ℕ) (s : S)
      → IsUp r
      → (result : RateLimitResult) × ((check_user_rate limiter u s).0 ≡ ok result)
  unfolding check_user_rate
  check-IsUp u s up =
      let s0 : S = (r.get_connection s).1 in
      let (answer, h1) = up.incrs u s0 in
      let count : ℕ = as_u32 answer in
      let s1 : S = (r.incr u s0).1 in
      let s2 : S = (start_window limiter r u count s1).1 in
      let (ttl, h3) = up.ttls u s2 in
      let h2 : (start_window limiter r u count s1).0 ≡ ok tt = elim (Bool-cases (count == 1)) [
        | inl one ↦ rw (one, up.expiring u (as_signed window) s1) refl
        | inr more ↦ rw more refl
      ] in
      (
        verdict limiter count ttl,
        rw (up.connects s, h1)
            (ap (λ p. p.0) (>>=-ok (start_window limiter r u count) _ s1 tt h2) ∙ rw h3 refl),
      )
