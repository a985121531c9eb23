-- ===== src/RateLimit/Windows.antt =====
-- `check_user_rate` of infrastructure/ratelimit/mod.rs, many times in one window.
use ara_chat_service.Base.{
  ℕ, zero, suc, ◌+◌, ◌-◌, ◌^◌, ◌≤◌, ◌<◌, ◌≡◌, refl, ◌∙◌, sym, ap, Bool, true, false, List, [], ◌∷◌,
  Option, none, some, ltb, ◌==◌, if◌then◌else◌, All, ==_refl, arith,
}
use ara_chat_service.Base.Results.{Result, ok}
use ara_chat_service.Base.Stateful.{Stateful, pure, ◌>>=◌, >>=-eq-ok, >>=-ok}
use ara_chat_service.Redis.Counters.{RedisCounters, Counter, Documented, IsUp, incremented}
use ara_chat_service.RateLimit.{
  RateLimiter, RateLimitResult, RateLimitError, as_u32, check_user_rate,
}
use ara_chat_service.RateLimit.Checks.{on_redis, checked, check_step, check-IsUp}

-- Checks of one user, one after the other.
abbrev pub check_each :
    {S : Type 0} → RateLimiter S → ℕ → ℕ → Stateful S RateLimitError (List RateLimitResult)
check_each limiter u zero = pure []
check_each limiter u (suc k) = do
  result ← check_user_rate limiter u
  results ← check_each limiter u k
  pure (result ∷ results)

-- What `k` checks answer when `n` messages were counted before.
abbrev pub Answers : ℕ → ℕ → ℕ → List RateLimitResult → Type 0
Answers max n zero [] = Unit {0}
Answers max n zero (a ∷ rest) = ⊥
Answers max n (suc k) [] = ⊥
Answers max n (suc k) (a ∷ rest) =
    (a.is_allowed ≡ ltb n max) × (a.remaining ≡ max - suc n) × Answers max (suc n) k rest

module _ {S : Type 0} (r : RedisCounters S) (at : ℕ → S → Option Counter) (laws : Documented r at)
    (max window : ℕ) (window_pos : 0 < window) (window_small : window < 2 ^ 63) where
  abbrev pub limiter : RateLimiter S
  limiter = on_redis r max window

  results_zero :
      (n : ℕ) (results : List RateLimitResult)
      → ◌≡◌ {A = Result RateLimitError (List RateLimitResult)} (ok []) (ok results)
      → Answers max n 0 results
  results_zero n [] h = tt
  results_zero n (a ∷ rest) h = absurd (cc h)

  -- A first answer and the answers to the checks that follow.
  results_suc :
      (n k : ℕ) (a : RateLimitResult) (rest results : List RateLimitResult)
      → ◌≡◌ {A = Result RateLimitError (List RateLimitResult)} (ok (a ∷ rest)) (ok results)
      → a.is_allowed ≡ ltb n max
      → a.remaining ≡ max - suc n
      → Answers max (suc n) k rest
      → Answers max n (suc k) results
  results_suc n k a rest [] h p q more = absurd (cc h)
  results_suc n k a rest (b ∷ others) h p q more =
      let e : a ≡ b = cc h in
      let f : rest ≡ others = cc h in (rw (← e) p, rw (← e) q, rw (← f) more)

  small_as_u32 : (n : ℕ) → n < 2 ^ 32 → as_u32 n ≡ n
  small_as_u32 n small = omega (arith, small)

  -- `k` more checks of a user whose counter has a value `n`, with `after` for what one check leaves.
  first_then :
      (u k n : ℕ) (s : S) (results : List RateLimitResult) (after : Counter)
      → suc n < 2 ^ 32
      → (incremented (at u s)).value ≡ suc n
      → checked (at u s) ≡ after
      → (check_each limiter u (suc k) s).0 ≡ ok results
      → ((s1 : S) (rest : List RateLimitResult)
          → at u s1 ≡ some after
          → (check_each limiter u k s1).0 ≡ ok rest
          → Answers max (suc n) k rest
            × (at u (check_each limiter u k s1).1
                ≡ some (record { value = after.value + k; lapses = after.lapses })))
      → Answers max n (suc k) results
        × (at u (check_each limiter u (suc k) s).1
            ≡ some (record { value = after.value + k; lapses = after.lapses }))
  first_then u k n s results after small v c h next =
      let s1 : S = (check_user_rate limiter u s).1 in
      let (a, h1, e1) = >>=-eq-ok (check_user_rate limiter u) _ s results h in
      let (rest, h2, e2) =
        >>=-eq-ok (check_each limiter u k) (λ results. pure (a ∷ results)) s1 results
          (ap (λ p. p.0) (sym e1) ∙ h) in
      let (moved, p, q) = check_step r at laws max window window_pos window_small u s u a h1 in
      let at1 : at u s1 ≡ some after = moved ∙ rw (==_refl u, c) refl in
      let (answers, final) = next s1 rest at1 h2 in
      (
        results_suc n k a rest results (sym (ap (λ p. p.0) (e1 ∙ e2)) ∙ h)
            (p ∙ rw (v, small_as_u32 (suc n) small) (ground arith))
            (q ∙ ap (λ m. max - as_u32 m) v ∙ ap (λ m. max - m) (small_as_u32 (suc n) small))
            answers,
        ap (λ p. at u p.1) (e1 ∙ e2) ∙ final,
      )

  checked_later :
      (n : ℕ) (lapses : Bool)
      → suc (suc n) < 2 ^ 32
      → checked (some (record { value = suc n; lapses = lapses }))
        ≡ record { value = suc (suc n); lapses = lapses }
  checked_later n lapses small =
      ap (λ m. record { value = suc (suc n); lapses = if m == 1 then true else lapses })
        (small_as_u32 (suc (suc n)) small)
      ∙ ground arith

  counted_on :
      (u k n : ℕ) (lapses : Bool) (s : S) (results : List RateLimitResult)
      → suc n + k < 2 ^ 32
      → at u s ≡ some (record { value = suc n; lapses = lapses })
      → (check_each limiter u k s).0 ≡ ok results
      → Answers max (suc n) k results
        × (at u (check_each limiter u k s).1 ≡ some (record { value = suc n + k; lapses = lapses }))
  counted_on u zero n lapses s results small e h =
      let z : suc n + 0 ≡ suc n = omega arith in (results_zero (suc n) results h, rw z e)
  counted_on u (suc k) n lapses s results small e h =
      let after : Counter = record { value = suc (suc n); lapses = lapses } in
      let (answers, final) =
        first_then u k (suc n) s results after (omega (arith, small)) (rw e refl)
          (ap checked e ∙ checked_later n lapses (omega (arith, small))) h
          (λ s1 rest at1 h2. counted_on u k (suc n) lapses s1 rest (omega (arith, small)) at1 h2) in
      let z : suc (suc n) + k ≡ suc n + suc k = omega arith in
      (answers, final ∙ ap (λ m. some (record { value = m; lapses = lapses })) z)

  All-refused :
      (n k : ℕ) (results : List RateLimitResult)
      → max ≤ n
      → Answers max n k results
      → All (λ a. a.is_allowed ≡ false) results
  All-refused n zero [] full a = tt
  All-refused n zero (x ∷ rest) full a = absurd a
  All-refused n (suc k) [] full a = absurd a
  All-refused n (suc k) (x ∷ rest) full a =
      (ground (arith, a.0), All-refused (suc n) k rest (omega (arith, full)) a.2)

  check_each-IsUp :
      (u k : ℕ) (s : S)
      → IsUp r
      → (results : List RateLimitResult) × ((check_each limiter u k s).0 ≡ ok results)
  check_each-IsUp u zero s up = ([], refl)
  check_each-IsUp u (suc k) s up =
      let s1 : S = (check_user_rate limiter u s).1 in
      let (a, h) = check-IsUp r at laws max window window_pos window_small u s up in
      let (rest, g) = check_each-IsUp u k s1 up in
      (
        a ∷ rest,
        ap (λ p. p.0)
            (>>=-ok (check_user_rate limiter u) _ s a h
              ∙ >>=-ok (check_each limiter u k) (λ results. pure (a ∷ results)) s1 rest g),
      )

  -- In a window of at least one second, below 2^63, with a Redis that answers: of at least one and
  -- fewer than 2^32 checks for a user without a counter, as many are allowed as the limit says, the
  -- first ones, and the remaining number that each answers is what is left of the limit after it;
  -- the counter is then the number of the checks, and is set to lapse.
  pub check_each-window :
      (u k : ℕ) (s : S)
      → IsUp r
      → at u s ≡ none
      → suc k < 2 ^ 32
      → (results : List RateLimitResult) × ((check_each limiter u (suc k) s).0 ≡ ok results)
        × Answers max 0 (suc k) results
        × (at u (check_each limiter u (suc k) s).1 ≡ some (record { value = suc k; lapses = true }))
  check_each-window u k s up e small =
      let (results, h) = check_each-IsUp u (suc k) s up in
      let first : Counter = record { value = 1; lapses = true } in
      let (answers, final) =
        first_then u k 0 s results first (omega arith) (rw e refl) (rw e refl) h
          (λ s1 rest at1 h2. counted_on u k 0 true s1 rest (omega (arith, small)) at1 h2) in
      let z : 1 + k ≡ suc k = omega arith in
      (results, h, answers, final ∙ ap (λ m. some (record { value = m; lapses = true })) z)

  -- A counter that was not set to lapse, since the call of EXPIRE after the first message failed, is
  -- not set to lapse by further checks as long as it stays below 2^32, where the code's count of 32
  -- bits wraps, with a Redis that answers and a window of at least one second, below 2^63: once it
  -- has reached the limit, every such check of the user is refused.
  pub check_each-stuck :
      (u k n : ℕ) (s : S)
      → IsUp r
      → at u s ≡ some (record { value = suc n; lapses = false })
      → max ≤ suc n
      → suc n + k < 2 ^ 32
      → (results : List RateLimitResult) × ((check_each limiter u k s).0 ≡ ok results)
        × All (λ a. a.is_allowed ≡ false) results
        × (at u (check_each limiter u k s).1 ≡ some (record { value = suc n + k; lapses = false }))
  check_each-stuck u k n s up e full small =
      let (results, h) = check_each-IsUp u k s up in
      let (answers, final) = counted_on u k n false s results small e h in
      (results, h, All-refused (suc n) k results full answers, final)
