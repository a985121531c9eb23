-- ===== src/Receipt/Totals.antt =====
-- The total of a user's unread messages against the counts of his conversations
-- (infrastructure/redis/cache.rs).
use mathlib.Core.Path.{subst}
use ara_chat_service.Base.{
  ℕ, zero, suc, ◌+◌, ◌-◌, ◌≤◌, ◌<◌, ◌≡◌, refl, ◌∙◌, sym, ap, true, false, List, [], ◌∷◌, ◌==◌, ltb,
  if◌then◌else◌, All, contains, IsDistinct, Bool-cases, inl, inr, ==_refl, arith,
}
use ara_chat_service.Redis.Tallies.{RedisTallies, Tally, Documented, IsUp}
use ara_chat_service.Receipt.Sums.{sum, sum_same, sum_changed, sum_has, at_same, same_branch}
use ara_chat_service.Receipt.{
  UnreadKey, unread, total, same_key, increment_unread, reset_counted, reset_unread,
}
use ara_chat_service.Receipt.Steps.{increment_step, counted_step, reset_step}

-- A message arrives for a user in a conversation, or the user reads the conversation.
pub data UnreadCall : Type 0 where
  arrives reads : (user_id conversation_id : ℕ) → UnreadCall

abbrev pub conversation_of : UnreadCall → ℕ
conversation_of (arrives u c) = c
conversation_of (reads u c) = c

abbrev pub perform : {S : Type 0} → RedisTallies S UnreadKey → UnreadCall → S → S
perform redis (arrives u c) s = (increment_unread redis u c s).1
perform redis (reads u c) s = (reset_unread redis u c s).1

abbrev pub perform_all : {S : Type 0} → RedisTallies S UnreadKey → List UnreadCall → S → S
perform_all redis [] s = s
perform_all redis (call ∷ calls) s = perform_all redis calls (perform redis call s)

abbrev pub arrive_times : {S : Type 0} → RedisTallies S UnreadKey → ℕ → ℕ → ℕ → S → S
arrive_times redis u c zero s = s
arrive_times redis u c (suc k) s = arrive_times redis u c k (increment_unread redis u c s).1

-- The user's counts in some conversations, and that his total is their sum.
abbrev pub sum_of : {S : Type 0} → (S → Tally UnreadKey) → List ℕ → ℕ → S → ℕ
sum_of at cs u s = sum (λ c. at s (unread u c)) cs

abbrev pub Agrees : {S : Type 0} → (S → Tally UnreadKey) → List ℕ → ℕ → S → Type 0
Agrees at cs u s = at s (total u) ≡ sum_of at cs u s

module _ {S : Type 0} (redis : RedisTallies S UnreadKey) (at : S → Tally UnreadKey)
    (laws : Documented same_key redis at) (up : IsUp same_key redis at) where
  module _ (cs : List ℕ) (distinct : IsDistinct cs) where
    increment-Agrees :
        (u c v : ℕ) (s : S)
        → contains c cs ≡ true
        → Agrees at cs v s
        → Agrees at cs v (increment_unread redis u c s).1
    increment-Agrees u c v s within h = elim (Bool-cases (u == v)) [
      | inl e ↦
          let g : ℕ → ℕ = λ d. at (increment_unread redis u c s).1 (unread v d) in
          let f : ℕ → ℕ = λ d. at s (unread v d) in
          let t : at (increment_unread redis u c s).1 (total v) ≡ suc (at s (total v)) =
            increment_step redis at laws up u c (total v) s ∙ rw e refl in
          let each : (d : ℕ) → g d ≡ (if c == d then suc (f c) else f d) =
            λ d. increment_step redis at laws up u c (unread v d) s ∙ rw e (at_same c d f) in
          omega (arith, t, h, sum_changed f g c (suc (f c)) cs each distinct within)
      | inr e ↦
          let g : ℕ → ℕ = λ d. at (increment_unread redis u c s).1 (unread v d) in
          let f : ℕ → ℕ = λ d. at s (unread v d) in
          let t : at (increment_unread redis u c s).1 (total v) ≡ at s (total v) =
            increment_step redis at laws up u c (total v) s ∙ rw e refl in
          let each : (d : ℕ) → g d ≡ f d =
            λ d. increment_step redis at laws up u c (unread v d) s ∙ rw e refl in
          t ∙ h ∙ sym (sum_same f g cs each)
    ]

    -- The count that a reset has read may have grown by `m` since.
    counted_late :
        (u c n m : ℕ) (s : S)
        → contains c cs ≡ true
        → 0 < n
        → at s (unread u c) ≡ n + m
        → Agrees at cs u s
        → (at (reset_counted redis u c n s).1 (total u)
            ≡ sum_of at cs u (reset_counted redis u c n s).1 + m)
          × (at (reset_counted redis u c n s).1 (unread u c) ≡ 0)
    counted_late u c n m s within pos grown h =
        let s' : S = (reset_counted redis u c n s).1 in
        let f : ℕ → ℕ = λ d. at s (unread u d) in
        let g : ℕ → ℕ = λ d. at s' (unread u d) in
        let held : n + m ≤ at s (total u) = omega (arith, h, grown, sum_has f c cs within) in
        let le : n ≤ at s (total u) = omega (arith, held) in
        let some_read : ltb 0 n ≡ true = ground (arith, pos) in
        let t : at s' (total u) ≡ at s (total u) - n =
          counted_step redis at laws up u c n (total u) s le ∙ rw (some_read, ==_refl u) refl in
        let each : (d : ℕ) → g d ≡ (if c == d then 0 else f d) = λ d.
          counted_step redis at laws up u c n (unread u d) s le ∙ rw (some_read, ==_refl u) refl in
        let changed : sum g cs + f c ≡ sum f cs + 0 = sum_changed f g c 0 cs each distinct within in
        (omega (arith, t, changed, h, grown, held), each c ∙ rw (==_refl c) refl)

    counted_other :
        (u c n v : ℕ) (s : S)
        → n ≤ at s (total u)
        → (u == v) ≡ false
        → Agrees at cs v s
        → Agrees at cs v (reset_counted redis u c n s).1
    counted_other u c n v s le e h =
        let s' : S = (reset_counted redis u c n s).1 in
        let t : at s' (total v) ≡ at s (total v) =
          counted_step redis at laws up u c n (total v) s le
          ∙ rw e (same_branch (ltb 0 n) (at s (total v))) in
        let each : (d : ℕ) → at s' (unread v d) ≡ at s (unread v d) = λ d.
          counted_step redis at laws up u c n (unread v d) s le
          ∙ rw e (same_branch (ltb 0 n) (at s (unread v d))) in
        t ∙ h ∙ sym (sum_same (λ d. at s (unread v d)) (λ d. at s' (unread v d)) cs each)

    Agrees-same :
        (v : ℕ) (s s' : S)
        → ((k : UnreadKey) → at s' k ≡ at s k)
        → Agrees at cs v s
        → Agrees at cs v s'
    Agrees-same v s s' e h =
        e (total v)
        ∙ h
        ∙ sym (sum_same (λ d. at s (unread v d)) (λ d. at s' (unread v d)) cs (λ d. e (unread v d)))

    nothing_counted : (u c n : ℕ) (s : S) → ltb 0 n ≡ false → (reset_counted redis u c n s).1 ≡ s
    unfolding reset_counted
    nothing_counted u c n s e = rw e refl

    reset-Agrees :
        (u c v : ℕ) (s : S)
        → contains c cs ≡ true
        → Agrees at cs u s
        → Agrees at cs v s
        → Agrees at cs v (reset_unread redis u c s).1
    reset-Agrees u c v s within own h =
        let read : S = (redis.get (unread u c) (redis.get_connection s).1).1 in
        let n : ℕ = at s (unread u c) in
        let (eq, same) = reset_step redis at laws up u c s in
        let own' : Agrees at cs u read = Agrees-same u s read same own in
        let h' : Agrees at cs v read = Agrees-same v s read same h in
        let le : n ≤ at read (total u) =
          omega (arith, own', sum_has (λ d. at read (unread u d)) c cs within, same (unread u c)) in
        let done : Agrees at cs v (reset_counted redis u c n read).1 = elim (Bool-cases (ltb 0 n)) [
          | inr none_read ↦
              Agrees-same v read (reset_counted redis u c n read).1
                (λ k. ap (λ x. at x k) (nothing_counted u c n read none_read)) h'
          | inl some_read ↦ elim (Bool-cases (u == v)) [
            | inr other ↦ counted_other u c n v read le other h'
            | inl mine ↦
                let k : u ≡ v = ground (arith, mine) in
                let late =
                  counted_late u c n 0 read within (ground (arith, some_read))
                    (omega (arith, same (unread u c))) own' in
                let zero_more : sum_of at cs u (reset_counted redis u c n read).1 + 0
                    ≡ sum_of at cs u (reset_counted redis u c n read).1 =
                  omega arith in
                subst (λ w. Agrees at cs w (reset_counted redis u c n read).1) k
                  (late.0 ∙ zero_more)
          ]
        ] in
        subst (λ x. Agrees at cs v x.1) (sym eq) done

    perform-Agrees :
        (call : UnreadCall) (s : S)
        → contains (conversation_of call) cs ≡ true
        → ((v : ℕ) → Agrees at cs v s)
        → (v : ℕ) → Agrees at cs v (perform redis call s)
    perform-Agrees (arrives u c) s within h v = increment-Agrees u c v s within (h v)
    perform-Agrees (reads u c) s within h v = reset-Agrees u c v s within (h u) (h v)

    -- With a Redis that answers, after any calls of `increment_unread` and `reset_unread`, one after
    -- the other and on conversations of a list without repetitions: the total of every user is
    -- the sum of his counts in these conversations, if this held before.
    pub perform_all-Agrees :
        (calls : List UnreadCall) (s : S)
        → All (λ call. contains (conversation_of call) cs ≡ true) calls
        → ((v : ℕ) → Agrees at cs v s)
        → (v : ℕ) → Agrees at cs v (perform_all redis calls s)
    perform_all-Agrees [] s within h v = h v
    perform_all-Agrees (call ∷ calls) s within h v =
        perform_all-Agrees calls (perform redis call s) within.1 (perform-Agrees call s within.0 h)
          v

    arrive_lem :
        (u c k : ℕ) (s : S)
        → contains c cs ≡ true
        → Agrees at cs u s
        → Agrees at cs u (arrive_times redis u c k s)
          × (at (arrive_times redis u c k s) (unread u c) ≡ at s (unread u c) + k)
    arrive_lem u c zero s within h = (h, omega arith)
    arrive_lem u c (suc k) s within h =
        let s1 : S = (increment_unread redis u c s).1 in
        let one : at s1 (unread u c) ≡ suc (at s (unread u c)) =
          increment_step redis at laws up u c (unread u c) s ∙ rw (==_refl u, ==_refl c) refl in
        let (agrees, grown) = arrive_lem u c k s1 within (increment-Agrees u c u s within h) in
        (agrees, omega (arith, one, grown))

    -- `reset_unread` reads the count and later deletes it. With `k` messages that arrive in between,
    -- if the count that it read was not 0: the count is 0 afterwards, also of the `k` messages, and
    -- the total stays above the sum of the counts by `k`.
    pub reset_counted-late :
        (u c k : ℕ) (s : S)
        → contains c cs ≡ true
        → 0 < at s (unread u c)
        → Agrees at cs u s
        → let read : ℕ = at s (unread u c) in
          let after : S = (reset_counted redis u c read (arrive_times redis u c k s)).1 in
          (at after (total u) ≡ sum_of at cs u after + k) × (at after (unread u c) ≡ 0)
    reset_counted-late u c k s within pos h =
        let (agrees, grown) = arrive_lem u c k s within h in
        counted_late u c (at s (unread u c)) k (arrive_times redis u c k s) within pos grown agrees
