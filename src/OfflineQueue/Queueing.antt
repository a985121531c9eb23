-- ===== src/OfflineQueue/Queueing.antt =====
-- `queue_message` of domain/message/offline_queue.rs, once and many times.
use Prim.Native.String.{String}
use mathlib.Core.List.{append-nil, append_assoc}
use ara_chat_service.Base.{
  ℕ, ◌^◌, ◌≤◌, ◌<◌, ◌≡◌, refl, ◌∙◌, sym, ap, Bool, true, false, List, [], ◌∷◌, ◌++◌, some, inl, inr,
  ◌==◌, if◌then◌else◌, length, take_last, take_last_all, take_last-append-take_last,
  length-take_last, Bool-cases,
}
use ara_chat_service.Base.Results.{ok}
use ara_chat_service.Base.Stateful.{Stateful, pure, ◌>>◌, >>=-eq-ok, >>=-ok}
use ara_chat_service.Base.Offsets.{
  ℤ, negsuc, as_signed, neg, slice, slice_last, as_signed-IsPositive,
}
use ara_chat_service.Redis.Chains.{run-eq-ok, or_error-eq-ok}
use ara_chat_service.Redis.Lists.{RedisLists, Documented, IsUp}
use ara_chat_service.OfflineQueue.{
  QueuedMessage, QueueSerde, OfflineQueue, OfflineQueueError, redis_error, push_text, queue_message,
}

-- The limit and the time to live are not 0, and are numbers of 63 bits.
pub record AreLimits (max ttl : ℕ) : Type 0 where
  pub max_pos : 0 < max
  pub max_small : max < 2 ^ 63
  pub ttl_pos : 0 < ttl
  pub ttl_small : ttl < 2 ^ 63

-- A queue with a connection pool.
abbrev pub on_redis : {S : Type 0} → RedisLists S → ℕ → ℕ → OfflineQueue S
on_redis r max ttl = record { redis = some r; max_messages_per_user = max; message_ttl = ttl }

-- The texts of the entries.
abbrev pub AreTexts : QueueSerde → List QueuedMessage → List String → Type 0
AreTexts serde [] [] = Unit {0}
AreTexts serde [] (t ∷ ts) = ⊥
AreTexts serde (q ∷ qs) [] = ⊥
AreTexts serde (q ∷ qs) (t ∷ ts) = (serde.to_string q ≡ some t) × AreTexts serde qs ts

-- One call after the other, as long as they succeed.
abbrev pub queue_each :
    {S : Type 0}
    → QueueSerde
    → OfflineQueue S
    → ℕ
    → List QueuedMessage
    → Stateful S OfflineQueueError (Unit {0})
queue_each serde queue u [] = pure tt
queue_each serde queue u (q ∷ qs) = do queue_message serde queue u q; queue_each serde queue u qs

module _ {S : Type 0} (serde : QueueSerde) (r : RedisLists S) (items : ℕ → S → List String)
    (laws : Documented r items) (max ttl : ℕ) (limits : AreLimits max ttl) where
  open limits use {max_pos, max_small, ttl_pos, ttl_small}

  trimmed_to :
      (here : Bool) (xs ys : List String) (t : String)
      → ys ≡ (if here then xs ++ t ∷ [] else xs)
      → (if here then slice (neg (as_signed max)) (negsuc 0) ys else ys)
        ≡ (if here then take_last max (xs ++ t ∷ []) else xs)
  trimmed_to true xs ys t e = slice_last max ys max_pos max_small ∙ ap (take_last max) e
  trimmed_to false xs ys t e = e

  push_text_lem :
      (u : ℕ) (t : String) (s : S) (j : ℕ)
      → (push_text serde (on_redis r max ttl) r u t s).0 ≡ ok tt
      → items j (push_text serde (on_redis r max ttl) r u t s).1
        ≡ (if u == j then take_last max (items j s ++ t ∷ []) else items j s)
  push_text_lem u t s j h =
      let start : ℤ = neg (as_signed max) in
      let seconds : ℤ = as_signed ttl in
      let s1 : S = (r.rpush u t s).1 in
      let s2 : S = (r.ltrim u start (negsuc 0) s1).1 in
      let (a, h1, e1) = run-eq-ok redis_error (r.rpush u t) _ s tt h in
      let (b, h2, e2) =
        run-eq-ok redis_error (r.ltrim u start (negsuc 0)) _ s1 tt (ap (λ p. p.0) (sym e1) ∙ h) in
      let h3 : (r.expire u seconds s2).0 ≡ some tt =
        or_error-eq-ok redis_error (r.expire u seconds s2).0 tt
          (ap (λ p. p.0) (sym (e1 ∙ e2)) ∙ h) in
      let p1 : items j s1 ≡ (if u == j then items j s ++ t ∷ [] else items j s) =
        laws.pushed u t j s h1 in
      let p2 : items j s2 ≡ (if u == j then slice start (negsuc 0) (items j s1) else items j s1) =
        laws.trimmed u start (negsuc 0) j s1 h2 in
      ap (λ p. items j p.1) (e1 ∙ e2)
      ∙ laws.expires u seconds j s2 (as_signed-IsPositive ttl ttl_pos ttl_small) h3
      ∙ p2
      ∙ trimmed_to (u == j) (items j s) (items j s1) t p1

  -- One message: the list of the user gets the entry at its end and keeps the last ones, and no
  -- other list changes.
  pub queue_message_step :
      (u : ℕ) (q : QueuedMessage) (t : String) (s : S) (j : ℕ)
      → serde.to_string q ≡ some t
      → (queue_message serde (on_redis r max ttl) u q s).0 ≡ ok tt
      → items j (queue_message serde (on_redis r max ttl) u q s).1
        ≡ (if u == j then take_last max (items j s ++ t ∷ []) else items j s)
  unfolding queue_message
  queue_message_step u q t s j e h =
      let s0 : S = (r.get_connection s).1 in
      let (a, h0, e0) = run-eq-ok redis_error r.get_connection _ s tt h in
      let e' : queue_message serde (on_redis r max ttl) u q s
          ≡ push_text serde (on_redis r max ttl) r u t s0 =
        e0 ∙ rw e refl in
      ap (λ p. items j p.1) e'
      ∙ push_text_lem u t s0 j (ap (λ p. p.0) (sym e') ∙ h)
      ∙ ap (λ xs. if u == j then take_last max (xs ++ t ∷ []) else xs) (laws.connected j s h0)

  pub queue_message-IsUp :
      (u : ℕ) (q : QueuedMessage) (t : String) (s : S)
      → IsUp r
      → serde.to_string q ≡ some t
      → (queue_message serde (on_redis r max ttl) u q s).0 ≡ ok tt
  unfolding queue_message
  queue_message-IsUp u q t s up e =
      let s0 : S = (r.get_connection s).1 in
      let s1 : S = (r.rpush u t s0).1 in
      rw
        (
          up.connects s,
          e,
          up.pushes u t s0,
          up.trims u (neg (as_signed max)) (negsuc 0) s1,
          up.expiring u (as_signed ttl) (r.ltrim u (neg (as_signed max)) (negsuc 0) s1).1,
        )
        refl

  -- When Redis takes all commands, any number of messages is queued for a user, if they have a JSON.
  pub queue_each-IsUp :
      (u : ℕ) (qs : List QueuedMessage) (ts : List String) (s : S)
      → IsUp r
      → AreTexts serde qs ts
      → (queue_each serde (on_redis r max ttl) u qs s).0 ≡ ok tt
  queue_each-IsUp u [] ts s up e = refl
  queue_each-IsUp u (q ∷ qs) [] s up e = absurd e
  queue_each-IsUp u (q ∷ qs) (t ∷ ts) s up e =
      ap (λ p. p.0)
        (>>=-ok (queue_message serde (on_redis r max ttl) u q)
          (λ _. queue_each serde (on_redis r max ttl) u qs) s tt
          (queue_message-IsUp u q t s up e.0))
      ∙ queue_each-IsUp u qs ts (queue_message serde (on_redis r max ttl) u q s).1 up e.1

  kept_all : (xs : List String) → length xs ≤ max → xs ≡ take_last max (xs ++ [])
  kept_all xs b = sym (ap (take_last max) (append-nil xs) ∙ take_last_all max xs b)

  kept_bound :
      (here : Bool) (xs ys zs : List String)
      → zs ≡ (if here then take_last max xs else ys)
      → length ys ≤ max
      → length zs ≤ max
  kept_bound true xs ys zs e b = rw e (length-take_last max xs)
  kept_bound false xs ys zs e b = rw e b

  next_kept :
      (here : Bool) (xs ys : List String) (t : String) (ts : List String)
      → ys ≡ (if here then take_last max (xs ++ t ∷ []) else xs)
      → (if here then take_last max (ys ++ ts) else ys)
        ≡ (if here then take_last max (xs ++ t ∷ ts) else xs)
  next_kept true xs ys t ts e =
      ap (λ zs. take_last max (zs ++ ts)) e
      ∙ take_last-append-take_last max (xs ++ t ∷ []) ts
      ∙ ap (take_last max) (append_assoc xs (t ∷ []) ts)
  next_kept false xs ys t ts e = e

  queue_each_step :
      (u : ℕ) (qs : List QueuedMessage) (ts : List String) (s : S) (j : ℕ)
      → AreTexts serde qs ts
      → length (items j s) ≤ max
      → (queue_each serde (on_redis r max ttl) u qs s).0 ≡ ok tt
      → items j (queue_each serde (on_redis r max ttl) u qs s).1
        ≡ (if u == j then take_last max (items j s ++ ts) else items j s)
  queue_each_step u [] [] s j e b h = elim (Bool-cases (u == j)) [
    | inl t ↦ rw t (kept_all (items j s) b)
    | inr f ↦ rw f refl
  ]
  queue_each_step u [] (t ∷ ts) s j e b h = absurd e
  queue_each_step u (q ∷ qs) [] s j e b h = absurd e
  queue_each_step u (q ∷ qs) (t ∷ ts) s j e b h =
      let s1 : S = (queue_message serde (on_redis r max ttl) u q s).1 in
      let (a, h1, k) =
        >>=-eq-ok (queue_message serde (on_redis r max ttl) u q)
          (λ _. queue_each serde (on_redis r max ttl) u qs) s tt h in
      let step : items j s1 ≡ (if u == j then take_last max (items j s ++ t ∷ []) else items j s) =
        queue_message_step u q t s j e.0 h1 in
      ap (λ p. items j p.1) k
      ∙ queue_each_step u qs ts s1 j e.1
          (kept_bound (u == j) (items j s ++ t ∷ []) (items j s) (items j s1) step b)
          (ap (λ p. p.0) (sym k) ∙ h)
      ∙ next_kept (u == j) (items j s) (items j s1) t ts step

  -- Messages that were all queued for a user, with a limit that is not 0 and a time to live that is
  -- not 0, both below 2^63, and with a list that is within the limit before: of the user's entries
  -- and the new ones, in order, the last ones stay, as many as the limit allows, and a list of
  -- another user is as before; either is within the limit again. Commands of other clients in
  -- between are left out.
  pub queue_each_keeps_last :
      (u : ℕ) (qs : List QueuedMessage) (ts : List String) (s : S) (j : ℕ)
      → AreTexts serde qs ts
      → length (items j s) ≤ max
      → (queue_each serde (on_redis r max ttl) u qs s).0 ≡ ok tt
      → (items j (queue_each serde (on_redis r max ttl) u qs s).1
          ≡ (if u == j then take_last max (items j s ++ ts) else items j s))
        × (length (items j (queue_each serde (on_redis r max ttl) u qs s).1) ≤ max)
  queue_each_keeps_last u qs ts s j e b h =
      let step : items j (queue_each serde (on_redis r max ttl) u qs s).1
          ≡ (if u == j then take_last max (items j s ++ ts) else items j s) =
        queue_each_step u qs ts s j e b h in
      (
        step,
        kept_bound (u == j) (items j s ++ ts) (items j s)
            (items j (queue_each serde (on_redis r max ttl) u qs s).1) step b,
      )
