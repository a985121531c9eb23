-- ===== src/OfflineQueue/Draining.antt =====
-- `drain_messages` of domain/message/offline_queue.rs.
use Prim.Native.String.{String}
use ara_chat_service.Base.{
  ℕ, suc, ◌≤◌, ◌-◌, ◌≡◌, refl, ◌∙◌, sym, ap, Bool, true, false, List, [], ◌∷◌, ◌++◌, some, ◌==◌,
  if◌then◌else◌, length, take_last, drop, drop_zero, ==_refl, arith, zero,
}
use ara_chat_service.Base.Results.{ok}
use ara_chat_service.Base.Offsets.{pos, negsuc, slice_all}
use ara_chat_service.Redis.Lists.{RedisLists, Documented, IsUp}
use ara_chat_service.OfflineQueue.{QueuedMessage, QueueSerde, parse_each, drain_messages}
use ara_chat_service.OfflineQueue.Queueing.{
  AreLimits, on_redis, queue_each, queue_each-IsUp, queue_each_keeps_last, AreTexts,
}

-- Each text parses to its entry.
abbrev pub Parse : QueueSerde → List QueuedMessage → List String → Type 0
Parse serde [] ts = Unit {0}
Parse serde (q ∷ qs) [] = ⊥
Parse serde (q ∷ qs) (t ∷ ts) = (serde.from_str t ≡ some q) × Parse serde qs ts

map_take_last :
    (serde : QueueSerde) (qs : List QueuedMessage) (ts : List String) (n : ℕ)
    → AreTexts serde qs ts
    → Parse serde qs ts
    → parse_each serde (drop n ts) ≡ drop n qs
unfolding parse_each
map_take_last serde [] [] n e back = refl
map_take_last serde [] (t ∷ ts) n e back = absurd e
map_take_last serde (q ∷ qs) [] n e back = absurd e
map_take_last serde (q ∷ qs) (t ∷ ts) zero e back =
    let rest : parse_each serde (drop 0 ts) ≡ drop 0 qs = map_take_last serde qs ts 0 e.1 back.1 in
    rw back.0 (ap (λ r. q ∷ r) (sym (ap (parse_each serde) (drop_zero ts)) ∙ rest ∙ drop_zero qs))
map_take_last serde (q ∷ qs) (t ∷ ts) (suc n) e back = map_take_last serde qs ts n e.1 back.1

length-AreTexts :
    (serde : QueueSerde) (qs : List QueuedMessage) (ts : List String)
    → AreTexts serde qs ts
    → length ts ≡ length qs
length-AreTexts serde [] [] e = refl
length-AreTexts serde [] (t ∷ ts) e = absurd e
length-AreTexts serde (q ∷ qs) [] e = absurd e
length-AreTexts serde (q ∷ qs) (t ∷ ts) e = ap suc (length-AreTexts serde qs ts e.1)

emptied :
    (here : Bool) (xs ys zs : List String)
    → xs ≡ (if here then zs else ys)
    → (if here then [] else xs) ≡ (if here then [] else ys)
emptied true xs ys zs e = refl
emptied false xs ys zs e = e

module _ {S : Type 0} (serde : QueueSerde) (r : RedisLists S) (items : ℕ → S → List String)
    (laws : Documented r items) (max ttl : ℕ) (limits : AreLimits max ttl) where
  drain_step :
      (u : ℕ) (s : S) (j : ℕ)
      → IsUp r
      → ((drain_messages serde (on_redis r max ttl) u s).0 ≡ ok (parse_each serde (items u s)))
        × (items j (drain_messages serde (on_redis r max ttl) u s).1
            ≡ (if u == j then [] else items j s))
  unfolding drain_messages
  drain_step u s j up =
      let s0 : S = (r.get_connection s).1 in
      let (texts, e) = up.ranges u (pos 0) (negsuc 0) s0 in
      let s1 : S = (r.lrange u (pos 0) (negsuc 0) s0).1 in
      let got : texts ≡ items u s =
        laws.ranged u (pos 0) (negsuc 0) s0 texts e
        ∙ slice_all (items u s0)
        ∙ laws.connected u s (up.connects s) in
      let after : items j (r.del u s1).1 ≡ (if u == j then [] else items j s) =
        laws.deleted u j s1 (up.deletes u s1)
        ∙ ap (λ xs. if u == j then [] else xs)
            (laws.range_keeps u (pos 0) (negsuc 0) j s0 ∙ laws.connected j s (up.connects s)) in
      rw (up.connects s, e, up.deletes u s1) (ap (λ ts. ok (parse_each serde ts)) got, after)

  -- Messages that are queued for a user who has none waiting, with sound limits and a Redis that
  -- answers, and then drained: the call returns the last of them, as many as the limit allows, in
  -- order; afterwards the user has none waiting, and the lists of the others are as before.
  -- Each entry is written as a text that parses to it.
  pub drain_messages-queue_each :
      (u : ℕ) (qs : List QueuedMessage) (ts : List String) (s : S) (j : ℕ)
      → IsUp r
      → AreTexts serde qs ts
      → Parse serde qs ts
      → items u s ≡ []
      → length (items j s) ≤ max
      → let after : S = (queue_each serde (on_redis r max ttl) u qs s).1 in
        ((drain_messages serde (on_redis r max ttl) u after).0 ≡ ok (take_last max qs))
        × (items j (drain_messages serde (on_redis r max ttl) u after).1
            ≡ (if u == j then [] else items j s))
  drain_messages-queue_each u qs ts s j up texts back empty bound =
      let after : S = (queue_each serde (on_redis r max ttl) u qs s).1 in
      let sent : (queue_each serde (on_redis r max ttl) u qs s).0 ≡ ok tt =
        queue_each-IsUp serde r items laws max ttl limits u qs ts s up texts in
      let none_waits : length (items u s) ≤ max = rw empty (omega arith) in
      let kept_u : items u after ≡ (if u == u then take_last max (items u s ++ ts) else items u s) =
        (queue_each_keeps_last serde r items laws max ttl limits u qs ts s u texts none_waits
          sent).0 in
      let kept_j : items j after ≡ (if u == j then take_last max (items j s ++ ts) else items j s) =
        (queue_each_keeps_last serde r items laws max ttl limits u qs ts s j texts bound sent).0 in
      let waiting : items u after ≡ take_last max ts = rw (==_refl u, empty) at kept_u in
      let drained = drain_step u after j up in
      let parsed : parse_each serde (take_last max ts) ≡ take_last max qs =
        map_take_last serde qs ts (length ts - max) texts back
        ∙ ap (λ n. drop (n - max) qs) (length-AreTexts serde qs ts texts) in
      (
        drained.0 ∙ ap (λ xs. ok (parse_each serde xs)) waiting ∙ ap ok parsed,
        drained.1
            ∙ emptied (u == j) (items j after) (items j s) (take_last max (items j s ++ ts)) kept_j,
      )
