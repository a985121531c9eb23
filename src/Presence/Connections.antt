-- ===== src/Presence/Connections.antt =====
-- The count of connections that `mark_online` and `mark_offline` of domain/presence/tracker.rs keep.
use Prim.Native.String.{String}
use mathlib.Core.Path.{subst}
use ara_chat_service.Base.{
  ℕ, suc, ◌-◌, ◌≡◌, ◌∙◌, ap, List, [], ◌∷◌, some, ◌==◌, ltb, if◌then◌else◌, arith, Bool-cases, inl,
  inr,
}
use ara_chat_service.Base.Results.{ok}
use ara_chat_service.Base.Offsets.{ℤ}
use ara_chat_service.Redis.Hashes.{RedisHashes, number_of, Fields, Documented}
use ara_chat_service.Presence.Status.{StatusTracker, mark_online, mark_offline}
use ara_chat_service.Presence.Counting.{
  or_offline, Shows, mark_online-Shows, mark_online-other, mark_offline-Shows, mark_offline-other,
}

-- A connection of the user begins, or ends.
pub data StatusCall : Type 0 where
  connects leaves : (user_id : ℕ) → StatusCall

abbrev pub connections_after : ℕ → StatusCall → ℕ → ℕ
connections_after v (connects u) n = if u == v then suc n else n
connections_after v (leaves u) n = if u == v then n - 1 else n

abbrev pub connections_after_all : ℕ → List StatusCall → ℕ → ℕ
connections_after_all v [] n = n
connections_after_all v (c ∷ cs) n = connections_after_all v cs (connections_after v c n)

module _ {S : Type 0} (redis : RedisHashes S) (at : S → Fields) (laws : Documented redis at)
    (server_id : String) (ttl : ℤ) (now : ℤ) where
  abbrev pub tracker : StatusTracker S
  tracker = record { redis = some redis; server_id = server_id; ttl_seconds = ttl }

  abbrev pub perform : StatusCall → S → S
  perform (connects u) s = (mark_online tracker now u s).1
  perform (leaves u) s = (mark_offline tracker now u s).1

  abbrev pub perform_all : List StatusCall → S → S
  perform_all [] s = s
  perform_all (c ∷ cs) s = perform_all cs (perform c s)

  Shows-same :
      (v n : ℕ) (s s' : S)
      → ((f : String) → at s' v f ≡ at s v f)
      → Shows (at s) v n
      → Shows (at s') v n
  Shows-same v n s s' e sh = record {
    counted = ap number_of (e "connections") ∙ sh.counted;
    status = ap or_offline (e "status") ∙ sh.status;
  }

  perform-Shows :
      (c : StatusCall) (n : ℕ → ℕ) (s : S)
      → ((v : ℕ) → Shows (at s) v (n v))
      → (v : ℕ) → Shows (at (perform c s)) v (connections_after v c (n v))
  perform-Shows (connects u) n s sh v = elim (Bool-cases (u == v)) [
    | inl mine ↦
        let k : u ≡ v = ground (arith, mine) in
        rw mine (
          subst (λ w. Shows (at (mark_online tracker now u s).1) w (suc (n w))) k
            (mark_online-Shows redis at laws server_id ttl now u (n u) s (sh u).counted))
    | inr other ↦ rw other (
        Shows-same v (n v) s (mark_online tracker now u s).1
          (λ f. mark_online-other redis at laws server_id ttl now u v f s other) (sh v))
  ]
  perform-Shows (leaves u) n s sh v = elim (Bool-cases (u == v)) [
    | inl mine ↦
        let k : u ≡ v = ground (arith, mine) in
        rw mine (
          subst (λ w. Shows (at (mark_offline tracker now u s).1) w (n w - 1)) k
            (mark_offline-Shows redis at laws server_id ttl now u (n u) s (sh u)).1)
    | inr other ↦ rw other (
        Shows-same v (n v) s (mark_offline tracker now u s).1
          (λ f.
            mark_offline-other redis at laws server_id ttl now u v (n u) f s (sh u).counted other)
          (sh v))
  ]

  -- With a Redis that answers, after any calls of `mark_online` and `mark_offline`, one after the
  -- other and with no key lapsing: the hash of every user counts his connections, one more for
  -- each call of the one, one less but never below 0 for each of the other, and shows him online
  -- if the count is not 0 and else offline, if it did so before, where a user without a hash has
  -- the count 0 and is offline; and a `mark_offline` that follows answers true exactly if the count
  -- is at most 1.
  pub perform_all-Shows :
      (cs : List StatusCall) (n : ℕ → ℕ) (s : S)
      → ((v : ℕ) → Shows (at s) v (n v))
      → (v : ℕ)
      → Shows (at (perform_all cs s)) v (connections_after_all v cs (n v))
        × ((mark_offline tracker now v (perform_all cs s)).0
            ≡ ok (ltb (connections_after_all v cs (n v)) 2))
  perform_all-Shows [] n s sh v =
      (sh v, (mark_offline-Shows redis at laws server_id ttl now v (n v) s (sh v)).0)
  perform_all-Shows (c ∷ cs) n s sh v =
      perform_all-Shows cs (λ w. connections_after w c (n w)) (perform c s) (perform-Shows c n s sh)
        v
