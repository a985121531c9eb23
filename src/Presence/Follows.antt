-- ===== src/Presence/Follows.antt =====
-- Calls of `subscribe`, `unsubscribe` and `clear_subscriptions` of domain/presence/tracker.rs, one
-- after the other.
use Prim.Native.String.{String}
use mathlib.Core.Path.{subst}
use ara_chat_service.Base.{
  ℕ, ◌≡◌, refl, ◌∙◌, sym, ap, Bool, false, List, [], ◌∷◌, some, ◌==◌, arith, Bool-cases, inl, inr,
}
use ara_chat_service.Base.Results.{ok}
use ara_chat_service.Base.Stateful.{Stateful, pure, ◌>>◌, >>=-eq-ok}
use ara_chat_service.Redis.{run}
use ara_chat_service.Redis.Chains.{run-eq-ok, or_error-eq-ok}
use ara_chat_service.Redis.Sets.{RedisSets, SetOp, View, apply_all, contains_text, Documented}
use ara_chat_service.Session.{UserTexts}
use ara_chat_service.Session.Servers.{AreTexts}
use ara_chat_service.Presence.{
  PresenceKey, subscribers, subscriptions, same_key, PresenceTracker, PresenceError, redis_error,
  subscribe_ops, unsubscribe_ops, clear_ops, clear_listed, subscribe, unsubscribe,
  clear_subscriptions,
}
use ara_chat_service.Presence.Mirror.{
  PresenceCall, subscribes, unsubscribes, clears, follows_after, follows, subscribed_set,
  subscriptions_set, unsubscribed_set, unsubscriptions_set, same_if, same_nested,
}
use ara_chat_service.Presence.Clearing.{
  clear_own_list, clear_other_list, clear_other_set, clear_own_set,
}

abbrev pub tracker_of : {S : Type 0} → RedisSets S PresenceKey → PresenceTracker S
tracker_of redis = record { redis = some redis }

abbrev pub perform :
    {S : Type 0}
    → UserTexts
    → RedisSets S PresenceKey
    → PresenceCall
    → Stateful S PresenceError (Unit {0})
perform texts redis (subscribes c ts) = subscribe texts (tracker_of redis) c ts
perform texts redis (unsubscribes c ts) = unsubscribe texts (tracker_of redis) c ts
perform texts redis (clears c) = clear_subscriptions texts (tracker_of redis) c

abbrev pub perform_all :
    {S : Type 0}
    → UserTexts
    → RedisSets S PresenceKey
    → List PresenceCall
    → Stateful S PresenceError (Unit {0})
perform_all texts redis [] = pure tt
perform_all texts redis (c ∷ cs) = do perform texts redis c; perform_all texts redis cs

-- Both families of sets tell the same.
abbrev pub Mirrors : {S : Type 0} → UserTexts → (S → View PresenceKey) → S → Type 0
Mirrors texts at s =
    (a b : ℕ)
    → at s (subscribers b) (texts.to_string a) ≡ at s (subscriptions a) (texts.to_string b)

module _ {S : Type 0} (texts : UserTexts) (apart : AreTexts texts)
    (parses : (u : ℕ) → texts.parse_str (texts.to_string u) ≡ some u)
    (redis : RedisSets S PresenceKey) (at : S → View PresenceKey)
    (laws : Documented same_key redis at)
    (lists : (k : PresenceKey) (s : S)
      → (ts : List String) × ((redis.smembers k s).0 ≡ some ts)) where
  -- What one call does to the two sets that tell whether `a` is subscribed to `b`.
  abbrev Does : ℕ → ℕ → PresenceCall → S → S → Type 0
  Does a b c s s' =
      (at s' (subscribers b) (texts.to_string a)
        ≡ follows_after a b c (at s (subscribers b) (texts.to_string a)))
      × (at s' (subscriptions a) (texts.to_string b)
          ≡ follows_after a b c (at s (subscriptions a) (texts.to_string b)))

  -- A call that is one pipeline changes a set as the pipeline does.
  piped :
      (ops : List (SetOp PresenceKey)) (k : PresenceKey) (m : String) (f : Bool → Bool) (s : S)
      → ((v : View PresenceKey) → apply_all same_key ops v k m ≡ f (v k m))
      → ((do run redis_error redis.get_connection; run redis_error (redis.pipe ops)) s).0 ≡ ok tt
      → at ((do run redis_error redis.get_connection; run redis_error (redis.pipe ops)) s).1 k m
        ≡ f (at s k m)
  piped ops k m f s does h =
      let s0 : S = (redis.get_connection s).1 in
      let (a, h0, e0) =
        run-eq-ok redis_error redis.get_connection (λ _. run redis_error (redis.pipe ops)) s tt h in
      let h1 : (redis.pipe ops s0).0 ≡ some tt =
        or_error-eq-ok redis_error (redis.pipe ops s0).0 tt (ap (λ p. p.0) (sym e0) ∙ h) in
      ap (λ p. at p.1 k m) e0
      ∙ laws.piped ops k m s0 h1
      ∙ does (at s0)
      ∙ ap f (laws.connected k m s h0)

  subscribe-Does :
      (a b c : ℕ) (ts : List ℕ) (s : S)
      → (perform texts redis (subscribes c ts) s).0 ≡ ok tt
      → Does a b (subscribes c ts) s (perform texts redis (subscribes c ts) s).1
  unfolding subscribe
  subscribe-Does a b c [] s h = (
    same_nested (c == a) (b == c) (at s (subscribers b) (texts.to_string a)),
    same_nested (c == a) (b == c) (at s (subscriptions a) (texts.to_string b)),
  )
  subscribe-Does a b c (t ∷ ts) s h =
      let ops : List (SetOp PresenceKey) = subscribe_ops texts c (t ∷ ts) in
      let after : Bool → Bool = follows_after a b (subscribes c (t ∷ ts)) in
      (
        piped ops (subscribers b) (texts.to_string a) after s
            (subscribed_set texts apart c a b (t ∷ ts)) h,
        piped ops (subscriptions a) (texts.to_string b) after s
            (subscriptions_set texts apart c a b (t ∷ ts)) h,
      )

  unsubscribe-Does :
      (a b c : ℕ) (ts : List ℕ) (s : S)
      → (perform texts redis (unsubscribes c ts) s).0 ≡ ok tt
      → Does a b (unsubscribes c ts) s (perform texts redis (unsubscribes c ts) s).1
  unfolding unsubscribe
  unsubscribe-Does a b c [] s h = (
    same_if (c == a) (at s (subscribers b) (texts.to_string a)),
    same_if (c == a) (at s (subscriptions a) (texts.to_string b)),
  )
  unsubscribe-Does a b c (t ∷ ts) s h =
      let ops : List (SetOp PresenceKey) = unsubscribe_ops texts c (t ∷ ts) in
      let after : Bool → Bool = follows_after a b (unsubscribes c (t ∷ ts)) in
      (
        piped ops (subscribers b) (texts.to_string a) after s
            (unsubscribed_set texts apart c a b (t ∷ ts)) h,
        piped ops (subscriptions a) (texts.to_string b) after s
            (unsubscriptions_set texts apart c a b (t ∷ ts)) h,
      )

  -- The rest of `clear_subscriptions`, with the targets that were listed.
  listed-Does :
      (a b c : ℕ) (targets : List String) (s : S)
      → Mirrors texts at s
      → ((m : String) → contains_text m targets ≡ at s (subscriptions c) m)
      → (clear_listed texts redis c targets s).0 ≡ ok tt
      → Does a b (clears c) s (clear_listed texts redis c targets s).1
  listed-Does a b c [] s mirrors listed h = elim (Bool-cases (c == a)) [
    | inl mine ↦
        let k : c ≡ a = ground (arith, mine) in
        let gone : at s (subscriptions a) (texts.to_string b) ≡ false = sym (
          subst (λ u. false ≡ at s (subscriptions u) (texts.to_string b)) k
            (listed (texts.to_string b))) in
        rw mine (mirrors a b ∙ gone, gone)
    | inr other ↦ rw other (refl, refl)
  ]
  listed-Does a b c (t ∷ ts) s mirrors listed h =
      let L : List String = t ∷ ts in
      let piped_ok : (redis.pipe (clear_ops texts c L) s).0 ≡ some tt =
        or_error-eq-ok redis_error (redis.pipe (clear_ops texts c L) s).0 tt h in
      let set = laws.piped (clear_ops texts c L) (subscribers b) (texts.to_string a) s piped_ok in
      let list =
        laws.piped (clear_ops texts c L) (subscriptions a) (texts.to_string b) s piped_ok in
      elim (Bool-cases (c == a)) [
        | inl mine ↦
            let k : c ≡ a = ground (arith, mine) in
            let own : apply_all same_key (clear_ops texts c L) (at s) (subscribers b)
                  (texts.to_string c)
                ≡ false =
              clear_own_set texts apart c b L (at s) (parses b)
                (mirrors c b ∙ sym (listed (texts.to_string b))) in
            rw mine (
              set
                  ∙ subst
                      (λ u.
                        apply_all same_key (clear_ops texts c L) (at s) (subscribers b)
                          (texts.to_string u)
                        ≡ false)
                      k own,
              list
                  ∙ subst
                      (λ u.
                        apply_all same_key (clear_ops texts c L) (at s) (subscriptions u)
                          (texts.to_string b)
                        ≡ false)
                      k (clear_own_list texts apart c (texts.to_string b) L (at s)),
            )
        | inr other ↦ rw other (
          set ∙ clear_other_set texts apart c a b L (at s) other,
          list ∙ clear_other_list texts apart c a (texts.to_string b) L (at s) other,
        )
      ]

  clear-Does :
      (a b c : ℕ) (s : S)
      → Mirrors texts at s
      → (perform texts redis (clears c) s).0 ≡ ok tt
      → Does a b (clears c) s (perform texts redis (clears c) s).1
  unfolding clear_subscriptions
  clear-Does a b c s mirrors h =
      let s0 : S = (redis.get_connection s).1 in
      let s1 : S = (redis.smembers (subscriptions c) s0).1 in
      let (targets, e) = lists (subscriptions c) s0 in
      let (t, h0, e0) = run-eq-ok redis_error redis.get_connection _ s tt h in
      let all : perform texts redis (clears c) s ≡ clear_listed texts redis c targets s1 =
        e0 ∙ rw e refl in
      let same : (k : PresenceKey) (m : String) → at s1 k m ≡ at s k m =
        λ k m. laws.list_keeps (subscriptions c) k m s0 ∙ laws.connected k m s h0 in
      let done =
        listed-Does a b c targets s1
          (λ x y.
            same (subscribers y) (texts.to_string x)
            ∙ mirrors x y
            ∙ sym (same (subscriptions x) (texts.to_string y)))
          (λ m.
            laws.lists (subscriptions c) m s0 targets e
            ∙ sym (laws.list_keeps (subscriptions c) (subscriptions c) m s0))
          (ap (λ p. p.0) (sym all) ∙ h) in
      (
        ap (λ p. at p.1 (subscribers b) (texts.to_string a)) all
            ∙ done.0
            ∙ ap (follows_after a b (clears c)) (same (subscribers b) (texts.to_string a)),
        ap (λ p. at p.1 (subscriptions a) (texts.to_string b)) all
            ∙ done.1
            ∙ ap (follows_after a b (clears c)) (same (subscriptions a) (texts.to_string b)),
      )

  perform-Does :
      (a b : ℕ) (c : PresenceCall) (s : S)
      → Mirrors texts at s
      → (perform texts redis c s).0 ≡ ok tt
      → Does a b c s (perform texts redis c s).1
  perform-Does a b (subscribes c ts) s mirrors h = subscribe-Does a b c ts s h
  perform-Does a b (unsubscribes c ts) s mirrors h = unsubscribe-Does a b c ts s h
  perform-Does a b (clears c) s mirrors h = clear-Does a b c s mirrors h

  -- After any calls of `subscribe`, `unsubscribe` and `clear_subscriptions`, all of which succeeded,
  -- on sets that told the same before and are listed when asked: a user is in another's set of
  -- subscribers exactly if the calls on him, in order, leave him subscribed, where a subscription
  -- to oneself is passed over; and the two families of sets still tell the same. No key has
  -- lapsed, and user ids and texts determine each other.
  pub perform_all-Mirrors :
      (a b : ℕ) (cs : List PresenceCall) (s : S)
      → Mirrors texts at s
      → (perform_all texts redis cs s).0 ≡ ok tt
      → (at (perform_all texts redis cs s).1 (subscribers b) (texts.to_string a)
          ≡ follows a b cs (at s (subscribers b) (texts.to_string a)))
        × (at (perform_all texts redis cs s).1 (subscribers b) (texts.to_string a)
            ≡ at (perform_all texts redis cs s).1 (subscriptions a) (texts.to_string b))
  perform_all-Mirrors a b [] s mirrors h = (refl, mirrors a b)
  perform_all-Mirrors a b (c ∷ cs) s mirrors h =
      let s1 : S = (perform texts redis c s).1 in
      let (t, h1, e) = >>=-eq-ok (perform texts redis c) (λ _. perform_all texts redis cs) s tt h in
      let next : Mirrors texts at s1 = λ x y.
        let does = perform-Does x y c s mirrors h1 in
        does.0 ∙ ap (follows_after x y c) (mirrors x y) ∙ sym does.1 in
      let rest = perform_all-Mirrors a b cs s1 next (ap (λ p. p.0) (sym e) ∙ h) in
      (
        ap (λ p. at p.1 (subscribers b) (texts.to_string a)) e
            ∙ rest.0
            ∙ ap (follows a b cs) (perform-Does a b c s mirrors h1).0,
        ap (λ p. at p.1 (subscribers b) (texts.to_string a)) e
            ∙ rest.1
            ∙ ap (λ p. at p.1 (subscriptions a) (texts.to_string b)) (sym e),
      )
