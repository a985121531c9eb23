-- ===== src/Presence/Mirror.antt =====
-- The two families of sets of domain/presence/tracker.rs after calls by any users.
use ara_chat_service.Base.{
  ℕ, ◌≡◌, refl, ◌∙◌, Bool, true, false, List, [], ◌∷◌, ◌&&◌, ◌==◌, if◌then◌else◌, arith, Bool-cases,
  inl, inr, contains,
}
use ara_chat_service.Redis.Sets.{sadd, srem, View, apply, apply_all}
use ara_chat_service.Session.{UserTexts}
use ara_chat_service.Session.Servers.{AreTexts}
use ara_chat_service.Presence.{
  PresenceKey, subscribers, subscriptions, same_key, subscribe_ops, unsubscribe_ops,
}

pub data PresenceCall : Type 0 where
  subscribes unsubscribes : (subscriber : ℕ) → (targets : List ℕ) → PresenceCall
  clears : (subscriber : ℕ) → PresenceCall

-- Whether `a` is subscribed to `b` after a call.
abbrev pub follows_after : ℕ → ℕ → PresenceCall → Bool → Bool
follows_after a b (subscribes c targets) x =
    if c == a then (if b == c then x else (if contains b targets then true else x)) else x
follows_after a b (unsubscribes c targets) x =
    if c == a then (if contains b targets then false else x) else x
follows_after a b (clears c) x = if c == a then false else x

abbrev pub follows : ℕ → ℕ → List PresenceCall → Bool → Bool
follows a b [] x = x
follows a b (c ∷ cs) x = follows a b cs (follows_after a b c x)

pub same_if : (p x : Bool) → x ≡ (if p then x else x)
same_if true x = refl
same_if false x = refl

pub same_nested : (p q x : Bool) → x ≡ (if p then (if q then x else x) else x)
same_nested true q x = same_if q x
same_nested false q x = refl

own_target :
    (c a b t : ℕ) (ts : List ℕ) (x : Bool)
    → (t == c) ≡ true
    → follows_after a b (subscribes c ts) x ≡ follows_after a b (subscribes c (t ∷ ts)) x
own_target c a b t ts x h = ground (arith, h)

other_target :
    (c a b t : ℕ) (ts : List ℕ) (x : Bool)
    → (t == c) ≡ false
    → follows_after a b (subscribes c ts) (if t == b && c == a then true else x)
      ≡ follows_after a b (subscribes c (t ∷ ts)) x
other_target c a b t ts x h = ground (arith, h)

mine_target :
    (c a b t : ℕ) (ts : List ℕ) (x : Bool)
    → (t == c) ≡ false
    → follows_after a b (subscribes c ts) (if c == a && t == b then true else x)
      ≡ follows_after a b (subscribes c (t ∷ ts)) x
mine_target c a b t ts x h = ground (arith, h)

left_other :
    (c a b t : ℕ) (ts : List ℕ) (x : Bool)
    → follows_after a b (unsubscribes c ts) (if t == b && c == a then false else x)
      ≡ follows_after a b (unsubscribes c (t ∷ ts)) x
left_other c a b t ts x = ground arith

left_mine :
    (c a b t : ℕ) (ts : List ℕ) (x : Bool)
    → follows_after a b (unsubscribes c ts) (if c == a && t == b then false else x)
      ≡ follows_after a b (unsubscribes c (t ∷ ts)) x
left_mine c a b t ts x = ground arith

module _ (texts : UserTexts) (apart : AreTexts texts) where
  -- The first three commands of the pipeline for a target.
  abbrev joined : ℕ → ℕ → View PresenceKey → View PresenceKey
  joined c t v =
      apply same_key (sadd (subscriptions c) (texts.to_string t))
        (apply same_key (sadd (subscribers t) (texts.to_string c)) v)

  pub subscribed_set :
      (c a b : ℕ) (ts : List ℕ) (v : View PresenceKey)
      → apply_all same_key (subscribe_ops texts c ts) v (subscribers b) (texts.to_string a)
        ≡ follows_after a b (subscribes c ts) (v (subscribers b) (texts.to_string a))
  unfolding subscribe_ops
  subscribed_set c a b [] v = same_nested (c == a) (b == c) (v (subscribers b) (texts.to_string a))
  subscribed_set c a b (t ∷ ts) v = elim (Bool-cases (t == c)) [
    | inl own ↦ rw own (
        subscribed_set c a b ts v
        ∙ own_target c a b t ts (v (subscribers b) (texts.to_string a)) own)
    | inr other ↦ rw other (
        subscribed_set c a b ts (joined c t v)
        ∙ rw (apart.apart c a)
            (other_target c a b t ts (v (subscribers b) (texts.to_string a)) other))
  ]

  pub subscriptions_set :
      (c a b : ℕ) (ts : List ℕ) (v : View PresenceKey)
      → apply_all same_key (subscribe_ops texts c ts) v (subscriptions a) (texts.to_string b)
        ≡ follows_after a b (subscribes c ts) (v (subscriptions a) (texts.to_string b))
  unfolding subscribe_ops
  subscriptions_set c a b [] v =
      same_nested (c == a) (b == c) (v (subscriptions a) (texts.to_string b))
  subscriptions_set c a b (t ∷ ts) v = elim (Bool-cases (t == c)) [
    | inl own ↦ rw own (
        subscriptions_set c a b ts v
        ∙ own_target c a b t ts (v (subscriptions a) (texts.to_string b)) own)
    | inr other ↦ rw other (
        subscriptions_set c a b ts (joined c t v)
        ∙ rw (apart.apart t b)
            (mine_target c a b t ts (v (subscriptions a) (texts.to_string b)) other))
  ]

  pub unsubscribed_set :
      (c a b : ℕ) (ts : List ℕ) (v : View PresenceKey)
      → apply_all same_key (unsubscribe_ops texts c ts) v (subscribers b) (texts.to_string a)
        ≡ follows_after a b (unsubscribes c ts) (v (subscribers b) (texts.to_string a))
  unfolding unsubscribe_ops
  unsubscribed_set c a b [] v = same_if (c == a) (v (subscribers b) (texts.to_string a))
  unsubscribed_set c a b (t ∷ ts) v =
      unsubscribed_set c a b ts (
        apply same_key (srem (subscriptions c) (texts.to_string t))
          (apply same_key (srem (subscribers t) (texts.to_string c)) v))
      ∙ rw (apart.apart c a) (left_other c a b t ts (v (subscribers b) (texts.to_string a)))

  pub unsubscriptions_set :
      (c a b : ℕ) (ts : List ℕ) (v : View PresenceKey)
      → apply_all same_key (unsubscribe_ops texts c ts) v (subscriptions a) (texts.to_string b)
        ≡ follows_after a b (unsubscribes c ts) (v (subscriptions a) (texts.to_string b))
  unfolding unsubscribe_ops
  unsubscriptions_set c a b [] v = same_if (c == a) (v (subscriptions a) (texts.to_string b))
  unsubscriptions_set c a b (t ∷ ts) v =
      unsubscriptions_set c a b ts (
        apply same_key (srem (subscriptions c) (texts.to_string t))
          (apply same_key (srem (subscribers t) (texts.to_string c)) v))
      ∙ rw (apart.apart t b) (left_mine c a b t ts (v (subscriptions a) (texts.to_string b)))
