-- ===== src/Presence/Clearing.antt =====
-- The pipeline of `clear_subscriptions` of domain/presence/tracker.rs.
use Prim.Native.String.{String}
use text.Mathlib.Text.{◌==◌ as str_eq}
use text.Mathlib.TextPositions.{eq_refl}
use text.Mathlib.TextEquality.{eq_iff}
use ara_chat_service.Base.{
  ℕ, ◌≡◌, refl, ◌∙◌, ap, Bool, true, false, List, [], ◌∷◌, some, ◌&&◌, ◌==◌, if◌then◌else◌,
  Bool-cases, Option-cases, inl, inr, ==_refl,
}
use ara_chat_service.Redis.Sets.{srem, View, apply, apply_all, contains_text}
use ara_chat_service.Session.{UserTexts}
use ara_chat_service.Session.Servers.{AreTexts}
use ara_chat_service.Presence.{PresenceKey, subscribers, subscriptions, same_key, clear_ops}

never : (p x : Bool) → (if p && false then false else x) ≡ x
never true x = refl
never false x = refl

same_if_false : (p : Bool) → (if p then false else false) ≡ false
same_if_false true = refl
same_if_false false = refl

module _ (texts : UserTexts) (apart : AreTexts texts) where
  abbrev without : ℕ → ℕ → View PresenceKey → View PresenceKey
  without c t v = apply same_key (srem (subscribers t) (texts.to_string c)) v

  pub clear_own_list :
      (c : ℕ) (m : String) (L : List String) (v : View PresenceKey)
      → apply_all same_key (clear_ops texts c L) v (subscriptions c) m ≡ false
  unfolding clear_ops
  clear_own_list c m [] v = rw (==_refl c) refl
  clear_own_list c m (s ∷ L) v = elim (Option-cases (texts.parse_str s)) [
    | inl e ↦ rw e (clear_own_list c m L v)
    | inr (t, e) ↦ rw e (clear_own_list c m L (without c t v))
  ]

  pub clear_other_list :
      (c a : ℕ) (m : String) (L : List String) (v : View PresenceKey)
      → (c == a) ≡ false
      → apply_all same_key (clear_ops texts c L) v (subscriptions a) m ≡ v (subscriptions a) m
  unfolding clear_ops
  clear_other_list c a m [] v n = rw n refl
  clear_other_list c a m (s ∷ L) v n = elim (Option-cases (texts.parse_str s)) [
    | inl e ↦ rw e (clear_other_list c a m L v n)
    | inr (t, e) ↦ rw e (clear_other_list c a m L (without c t v) n)
  ]

  pub clear_other_set :
      (c a b : ℕ) (L : List String) (v : View PresenceKey)
      → (c == a) ≡ false
      → apply_all same_key (clear_ops texts c L) v (subscribers b) (texts.to_string a)
        ≡ v (subscribers b) (texts.to_string a)
  unfolding clear_ops
  clear_other_set c a b [] v n = refl
  clear_other_set c a b (s ∷ L) v n = elim (Option-cases (texts.parse_str s)) [
    | inl e ↦ rw e (clear_other_set c a b L v n)
    | inr (t, e) ↦ rw e (
        clear_other_set c a b L (without c t v) n
        ∙ rw (apart.apart c a, n) (never (t == b) (v (subscribers b) (texts.to_string a))))
  ]

  clear_stays :
      (c b : ℕ) (L : List String) (v : View PresenceKey)
      → v (subscribers b) (texts.to_string c) ≡ false
      → apply_all same_key (clear_ops texts c L) v (subscribers b) (texts.to_string c) ≡ false
  unfolding clear_ops
  clear_stays c b [] v n = n
  clear_stays c b (s ∷ L) v n = elim (Option-cases (texts.parse_str s)) [
    | inl e ↦ rw e (clear_stays c b L v n)
    | inr (t, e) ↦ rw e (
        clear_stays c b L (without c t v)
          (rw n (same_if_false (t == b && str_eq (texts.to_string c) (texts.to_string c)))))
  ]

  clear_listed_set :
      (c b : ℕ) (L : List String) (v : View PresenceKey)
      → texts.parse_str (texts.to_string b) ≡ some b
      → contains_text (texts.to_string b) L ≡ true
      → apply_all same_key (clear_ops texts c L) v (subscribers b) (texts.to_string c) ≡ false
  unfolding clear_ops
  clear_listed_set c b [] v p h = absurd (cc h)
  clear_listed_set c b (s ∷ L) v p h = elim (Bool-cases (str_eq s (texts.to_string b))) [
    | inl here ↦
        let same : s ≡ texts.to_string b = (eq_iff s (texts.to_string b)).0 here in
        let e : texts.parse_str s ≡ some b = ap texts.parse_str same ∙ p in
        rw e (clear_stays c b L (without c b v) (rw (==_refl b, eq_refl (texts.to_string c)) refl))
    | inr later ↦
        let rest : contains_text (texts.to_string b) L ≡ true = rw later at h in
        elim (Option-cases (texts.parse_str s)) [
          | inl e ↦ rw e (clear_listed_set c b L v p rest)
          | inr (t, e) ↦ rw e (clear_listed_set c b L (without c t v) p rest)
        ]
  ]

  -- With the targets read from the subscriber's own set, and with both sets telling the same, no
  -- set of a target keeps the subscriber.
  pub clear_own_set :
      (c b : ℕ) (L : List String) (v : View PresenceKey)
      → texts.parse_str (texts.to_string b) ≡ some b
      → v (subscribers b) (texts.to_string c) ≡ contains_text (texts.to_string b) L
      → apply_all same_key (clear_ops texts c L) v (subscribers b) (texts.to_string c) ≡ false
  clear_own_set c b L v p e = elim (Bool-cases (contains_text (texts.to_string b) L)) [
    | inl listed ↦ clear_listed_set c b L v p listed
    | inr away ↦ clear_stays c b L v (e ∙ away)
  ]
