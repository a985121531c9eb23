-- ===== src/Subscription.antt =====
-- domain/connection/subscription.rs: the conversation subscriptions of one connection. The set is a
-- list in the order of insertion; the mode is kept as its `u8`.
pub mod Subscribe
pub mod Filter
mod Examples
pub mod Unsubscribe
use ara_chat_service.Base.{
  ℕ, ◌++◌, Bool, true, false, not, ◌||◌, List, [], ◌∷◌, ◌==◌, leb, if◌then◌else◌, length, contains,
  keep, is_empty, IsDistinct, ◌≤◌,
}

pub data SubscriptionMode : Type 0 where
  legacy explicit : SubscriptionMode

-- `mode as u8`
abbrev pub mode_to_u8 : SubscriptionMode → ℕ
mode_to_u8 legacy = 0
mode_to_u8 explicit = 1

-- `From<u8>`: all but 1 is the legacy mode.
unfoldable pub mode_from_u8 : ℕ → SubscriptionMode
mode_from_u8 value = if value == 1 then explicit else legacy

pub record SubscriptionResult : Type 0 where
  pub subscribed : List ℕ
  pub unsubscribed : List ℕ

unfoldable pub has_changes : SubscriptionResult → Bool
has_changes r = not (is_empty r.subscribed) || not (is_empty r.unsubscribed)

pub record ConnectionSubscriptions : Type 0 where
  pub subscriptions : List ℕ
  pub mode : ℕ
  pub max_subscriptions : ℕ

unfoldable pub new : ℕ → ConnectionSubscriptions
new max_subscriptions = record {
  subscriptions = [];
  mode = mode_to_u8 legacy;
  max_subscriptions = max_subscriptions;
}

-- The loop of `subscribe`: it breaks at the limit, and skips what is in the set.
unfoldable pub subscribe_loop : ℕ → List ℕ → List ℕ → List ℕ → List ℕ × List ℕ
subscribe_loop limit [] set added = (set, added)
subscribe_loop limit (id ∷ ids) set added =
    let rest =
      subscribe_loop limit ids (if contains id set then set else set ++ id ∷ [])
        (if contains id set then added else added ++ id ∷ []) in
    if leb limit (length set) then (set, added) else rest

unfoldable pub subscribe :
    ConnectionSubscriptions → List ℕ → ConnectionSubscriptions × SubscriptionResult
subscribe s ids =
    let (set, added) = subscribe_loop s.max_subscriptions ids s.subscriptions [] in
    (
      record s { subscriptions = set; mode = mode_to_u8 explicit },
      record { subscribed = added; unsubscribed = [] },
    )

-- `DashSet::remove`
abbrev pub set_remove : ℕ → List ℕ → List ℕ
set_remove id = keep (λ other. not (other == id))

unfoldable pub unsubscribe_loop : List ℕ → List ℕ → List ℕ → List ℕ × List ℕ
unsubscribe_loop [] set removed = (set, removed)
unsubscribe_loop (id ∷ ids) set removed =
    unsubscribe_loop ids (set_remove id set)
      (if contains id set then removed ++ id ∷ [] else removed)

unfoldable pub unsubscribe :
    ConnectionSubscriptions → List ℕ → ConnectionSubscriptions × SubscriptionResult
unsubscribe s ids =
    let (set, removed) = unsubscribe_loop ids s.subscriptions [] in
    (record s { subscriptions = set }, record { subscribed = []; unsubscribed = removed })

unfoldable pub is_subscribed : ConnectionSubscriptions → ℕ → Bool
is_subscribed s conversation_id = contains conversation_id s.subscriptions

unfoldable pub is_legacy_mode : ConnectionSubscriptions → Bool
unfolding mode_from_u8
is_legacy_mode s = elim (mode_from_u8 s.mode) [ legacy ↦ true | explicit ↦ false ]

unfoldable pub is_explicit_mode : ConnectionSubscriptions → Bool
unfolding mode_from_u8
is_explicit_mode s = elim (mode_from_u8 s.mode) [ legacy ↦ false | explicit ↦ true ]

unfoldable pub should_receive : ConnectionSubscriptions → ℕ → Bool → Bool
unfolding is_legacy_mode is_subscribed
should_receive s conversation_id is_system_message =
    if is_system_message
    then true
    else if is_legacy_mode s
    then true
    else is_subscribed s conversation_id

unfoldable pub count : ConnectionSubscriptions → ℕ
count s = length s.subscriptions

unfoldable pub clear : ConnectionSubscriptions → ConnectionSubscriptions
clear s = record s { subscriptions = [] }

-- The set holds nothing twice and is within the limit.
pub record IsValid (s : ConnectionSubscriptions) : Type 0 where
  pub distinct : IsDistinct s.subscriptions
  pub bounded : length s.subscriptions ≤ s.max_subscriptions
