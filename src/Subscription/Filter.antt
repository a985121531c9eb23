-- ===== src/Subscription/Filter.antt =====
-- Which messages a connection takes after any sequence of calls, domain/connection/subscription.rs.
use ara_chat_service.Base.{
  ℕ, Bool, true, false, not, ◌||◌, ◌&&◌, List, [], ◌∷◌, ◌≡◌, refl, arith, if◌then◌else◌, contains,
}
use ara_chat_service.Subscription.{
  ConnectionSubscriptions, IsValid, explicit, mode_to_u8, new, subscribe, unsubscribe, clear,
  is_subscribed, is_legacy_mode, should_receive,
}
use ara_chat_service.Subscription.Subscribe.{subscribe-IsValid}
use ara_chat_service.Subscription.Unsubscribe.{unsubscribe-IsValid, unsubscribe_exact}

pub data Call : Type 0 where
  subscribes unsubscribes : List ℕ → Call
  clears : Call

pub step : ConnectionSubscriptions → Call → ConnectionSubscriptions
step s (subscribes ids) = (subscribe s ids).0
step s (unsubscribes ids) = (unsubscribe s ids).0
step s clears = clear s

pub run : ConnectionSubscriptions → List Call → ConnectionSubscriptions
run s [] = s
run s (c ∷ cs) = run (step s c) cs

pub has_subscribe : List Call → Bool
has_subscribe [] = false
has_subscribe (subscribes ids ∷ cs) = true
has_subscribe (unsubscribes ids ∷ cs) = has_subscribe cs
has_subscribe (clears ∷ cs) = has_subscribe cs

step-IsValid : (s : ConnectionSubscriptions) (c : Call) → IsValid s → IsValid (step s c)
unfolding step clear
step-IsValid s (subscribes ids) v = subscribe-IsValid s ids v
step-IsValid s (unsubscribes ids) v = unsubscribe-IsValid s ids v
step-IsValid s clears v = record { distinct = tt; bounded = omega arith }

run-IsValid : (s : ConnectionSubscriptions) (cs : List Call) → IsValid s → IsValid (run s cs)
unfolding run
run-IsValid s [] v = v
run-IsValid s (c ∷ cs) v = run-IsValid (step s c) cs (step-IsValid s c v)

run-mode :
    (s : ConnectionSubscriptions) (cs : List Call)
    → (run s cs).mode ≡ (if has_subscribe cs then mode_to_u8 explicit else s.mode)
unfolding run has_subscribe step subscribe unsubscribe clear
run-mode s [] = refl
run-mode s (subscribes ids ∷ cs) = ground (arith, run-mode (step s (subscribes ids)) cs)
run-mode s (unsubscribes ids ∷ cs) = ground (arith, run-mode (step s (unsubscribes ids)) cs)
run-mode s (clears ∷ cs) = ground (arith, run-mode (step s clears) cs)

-- After any calls on a new connection the set is valid. It takes a system message always; another
-- one always if there was no call of `subscribe`, and otherwise just if it is in the set.
pub run-should_receive :
    (limit : ℕ) (cs : List Call) (conversation_id : ℕ) (is_system : Bool)
    → IsValid (run (new limit) cs)
      × (should_receive (run (new limit) cs) conversation_id is_system ≡ (
          is_system
          || not (has_subscribe cs)
          || is_subscribed (run (new limit) cs) conversation_id))
unfolding should_receive
run-should_receive limit cs c is_system = (
  run-IsValid (new limit) cs (unfold new in record { distinct = tt; bounded = omega arith }),
  unfold new in ground (arith, run-mode (new limit) cs),
)

-- Leaving conversations takes just their messages away from a connection in the explicit mode, and
-- nothing from one in the legacy mode.
should_receive-unsubscribe :
    (s : ConnectionSubscriptions) (ids : List ℕ) (c : ℕ)
    → should_receive (unsubscribe s ids).0 c false
      ≡ (is_legacy_mode s || (should_receive s c false && not (contains c ids)))
unfolding should_receive unsubscribe
should_receive-unsubscribe s ids c = ground (arith, unsubscribe_exact s ids c)
