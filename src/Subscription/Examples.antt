-- ===== src/Subscription/Examples.antt =====
-- Runs of domain/connection/subscription.rs on small inputs.
use ara_chat_service.Base.{false, not, ◌||◌, List, [], ◌∷◌, ◌≡◌, refl, arith}
use ara_chat_service.Subscription.{
  ConnectionSubscriptions, IsValid, subscribe, unsubscribe, is_subscribed, should_receive, new,
  subscribe_loop, unsubscribe_loop,
}
use ara_chat_service.Subscription.Subscribe.{subscribe-IsValid}
use ara_chat_service.Subscription.Filter.{
  Call, subscribes, unsubscribes, run, has_subscribe, run-should_receive,
}

-- Two of at most three conversations.
abbrev two : ConnectionSubscriptions
two = record { subscriptions = 7 ∷ 8 ∷ []; mode = 1; max_subscriptions = 3 }

two-IsValid : IsValid two
two-IsValid = record { distinct = (refl, (refl, tt)); bounded = omega arith }

-- The third request is known and the fourth is over the limit.
subscribe_stops : (subscribe two (9 ∷ 8 ∷ 10 ∷ [])).1.subscribed ≡ 9 ∷ []
unfolding subscribe subscribe_loop
subscribe_stops = refl

unsubscribe_twice : (unsubscribe two (8 ∷ 8 ∷ 5 ∷ [])).1.unsubscribed ≡ 8 ∷ []
unfolding unsubscribe unsubscribe_loop
unsubscribe_twice = refl

subscribe-IsValid_example : IsValid (subscribe two (9 ∷ 10 ∷ [])).0
subscribe-IsValid_example = subscribe-IsValid two (9 ∷ 10 ∷ []) two-IsValid

abbrev calls : List Call
calls = subscribes (4 ∷ []) ∷ unsubscribes (4 ∷ []) ∷ []

run-should_receive_example :
    IsValid (run (new 3) calls)
    × (should_receive (run (new 3) calls) 4 false
        ≡ (false || not (has_subscribe calls) || is_subscribed (run (new 3) calls) 4))
run-should_receive_example = run-should_receive 3 calls 4 false
