-- ===== src/Connection/Examples.antt =====
-- Runs of domain/connection/manager.rs with two small users and a channel that keeps what it takes.
use ara_chat_service.Base.{
  ℕ, ◌≤◌, ◌++◌, Bool, true, false, List, [], ◌∷◌, some, ◌≡◌, refl, arith, ◌==◌, if◌then◌else◌,
  length, keep,
}
use ara_chat_service.Base.Map.{get}
use ara_chat_service.Subscription
use ara_chat_service.Connection.{
  Channel, Connection, ConnectionManager, ok, register, with_limits, store, new_connection,
  default_limits,
}
use ara_chat_service.Connection.Channels.{send_to_user_filtered, send_filtered_each}
use ara_chat_service.Connection.Owned.{owned_by}
use ara_chat_service.Connection.Index.{IsValid}
use ara_chat_service.Connection.Calls.{Registers, register-Registers}
use ara_chat_service.Connection.Delivery.{deliver, takes, send_to_user_filtered_exact}
use ara_chat_service.Connection.Reach.{Reach, here, next, registers, reachable-IsValid}

-- Whether the receiver is gone, and what was sent.
abbrev Line : Type 0
Line = Bool × List ℕ

send_line : Line → ℕ → Line × Bool
send_line (true, sent) message = ((true, sent), false)
send_line (false, sent) message = ((false, sent ++ message ∷ []), true)

abbrev lines : Channel Line ℕ
lines = record { send = send_line; is_closed = λ l. l.0 }

abbrev open_line : Line
open_line = (false, [])

-- Connection 1 of user 10, and what stands before it.
abbrev first : Connection Line
first = new_connection 1 10 "acme" open_line 2 0

abbrev none_yet : ConnectionManager Line
none_yet = with_limits default_limits

abbrev one : ConnectionManager Line
one = store none_yet first

register-first : register none_yet first ≡ ok one
unfolding register with_limits new_connection
register-first = refl

one-Reach : Reach lines none_yet one
unfolding with_limits
one-Reach = next here (registers first one refl register-first)

reachable-IsValid_example :
    IsValid one
    × (one.limits ≡ default_limits)
    × (length one.connections ≤ 100000)
    × ((u : ℕ) → length (owned_by u one.connections) ≤ 5)
reachable-IsValid_example =
    reachable-IsValid lines default_limits one (omega arith) (omega arith) one-Reach

one-IsValid : IsValid one
one-IsValid = (reachable-IsValid lines default_limits one (omega arith) (omega arith) one-Reach).0

-- A second connection of the same user.
abbrev second : Connection Line
second = new_connection 2 10 "acme" (true, []) 2 0

register-Registers_example : Registers one second (register one second)
unfolding with_limits new_connection
register-Registers_example = register-Registers one second one-IsValid refl

register-second : register one second ≡ ok (store one second)
unfolding register with_limits new_connection
register-second = refl

send_to_user_filtered_exact_example :
    let r = send_to_user_filtered lines one 10 4 99 false in
    ((j : ℕ) (c : Connection Line)
      → get j one.connections ≡ some c
      → get j r.0.connections ≡ some (if c.user_id == 10 then deliver lines 4 99 false c else c))
    × (r.1 ≡ length (keep (takes lines 4 99 false one.connections) (owned_by 10 one.connections)))
send_to_user_filtered_exact_example =
    send_to_user_filtered_exact lines 4 99 false one 10 one-IsValid

delivered_once : (send_to_user_filtered lines one 10 4 99 false).1 ≡ 1
unfolding send_to_user_filtered send_filtered_each with_limits new_connection Subscription.new
    Subscription.should_receive send_line
delivered_once = refl
