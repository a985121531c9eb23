-- ===== src/WebSocket/Sets.antt =====
-- What the calls of api/websocket.rs do to the sets of subscriptions.
use mathlib.Core.Option
use ara_chat_service.Base.{
  ℕ, List, [], ◌∷◌, Option, ◌==◌, if◌then◌else◌, ◌≡◌, refl, sym, ◌∙◌, arith, Option-cases, inl, inr,
}
use ara_chat_service.Base.Map.{get, insert, get-insert}
use ara_chat_service.Subscription.{ConnectionSubscriptions}
use ara_chat_service.Connection.{
  Channel, Connection, ConnectionManager, conns_of, get_subscriptions,
}
use ara_chat_service.Connection.Channels.{transmit, send_each, send_to_user}
use ara_chat_service.WebSocket.{Desk, put_subscriptions}

module _ {Sender : Type 0} where
  get_subscriptions_lem :
      (m : ConnectionManager Sender) (j : ℕ)
      → get_subscriptions m j ≡ Option.map (λ c. c.subscriptions) (get j m.connections)
  unfolding get_subscriptions
  get_subscriptions_lem m j = elim (Option-cases (get j m.connections)) [
    | inl e ↦ ground (arith, e)
    | inr (c, e) ↦ ground (arith, e)
  ]

  pub get_subscriptions-put :
      (i j : ℕ) (subs : ConnectionSubscriptions) (m : ConnectionManager Sender)
      → get_subscriptions (put_subscriptions i subs m) j
        ≡ (if i == j then Option.map (λ s. subs) (get_subscriptions m j) else get_subscriptions m j)
  unfolding get_subscriptions
  get_subscriptions-put i j subs m = elim (Option-cases (get i m.connections)) [
    | inl e ↦ ground (arith, e)
    | inr (c, e) ↦
        ground (arith, e, get-insert i j (record c { subscriptions = subs }) m.connections)
  ]

module _ {Sender Msg : Type 0} (channel : Channel Sender Msg) (message : Msg) where
  send_each-subscriptions :
      (j : ℕ) (ids : List ℕ) (conns : List (ℕ × Connection Sender))
      → Option.map (λ c. c.subscriptions) (get j (send_each channel message ids conns))
        ≡ Option.map (λ c. c.subscriptions) (get j conns)
  unfolding send_each
  send_each-subscriptions j [] conns = refl
  send_each-subscriptions j (id ∷ ids) conns = elim (Option-cases (get id conns)) [
    | inl e ↦ ground (arith, e, send_each-subscriptions j ids conns)
    | inr (c, e) ↦
        let c' : Connection Sender = (transmit channel c message).0 in
        ground
          (arith, e, send_each-subscriptions j ids (insert id c' conns), get-insert id j c' conns)
  ]

  -- To send changes no subscriptions.
  pub get_subscriptions-send :
      (user_id j : ℕ) (m : ConnectionManager Sender)
      → get_subscriptions (send_to_user channel m user_id message) j ≡ get_subscriptions m j
  unfolding send_to_user
  get_subscriptions-send user_id j m =
      get_subscriptions_lem (send_to_user channel m user_id message) j
      ∙ send_each-subscriptions j (conns_of m user_id) m.connections
      ∙ sym (get_subscriptions_lem m j)

abbrev pub subscriptions_at :
    {S Sender Queue : Type 0} → Desk S Sender Queue → ℕ → Option ConnectionSubscriptions
subscriptions_at desk j = get_subscriptions desk.site.net.manager j
