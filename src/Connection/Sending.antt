-- ===== src/Connection/Sending.antt =====
-- Who gets a message that `send_to_user` of domain/connection/manager.rs sends.
use mathlib.Core.Option
use ara_chat_service.Base.{
  ℕ, true, false, List, [], ◌∷◌, some, ◌≡◌, refl, sym, ap, ◌∙◌, arith, ◌==◌, if◌then◌else◌,
  contains, inl, inr, Bool-cases, Option-cases, IsDistinct,
}
use ara_chat_service.Base.Map.{get, has, insert, get-insert, get-none_of_has}
use ara_chat_service.Connection.{Channel, Connection, ConnectionManager, conns_of, has_user}
use ara_chat_service.Connection.Channels.{transmit, send_each, send_to_user}
use ara_chat_service.Connection.Owned.{owned_by, owned_by-IsDistinct, contains-owned_by}
use ara_chat_service.Connection.Index.{IsValid}

pub has_user_of_get :
    {Sender : Type 0} (j : ℕ) (c : Connection Sender) (m : ConnectionManager Sender)
    → IsValid m
    → get j m.connections ≡ some c
    → has_user m c.user_id ≡ true
unfolding has_user
has_user_of_get j c m v e = elim (Bool-cases (has c.user_id m.user_connections)) [
  | inl there ↦ there
  | inr away ↦
      let nobody : owned_by c.user_id m.connections ≡ [] =
        sym (v.indexed c.user_id)
        ∙ ground (arith, get-none_of_has c.user_id m.user_connections away) in
      absurd (
        ground (
          arith,
          ap (contains j) nobody,
          contains-owned_by c.user_id j c m.connections v.distinct e,
        ))
]

module _ {Sender Msg : Type 0} (channel : Channel Sender Msg) (message : Msg) where
  abbrev pub sent_to : Connection Sender → Connection Sender
  sent_to c = (transmit channel c message).0

  get-send_each :
      (j : ℕ) (ids : List ℕ) (conns : List (ℕ × Connection Sender))
      → IsDistinct ids
      → get j (send_each channel message ids conns)
        ≡ (if contains j ids then Option.map sent_to (get j conns) else get j conns)
  unfolding send_each
  get-send_each j [] conns d = refl
  get-send_each j (id ∷ ids) conns d = elim (Option-cases (get id conns)) [
    | inl e ↦ ground (arith, e, get-send_each j ids conns d.1)
    | inr (c, e) ↦
        let conns' = insert id (sent_to c) conns in
        ground (
          arith,
          e,
          get-send_each j ids conns d.1,
          get-send_each j ids conns' d.1,
          get-insert id j (sent_to c) conns,
        )
  ]

  -- Every connection of the user gets the message, and no other connection is touched.
  pub send_to_user_exact :
      (user_id j : ℕ) (c : Connection Sender) (m : ConnectionManager Sender)
      → IsValid m
      → get j m.connections ≡ some c
      → get j (send_to_user channel m user_id message).connections
        ≡ some (if c.user_id == user_id then sent_to c else c)
  unfolding send_to_user
  send_to_user_exact user_id j c m v e =
      let d = owned_by-IsDistinct user_id m.connections v.distinct in
      rw (v.indexed user_id) (
        ground (
          arith,
          get-send_each j (owned_by user_id m.connections) m.connections d,
          contains-owned_by user_id j c m.connections v.distinct e,
          e,
        ))

  -- A message to a user without a connection goes nowhere.
  pub send_to_user_absent :
      (user_id : ℕ) (m : ConnectionManager Sender)
      → has_user m user_id ≡ false
      → send_to_user channel m user_id message ≡ m
  unfolding send_to_user has_user send_each
  send_to_user_absent user_id m away =
      let nobody : conns_of m user_id ≡ [] =
        rw (conns_of, get-none_of_has user_id m.user_connections away) refl in
      ap (λ ids. record m { connections = send_each channel message ids m.connections }) nobody
