-- ===== src/WebSocket/Subscribing.antt =====
-- What a connection is subscribed to after `handle_subscribe_conversations` of api/websocket.rs.
use Prim.Native.String.{String}
use mathlib.Core.Option
use ara_chat_service.Base.{
  ℕ, ◌+◌, Bool, true, false, ◌&&◌, ◌||◌, List, [], ◌∷◌, some, ◌==◌, ==_refl, if◌then◌else◌,
  is_empty, contains, contains-append, contains-not_empty, any, ◌≡◌, ◌⊎◌, refl, sym, ap, ◌∙◌, arith,
  Bool-cases, inl, inr,
}
use ara_chat_service.Database.{ParticipantRow, World}
use ara_chat_service.Subscription.{
  ConnectionSubscriptions, IsValid, is_subscribed, subscribe, count,
}
use ara_chat_service.Subscription.Subscribe.{subscribe_only, subscribe_complete, subscribe_reported}
use ara_chat_service.Connection.{Channel}
use ara_chat_service.Conversation.{is_active, is_participant}
use ara_chat_service.WebSocket.Sets.{
  get_subscriptions-put, get_subscriptions-send, subscriptions_at,
}
use ara_chat_service.Message.{OutboundMessage}
use ara_chat_service.WebSocket.{AppState, Desk, with_world, put_subscriptions}
use ara_chat_service.WebSocket.Requests.{
  valid_each, subscribe_valid, handle_subscribe_conversations,
}

-- A conversation of which the tables say that the user takes part in it.
abbrev pub takes_part : String → ℕ → List ParticipantRow → ℕ → Bool
takes_part tenant user_id rows c = any (is_active tenant c user_id) rows

module _ (tenant : String) (user_id : ℕ) where
  valid_each-tables :
      (ids : List ℕ) (w : World)
      → ((valid_each tenant user_id ids w).1.tables ≡ w.tables)
        × ((valid_each tenant user_id ids w).1.answers ≡ w.answers)
  unfolding valid_each is_participant
  valid_each-tables [] w = (refl, refl)
  valid_each-tables (id ∷ ids) w =
      let (t, a) = valid_each-tables ids (record w { queries = w.queries + 1 }) in
      elim (Bool-cases (w.answers w.queries)) [ inl up ↦ rw up (t, a) | inr down ↦ rw down (t, a) ]

  -- The valid ids are requested ones of conversations of the user.
  contains-valid_each :
      (c : ℕ) (ids : List ℕ) (w : World)
      → contains c (valid_each tenant user_id ids w).0 ≡ true
      → (contains c ids ≡ true) × (takes_part tenant user_id w.tables.participants c ≡ true)
  unfolding valid_each is_participant
  contains-valid_each c [] w h = cc
  contains-valid_each c (id ∷ ids) w h =
      ground (arith, contains-valid_each c ids (record w { queries = w.queries + 1 }))

  -- Every conversation of the user that is requested is valid, when the database answers.
  valid_each-contains :
      (c : ℕ) (ids : List ℕ) (w : World)
      → ((n : ℕ) → w.answers n ≡ true)
      → contains c ids ≡ true
      → takes_part tenant user_id w.tables.participants c ≡ true
      → contains c (valid_each tenant user_id ids w).0 ≡ true
  unfolding valid_each is_participant
  valid_each-contains c [] w up h part = cc
  valid_each-contains c (id ∷ ids) w up h part =
      ground
        (arith, up w.queries, valid_each-contains c ids (record w { queries = w.queries + 1 }) up)

subscribe_old :
    (s : ConnectionSubscriptions) (ids : List ℕ) (c : ℕ)
    → is_subscribed s c ≡ true
    → is_subscribed (subscribe s ids).0 c ≡ true
unfolding is_subscribed
subscribe_old s ids c h =
    let (grown, _) = subscribe_reported s ids in
    ap (contains c) grown
    ∙ contains-append c s.subscriptions (subscribe s ids).1.subscribed
    ∙ rw h refl

subscribe_valid-world :
    {S Sender Queue : Type 0} (channel : Channel Sender OutboundMessage) (connection_id user_id : ℕ)
    (s : ConnectionSubscriptions) (ids : List ℕ) (desk : Desk S Sender Queue)
    → (subscribe_valid channel connection_id user_id s ids desk).site.world ≡ desk.site.world
subscribe_valid-world channel connection_id user_id s [] desk = refl
subscribe_valid-world channel connection_id user_id s (id ∷ ids) desk = refl

module _ {S Sender Queue : Type 0} (channel : Channel Sender OutboundMessage)
    (connection_id user_id : ℕ) (s : ConnectionSubscriptions) (desk : Desk S Sender Queue)
    (there : subscriptions_at desk connection_id ≡ some s) where
  -- The subscriptions after the answer, for the connection and for the others.
  subscribe_valid-at :
      (ids : List ℕ) (j : ℕ)
      → subscriptions_at (subscribe_valid channel connection_id user_id s ids desk) j ≡ (
          if connection_id == j
          then some (if is_empty ids then s else (subscribe s ids).0)
          else subscriptions_at desk j)
  subscribe_valid-at [] j =
      get_subscriptions-send channel _ user_id j desk.site.net.manager
      ∙ elim (Bool-cases (connection_id == j)) [
        | inl own ↦
            let k : connection_id ≡ j = ground (arith, own) in
            rw own (ap (subscriptions_at desk) (sym k) ∙ there)
        | inr other ↦ rw other refl
      ]
  subscribe_valid-at (id ∷ ids) j =
      let s' : ConnectionSubscriptions = (subscribe s (id ∷ ids)).0 in
      get_subscriptions-send channel _ user_id j
        (put_subscriptions connection_id s' desk.site.net.manager)
      ∙ get_subscriptions-put connection_id j s' desk.site.net.manager
      ∙ elim (Bool-cases (connection_id == j)) [
        | inl own ↦
            let k : connection_id ≡ j = ground (arith, own) in
            rw own (ap (Option.map (λ x. s')) (ap (subscriptions_at desk) (sym k) ∙ there))
        | inr other ↦ rw other refl
      ]

module _ {S Sender Queue : Type 0} (channel : Channel Sender OutboundMessage)
    (state : AppState S Queue) (tenant : String)
    (serviced : state.conversation_service ≡ some tenant) (connection_id user_id : ℕ) (ids : List ℕ)
    (s : ConnectionSubscriptions) (desk : Desk S Sender Queue)
    (there : subscriptions_at desk connection_id ≡ some s) where
  abbrev valid : List ℕ
  valid = (valid_each tenant user_id ids desk.site.world).0

  abbrev pub after : Desk S Sender Queue
  after = handle_subscribe_conversations channel state connection_id user_id ids desk

  after_lem :
      after
      ≡ subscribe_valid channel connection_id user_id s valid
          (with_world (valid_each tenant user_id ids desk.site.world).1 desk)
  unfolding handle_subscribe_conversations
  after_lem = rw (handle_subscribe_conversations, there, serviced) refl

  after-at :
      (j : ℕ)
      → subscriptions_at after j ≡ (
          if connection_id == j
          then some (if is_empty valid then s else (subscribe s valid).0)
          else subscriptions_at desk j)
  after-at j =
      ap (λ d. subscriptions_at d j) after_lem
      ∙ subscribe_valid-at channel connection_id user_id s
          (with_world (valid_each tenant user_id ids desk.site.world).1 desk) there valid j

  -- What the subscription of the valid ids adds.
  grown :
      (c : ℕ)
      → is_subscribed (subscribe s valid).0 c ≡ (
          is_subscribed s c
          || (is_subscribed (subscribe s valid).0 c
              && (contains c ids
                  && takes_part tenant user_id desk.site.world.tables.participants c)))
  grown c = ground (
    arith,
    subscribe_old s valid c,
    subscribe_only s valid c,
    contains-valid_each tenant user_id c ids desk.site.world,
  )

  -- With a conversation service, whatever it answers: after the request the connection, if it is
  -- known, has the subscriptions that it had, and beside them only conversations that were asked
  -- for and in which the user takes part; those of any other connection and the tables are as
  -- they were.
  pub handle_subscribe_conversations_safe :
      (c j : ℕ)
      → connection_id == j ≡ false
      → (s' : ConnectionSubscriptions) × (subscriptions_at after connection_id ≡ some s')
        × (is_subscribed s' c ≡ (
            is_subscribed s c
            || (is_subscribed s' c
                && (contains c ids
                    && takes_part tenant user_id desk.site.world.tables.participants c))))
        × (subscriptions_at after j ≡ subscriptions_at desk j)
        × (after.site.world.tables ≡ desk.site.world.tables)
  handle_subscribe_conversations_safe c j other = (
    if is_empty valid then s else (subscribe s valid).0,
    after-at connection_id ∙ rw (==_refl connection_id) refl,
    elim (Bool-cases (is_empty valid)) [
      | inl e ↦ rw e (ground arith)
      | inr more ↦ rw more (grown c)
    ],
    after-at j ∙ rw other refl,
    ap (λ d. d.site.world.tables) after_lem
        ∙ ap (λ w. w.tables)
            (subscribe_valid-world channel connection_id user_id s valid
              (with_world (valid_each tenant user_id ids desk.site.world).1 desk))
        ∙ (valid_each-tables tenant user_id ids desk.site.world).0,
  )

  -- When the database answers and the set of the connection is valid: a conversation in which the
  -- user takes part is missed by the request only if the set is full.
  pub handle_subscribe_conversations_complete :
      (c : ℕ)
      → IsValid s
      → ((n : ℕ) → desk.site.world.answers n ≡ true)
      → contains c ids ≡ true
      → takes_part tenant user_id desk.site.world.tables.participants c ≡ true
      → (s' : ConnectionSubscriptions) × (subscriptions_at after connection_id ≡ some s')
        × ((is_subscribed s' c ≡ true) ⊎ (count s' ≡ s.max_subscriptions))
  handle_subscribe_conversations_complete c v up asked part =
      let found : contains c valid ≡ true =
        valid_each-contains tenant user_id c ids desk.site.world up asked part in
      let more : is_empty valid ≡ false = contains-not_empty c valid found in
      (
        (subscribe s valid).0,
        after-at connection_id ∙ rw (==_refl connection_id, more) refl,
        subscribe_complete s valid c v (ground (arith, found)),
      )
