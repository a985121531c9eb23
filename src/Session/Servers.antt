-- ===== src/Session/Servers.antt =====
-- The sets of domain/cluster/session_store.rs after calls by the servers of a cluster.
use Prim.Native.String.{String}
use text.Mathlib.Text.{◌==◌ as str_eq}
use ara_chat_service.Base.{
  ℕ, ◌≡◌, refl, ◌∙◌, sym, ap, Bool, true, false, List, [], ◌∷◌, some, ◌&&◌, ◌==◌, if◌then◌else◌,
  Bool-cases, inl, inr,
}
use ara_chat_service.Base.Results.{ok}
use ara_chat_service.Base.Stateful.{Stateful, pure, ◌>>◌, >>=-eq-ok}
use ara_chat_service.Base.Offsets.{ℤ}
use ara_chat_service.Redis.{run}
use ara_chat_service.Redis.Chains.{run-eq-ok, or_error-eq-ok}
use ara_chat_service.Redis.Sets.{RedisSets, SetOp, View, apply_all, contains_text, Documented}
use ara_chat_service.Session.{
  SessionKey, user, server, same_key, UserTexts, SessionStoreError, redis_error, RedisSessionStore,
  register_session, unregister_session, find_user_servers,
}

-- A call on the store of the server that is named.
pub data SessionCall : Type 0 where
  register unregister : (on : String) → (user_id : ℕ) → SessionCall

-- Whether the user counts as connected to the server: the last call on the pair decides.
abbrev pub online : ℕ → String → List SessionCall → Bool → Bool
online u a [] before = before
online u a (register b v ∷ cs) before =
    online u a cs (if v == u && str_eq b a then true else before)
online u a (unregister b v ∷ cs) before =
    online u a cs (if v == u && str_eq b a then false else before)

module _ {S : Type 0} (texts : UserTexts) (pool : RedisSets S SessionKey) (ttl : ℤ) where
  abbrev pub store_of : String → RedisSessionStore S
  store_of a = record { server_id = a; pool = pool; ttl_seconds = ttl }

  abbrev pub perform : SessionCall → Stateful S SessionStoreError (Unit {0})
  perform (register a u) = register_session texts (store_of a) u
  perform (unregister a u) = unregister_session texts (store_of a) u

  abbrev pub perform_all : List SessionCall → Stateful S SessionStoreError (Unit {0})
  perform_all [] = pure tt
  perform_all (c ∷ cs) = do perform c; perform_all cs

-- Different users have different texts.
pub record AreTexts (texts : UserTexts) : Type 0 where
  pub apart : (u v : ℕ) → str_eq (texts.to_string u) (texts.to_string v) ≡ (u == v)

and_true : (b w y : Bool) → (if b && true then w else y) ≡ (if true && b then w else y)
and_true true w y = refl
and_true false w y = refl

and_false : (b w y : Bool) → (if b && false then w else y) ≡ (if false && b then w else y)
and_false true w y = refl
and_false false w y = refl

module _ {S : Type 0} (texts : UserTexts) (pool : RedisSets S SessionKey) (ttl : ℤ)
    (at : S → View SessionKey) (laws : Documented same_key pool at) where
  piped_step :
      (ops : List (SetOp SessionKey)) (k : SessionKey) (m : String) (s : S)
      → ((do run redis_error pool.get_connection; run redis_error (pool.pipe ops)) s).0 ≡ ok tt
      → at ((do run redis_error pool.get_connection; run redis_error (pool.pipe ops)) s).1 k m
        ≡ apply_all same_key ops (at (pool.get_connection s).1) k m
  piped_step ops k m s h =
      let s0 : S = (pool.get_connection s).1 in
      let (a, h0, e0) =
        run-eq-ok redis_error pool.get_connection (λ _. run redis_error (pool.pipe ops)) s tt h in
      let h1 : (pool.pipe ops s0).0 ≡ some tt =
        or_error-eq-ok redis_error (pool.pipe ops s0).0 tt (ap (λ p. p.0) (sym e0) ∙ h) in
      ap (λ p. at p.1 k m) e0 ∙ laws.piped ops k m s0 h1

  connected_at :
      (c : SessionCall) (s : S)
      → (perform texts pool ttl c s).0 ≡ ok tt
      → (pool.get_connection s).0 ≡ some tt
  unfolding register_session unregister_session
  connected_at (register b v) s h = (run-eq-ok redis_error pool.get_connection _ s tt h).1
  connected_at (unregister b v) s h = (run-eq-ok redis_error pool.get_connection _ s tt h).1

  perform_user :
      (c : SessionCall) (u : ℕ) (a : String) (s : S)
      → (perform texts pool ttl c s).0 ≡ ok tt
      → at (perform texts pool ttl c s).1 (user u) a ≡ online u a (c ∷ []) (at s (user u) a)
  unfolding register_session unregister_session
  perform_user (register b v) u a s h =
      piped_step _ (user u) a s h
      ∙ ap (λ x. if v == u && str_eq b a then true else x)
          (laws.connected (user u) a s (connected_at (register b v) s h))
  perform_user (unregister b v) u a s h =
      piped_step _ (user u) a s h
      ∙ ap (λ x. if v == u && str_eq b a then false else x)
          (laws.connected (user u) a s (connected_at (unregister b v) s h))

  pair_test :
      (b a : String) (v u : ℕ) (w x y : Bool)
      → AreTexts texts
      → x ≡ y
      → (if str_eq b a && str_eq (texts.to_string v) (texts.to_string u) then w else x)
        ≡ (if v == u && str_eq b a then w else y)
  pair_test b a v u w x y apart e =
      rw (apart.apart v u, e)
        (elim (Bool-cases (v == u)) [
          | inl h ↦ rw h (and_true (str_eq b a) w y)
          | inr h ↦ rw h (and_false (str_eq b a) w y)
        ])

  perform_server :
      (c : SessionCall) (u : ℕ) (a : String) (s : S)
      → AreTexts texts
      → (perform texts pool ttl c s).0 ≡ ok tt
      → at (perform texts pool ttl c s).1 (server a) (texts.to_string u)
        ≡ online u a (c ∷ []) (at s (server a) (texts.to_string u))
  unfolding register_session unregister_session
  perform_server (register b v) u a s apart h =
      piped_step _ (server a) (texts.to_string u) s h
      ∙ pair_test b a v u true _ _ apart
          (laws.connected (server a) (texts.to_string u) s (connected_at (register b v) s h))
  perform_server (unregister b v) u a s apart h =
      piped_step _ (server a) (texts.to_string u) s h
      ∙ pair_test b a v u false _ _ apart
          (laws.connected (server a) (texts.to_string u) s (connected_at (unregister b v) s h))

  online_step :
      (c : SessionCall) (u : ℕ) (a : String) (cs : List SessionCall) (b : Bool)
      → online u a (c ∷ cs) b ≡ online u a cs (online u a (c ∷ []) b)
  online_step (register d v) u a cs b = refl
  online_step (unregister d v) u a cs b = refl

  perform_all_users :
      (cs : List SessionCall) (u : ℕ) (a : String) (s : S)
      → AreTexts texts
      → (perform_all texts pool ttl cs s).0 ≡ ok tt
      → (at (perform_all texts pool ttl cs s).1 (user u) a ≡ online u a cs (at s (user u) a))
        × (at (perform_all texts pool ttl cs s).1 (server a) (texts.to_string u)
            ≡ online u a cs (at s (server a) (texts.to_string u)))
  perform_all_users [] u a s apart h = (refl, refl)
  perform_all_users (c ∷ cs) u a s apart h =
      let s1 : S = (perform texts pool ttl c s).1 in
      let (t, h1, e) =
        >>=-eq-ok (perform texts pool ttl c) (λ _. perform_all texts pool ttl cs) s tt h in
      let rest = perform_all_users cs u a s1 apart (ap (λ p. p.0) (sym e) ∙ h) in
      (
        ap (λ p. at p.1 (user u) a) e
            ∙ rest.0
            ∙ ap (online u a cs) (perform_user c u a s h1)
            ∙ sym (online_step c u a cs (at s (user u) a)),
        ap (λ p. at p.1 (server a) (texts.to_string u)) e
            ∙ rest.1
            ∙ ap (online u a cs) (perform_server c u a s apart h1)
            ∙ sym (online_step c u a cs (at s (server a) (texts.to_string u))),
      )

  -- After any calls of `register_session` and `unregister_session` by the servers of a cluster, all
  -- of which succeeded: when `find_user_servers` answers, a server is in the answer exactly if
  -- the last call on the user and the server was a registration, or there was none and it was in
  -- the user's set before; and the set of the server tells the same of the user, if it did before.
  -- No key has lapsed, and users have different texts.
  pub find_user_servers-perform_all :
      (cs : List SessionCall) (u : ℕ) (a b : String) (s : S) (found : List String)
      → AreTexts texts
      → (perform_all texts pool ttl cs s).0 ≡ ok tt
      → at s (server a) (texts.to_string u) ≡ at s (user u) a
      → let after : S = (perform_all texts pool ttl cs s).1 in
        (find_user_servers texts (store_of texts pool ttl b) u after).0 ≡ ok found
        → (contains_text a found ≡ online u a cs (at s (user u) a))
          × (at (perform_all texts pool ttl cs s).1 (server a) (texts.to_string u)
              ≡ contains_text a found)
  unfolding find_user_servers
  find_user_servers-perform_all cs u a b s found apart h mirrored f =
      let after : S = (perform_all texts pool ttl cs s).1 in
      let s0 : S = (pool.get_connection after).1 in
      let (t, h0, e0) = run-eq-ok redis_error pool.get_connection _ after found f in
      let h1 : (pool.smembers (user u) s0).0 ≡ some found =
        or_error-eq-ok redis_error (pool.smembers (user u) s0).0 found
          (ap (λ p. p.0) (sym e0) ∙ f) in
      let (by_user, by_server) = perform_all_users cs u a s apart h in
      let listed : contains_text a found ≡ online u a cs (at s (user u) a) =
        laws.lists (user u) a s0 found h1 ∙ laws.connected (user u) a after h0 ∙ by_user in
      (listed, by_server ∙ ap (online u a cs) mirrored ∙ sym listed)
