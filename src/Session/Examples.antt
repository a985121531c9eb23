-- ===== src/Session/Examples.antt =====
-- The servers a and b with user 3.
use Prim.Native.String.{String}
use ara_chat_service.Base.{◌≡◌, refl, false, List, [], ◌∷◌}
use ara_chat_service.Base.Results.{ok}
use ara_chat_service.Base.Offsets.{pos}
use ara_chat_service.Redis.Sets.{RedisSets, contains_text}
use ara_chat_service.Redis.InMemory
use ara_chat_service.Session.Letters.{texts, texts-AreTexts}
use ara_chat_service.Session.{
  SessionKey, server, same_key, register_session, unregister_session, find_user_servers,
  cluster_user_count,
}
use ara_chat_service.Session.Servers.{
  SessionCall, register, unregister, online, store_of, perform_all, find_user_servers-perform_all,
}

abbrev Store : Type 0
Store = SessionKey → List String

abbrev redis : RedisSets Store SessionKey
redis = InMemory.redis same_key (server "a" ∷ [])

abbrev no_one : Store
no_one k = []

-- User 3 has two connections at the server a; one of them ends.
abbrev calls : List SessionCall
calls = register "a" 3 ∷ register "a" 3 ∷ register "b" 3 ∷ unregister "a" 3 ∷ []

only_b :
    (find_user_servers texts
      (store_of texts redis (pos 120) "b")
      3
      (perform_all texts redis (pos 120) calls no_one).1).0
    ≡ ok ("b" ∷ [])
unfolding register_session unregister_session find_user_servers
only_b = refl

counted :
    (cluster_user_count texts
      (store_of texts redis (pos 120) "b")
      (perform_all texts redis (pos 120) (register "a" 3 ∷ register "a" 4 ∷ []) no_one).1).0
    ≡ ok 2
unfolding register_session cluster_user_count
counted = refl

find_user_servers-perform_all_example :
    (contains_text "a" ("b" ∷ []) ≡ online 3 "a" calls false)
    × (contains_text "uuu" ((perform_all texts redis (pos 120) calls no_one).1 (server "a"))
        ≡ contains_text "a" ("b" ∷ []))
unfolding register_session unregister_session find_user_servers
find_user_servers-perform_all_example =
    find_user_servers-perform_all texts redis (pos 120) (InMemory.at same_key (server "a" ∷ []))
      (InMemory.laws same_key (server "a" ∷ [])) calls 3 "a" "b" no_one ("b" ∷ []) texts-AreTexts
      refl refl refl
