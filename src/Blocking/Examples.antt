-- ===== src/Blocking/Examples.antt =====
-- Runs of domain/blocking/service.rs on one block.
use ara_chat_service.Base.{
  ℕ, true, false, if◌then◌else◌, ◌||◌, List, [], ◌∷◌, none, contains, ◌≡◌, refl,
}
use ara_chat_service.Base.Results.{ok, err}
use ara_chat_service.Database.{BlockRow, World}
use ara_chat_service.Blocking.{database, is_blocked, is_mutually_blocked, get_all_blocked_user_ids}
use ara_chat_service.Blocking.Laws.{blocks, blocked_queries}

-- User 10 has blocked user 20.
abbrev one_block : List BlockRow
one_block =
    record {
      blocker_id = 10;
      blocked_user_id = 20;
      tenant_id = "acme";
      blocked_at = 3;
      reason = none;
    }
    ∷ []

abbrev world : World
world = record {
  tables = record {
    conversations = [];
    participants = [];
    direct_lookup = [];
    messages = [];
    pins = [];
    blocks = one_block;
    reactions = [];
  };
  now = 5;
  queries = 0;
  answers = λ n. true;
}

blocked_queries_example :
    (ids : List ℕ) × ((get_all_blocked_user_ids "acme" 20 world).0 ≡ ok ids)
    × ((b : ℕ)
        → ((is_mutually_blocked "acme" 20 b world).0
            ≡ (if contains b ids then err database else ok false))
          × ((is_blocked "acme" 20 b world).0
              ≡ (if blocks "acme" 20 b one_block then err database else ok false))
          × (contains b ids ≡ (blocks "acme" 20 b one_block || blocks "acme" b 20 one_block)))
blocked_queries_example = blocked_queries "acme" 20 world refl
