-- ===== src/Reaction/Examples.antt =====
-- Users 1 and 2 react to message 5.
use Prim.Native.String.{String}
use ara_chat_service.Base.{
  ℕ, ◌≡◌, refl, true, false, List, [], ◌∷◌, none, length, contains, map, if◌then◌else◌,
}
use ara_chat_service.Base.Results.{ok, err}
use ara_chat_service.Redis.Sets.{contains_text}
use ara_chat_service.Database.{MessageRow, ReactionRow, World}
use ara_chat_service.Reaction.{add, database, toggle_reaction, has_reaction}
use ara_chat_service.Reaction.Reading.{
  get_reactions, get_reaction_counts, get_user_reactions, get_reactions_with_user,
}
use ara_chat_service.Reaction.Grouping.{users_of, count_of}
use ara_chat_service.Reaction.Queries.{summary_of, reaction_queries}
use ara_chat_service.Reaction.Standing.{stands, same_reaction}
use ara_chat_service.Reaction.Toggling.{toggle_reaction-toggle_reaction}

abbrev message : MessageRow
message = record {
  id = 5;
  conversation_id = 1;
  sender_id = 1;
  tenant_id = "acme";
  content = "hello";
  content_type = "text";
  created_at = 100;
  updated_at = none;
  deleted_at = none;
  reply_to_id = none;
  mentions = [];
  client_message_id = none;
  forwarded_from_message_id = none;
  forwarded_from_sender_id = none;
  forwarded_from_conversation_id = none;
  rendering_hints = none;
}

abbrev row : ℕ → String → ℕ → ReactionRow
row u e now = record {
  message_id = 5;
  message_partition_key = 0;
  user_id = u;
  emoji = e;
  created_at = now;
}

abbrev world : World
world = record {
  tables = record {
    conversations = [];
    participants = [];
    direct_lookup = [];
    messages = message ∷ [];
    pins = [];
    blocks = [];
    reactions = row 2 "+1" 130 ∷ row 1 "ok" 120 ∷ row 1 "+1" 110 ∷ [];
  };
  now = 200;
  queries = 0;
  answers = λ n. true;
}

grouped : (get_reactions 5 world).0 ≡ ok (("+1", 1 ∷ 2 ∷ []) ∷ ("ok", 1 ∷ []) ∷ [])
unfolding get_reactions
grouped = refl

reaction_queries_example :
    (g : List (String × List ℕ)) × (counts : List (String × ℕ)) × (own : List String)
    × ((get_reactions 5 world).0 ≡ ok g)
    × ((get_reaction_counts 5 world).0 ≡ ok counts)
    × ((get_user_reactions 5 1 world).0 ≡ ok own)
    × ((get_reactions_with_user 5 1 world).0 ≡ ok (map (summary_of 1) g))
    × ((e : String)
        → ((has_reaction 5 1 e world).0
            ≡ (if contains 1 (users_of e g) then err database else ok false))
          × (contains_text e own ≡ contains 1 (users_of e g))
          × (count_of e counts ≡ length (users_of e g)))
reaction_queries_example = reaction_queries 5 1 world refl

toggle_reaction-toggle_reaction_example :
    let once = toggle_reaction 5 2 "ok" world in
    let twice = toggle_reaction 5 2 "ok" once.1 in
    (once.0 ≡ ok add)
    × (once.1.tables ≡ record (world.tables) { reactions = once.1.tables.reactions })
    × (twice.0 ≡ err database)
    × (twice.1.tables ≡ once.1.tables)
    × ((m' u' : ℕ) (e' : String) (p' : ℕ)
        → stands m' u' e' p' once.1.tables.reactions ≡ (
            if same_reaction 5 2 "ok" 0 m' u' e' p'
            then true
            else stands m' u' e' p' world.tables.reactions))
toggle_reaction-toggle_reaction_example =
    toggle_reaction-toggle_reaction 5 2 "ok" 0 world (λ n. refl) refl refl
