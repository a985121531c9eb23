-- ===== src/Conversation/Examples.antt =====
-- Runs of domain/conversation/service.rs on small tables, with a sum in place of SHA-256.
use Prim.Native.String.{String}
use ara_chat_service.Base.{ℕ, ◌+◌, ◌*◌, true, List, [], ◌∷◌, none, some, ◌≡◌, refl}
use ara_chat_service.Base.Results.{ok, err}
use ara_chat_service.Database.{Tables, World}
use ara_chat_service.Conversation.{direct, group, Conversation, not_participant}
use ara_chat_service.Conversation.Membership.{add_participant, remove_participant}
use ara_chat_service.Conversation.Direct.{create_conversation, find_direct_conversation}
use ara_chat_service.Conversation.Counts.{IsConsistent}
use ara_chat_service.Conversation.Calls.{Call, create, add, perform_all, perform_all-IsConsistent}
use ara_chat_service.Conversation.Pairs.{find_direct-create}

abbrev pub sum : ℕ → ℕ → ℕ
sum a b = a * 1000 + b

abbrev no_tables : Tables
no_tables = record {
  conversations = [];
  participants = [];
  direct_lookup = [];
  messages = [];
  pins = [];
  blocks = [];
  reactions = [];
}

abbrev start : World
start = record { tables = no_tables; now = 5; queries = 0; answers = λ n. true }

no_tables-IsConsistent : IsConsistent no_tables
no_tables-IsConsistent = record { counted = tt; referenced = tt }

-- A group of users 10 and 20.
abbrev grouped : World
grouped = (create_conversation sum "acme" 1 group 10 (10 ∷ 20 ∷ []) none start).1

abbrev calls : List (ℕ × String × Call)
calls = (5, "acme", create 1 group 10 (10 ∷ 20 ∷ []) none) ∷ (6, "acme", add 1 30 20) ∷ []

perform_all-IsConsistent_example : IsConsistent (perform_all sum calls start).tables
perform_all-IsConsistent_example = perform_all-IsConsistent sum calls start no_tables-IsConsistent

-- User 40 takes no part.
refused : (add_participant "acme" 1 50 40 grouped).0 ≡ err not_participant
unfolding add_participant create_conversation
refused = refl

added : (add_participant "acme" 1 30 20 grouped).0 ≡ ok tt
unfolding add_participant create_conversation
added = refl

removed : (remove_participant "acme" 1 20 10 grouped).0 ≡ ok tt
unfolding remove_participant create_conversation
removed = refl

abbrev paired : World
paired = (create_conversation sum "acme" 2 direct 20 (10 ∷ 20 ∷ []) none start).1

abbrev pair : Conversation
pair = record {
  id = 2;
  tenant_id = "acme";
  conversation_type = direct;
  name = none;
  avatar_url = none;
  created_by = 20;
  created_at = 5;
  updated_at = 5;
  participant_count = 2;
  last_message_id = none;
  last_message_at = none;
}

pair_made : (create_conversation sum "acme" 2 direct 20 (10 ∷ 20 ∷ []) none start).0 ≡ ok pair
unfolding create_conversation
pair_made = refl

paired_answers : paired.answers paired.queries ≡ true
unfolding create_conversation
paired_answers = refl

find_direct-create_example :
    ((find_direct_conversation sum "acme" 10 20 paired).0 ≡ ok (some 2))
    × ((find_direct_conversation sum "acme" 20 10 paired).0 ≡ ok (some 2))
find_direct-create_example =
    find_direct-create sum "acme" 2 20 10 20 none pair start paired tt pair_made refl paired_answers
