-- ===== src/Storage/Examples.antt =====
-- Runs of domain/message/storage.rs on tables without a message.
use ara_chat_service.Base.{true, [], none, some, ◌≡◌, refl}
use ara_chat_service.Base.Results.{ok, err}
use ara_chat_service.Database.{World}
use ara_chat_service.Message.{text, ChatMessage}
use ara_chat_service.Storage.{not_found, get_forwardable_message, recall_message, into_chat_message}
use ara_chat_service.Storage.Creating.{create_message, message_row}
use ara_chat_service.Storage.Replies.{get_reply_context}
use ara_chat_service.Storage.Rows.{recall_message_hides}

abbrev start : World
start = record {
  tables = record {
    conversations = [];
    participants = [];
    direct_lookup = [];
    messages = [];
    pins = [];
    blocks = [];
    reactions = [];
  };
  now = 5;
  queries = 0;
  answers = λ n. true;
}

abbrev hello : ChatMessage
hello = into_chat_message (message_row "acme" 4 1 10 "hello" text none (some "c1") [] none 5)

abbrev stored : World
stored = (create_message "acme" 4 1 10 "hello" text none (some "c1") [] none start).1

made : (create_message "acme" 4 1 10 "hello" text none (some "c1") [] none start).0 ≡ ok hello
unfolding create_message
made = refl

stored_up : stored.answers stored.queries ≡ true
unfolding create_message
stored_up = refl

abbrev gone : World
gone = (recall_message "acme" 4 stored).1

recalled : (recall_message "acme" 4 stored).0 ≡ ok tt
unfolding recall_message create_message
recalled = refl

gone_up : gone.answers gone.queries ≡ true
unfolding recall_message create_message
gone_up = refl

recall_message_hides_example :
    ((get_forwardable_message "acme" 4 gone).0 ≡ ok none)
    × ((get_reply_context "acme" 4 gone).0 ≡ ok none)
    × ((recall_message "acme" 4 gone).0 ≡ err not_found)
    × ((recall_message "acme" 4 gone).1.tables ≡ gone.tables)
recall_message_hides_example = recall_message_hides "acme" 4 stored gone recalled refl gone_up
