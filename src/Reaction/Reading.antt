-- ===== src/Reaction/Reading.antt =====
-- The queries of domain/reaction/service.rs.
use Prim.Native.String.{String}
use text.Mathlib.Text.{◌==◌ as str_eq}
use ara_chat_service.Base.{
  ℕ, suc, ◌%◌, ◌^◌, ◌++◌, Bool, true, ◌&&◌, List, [], ◌∷◌, Option, none, some, ◌==◌, if◌then◌else◌,
  length, contains, keep, map, is_empty,
}
use ara_chat_service.Base.Map.{get, insert}
use ara_chat_service.Base.Sorting.{sort_by_key}
use ara_chat_service.Database.{ReactionRow, Tables, Db, pure, select}
use ara_chat_service.Reaction.{ReactionError, database}

-- `ORDER BY …, created_at`; the order of the emojis before that is forgotten by the hash maps that
-- the rows go to.
abbrev pub timed : List ReactionRow → List (ℕ × ReactionRow)
timed [] = []
timed (r ∷ rows) = (r.created_at, r) ∷ timed rows

abbrev pub rows_by_time : (ReactionRow → Bool) → Tables → List (ℕ × ReactionRow)
rows_by_time p t = sort_by_key (timed (keep p t.reactions))

-- `grouped.entry(emoji).or_default().push(user_id)`
abbrev pub push_user : String → ℕ → List (String × List ℕ) → List (String × List ℕ)
push_user emoji u [] = (emoji, u ∷ []) ∷ []
push_user emoji u ((e, users) ∷ grouped) =
    if str_eq e emoji
    then (e, users ++ u ∷ []) ∷ grouped
    else (e, users) ∷ push_user emoji u grouped

abbrev pub group : List (ℕ × ReactionRow) → List (String × List ℕ) → List (String × List ℕ)
group [] grouped = grouped
group ((t, r) ∷ rows) grouped = group rows (push_user r.emoji r.user_id grouped)

unfoldable pub get_reactions : ℕ → Db ReactionError (List (String × List ℕ))
get_reactions message_id =
    select database (λ t. group (rows_by_time (λ r. r.message_id == message_id) t) [])

-- `COUNT(*)` with `GROUP BY emoji`
abbrev pub count_one : String → List (String × ℕ) → List (String × ℕ)
count_one emoji [] = (emoji, 1) ∷ []
count_one emoji ((e, n) ∷ counts) =
    if str_eq e emoji then (e, suc n) ∷ counts else (e, n) ∷ count_one emoji counts

abbrev pub count_by_emoji : List ReactionRow → List (String × ℕ)
count_by_emoji [] = []
count_by_emoji (r ∷ rows) = count_one r.emoji (count_by_emoji rows)

unfoldable pub get_reaction_counts : ℕ → Db ReactionError (List (String × ℕ))
get_reaction_counts message_id =
    select database (λ t. count_by_emoji (keep (λ r. r.message_id == message_id) t.reactions))

abbrev pub emojis : List (ℕ × ReactionRow) → List String
emojis [] = []
emojis ((t, r) ∷ rows) = r.emoji ∷ emojis rows

unfoldable pub get_user_reactions : ℕ → ℕ → Db ReactionError (List String)
get_user_reactions message_id user_id =
    select database
      (λ t. emojis (rows_by_time (λ r. r.message_id == message_id && r.user_id == user_id) t))

pub record ReactionSummary : Type 0 where
  pub emoji : String
  pub count : ℕ
  pub user_reacted : Bool
  pub users : List ℕ

-- The count is a `u32`.
abbrev pub summary : ℕ → String × List ℕ × Bool → ReactionSummary
summary user_id (emoji, users, reacted) = record {
  emoji = emoji;
  count = length users % 2 ^ 32;
  user_reacted = reacted;
  users = users;
}

abbrev pub push_marked :
    ℕ → String → ℕ → List (String × List ℕ × Bool) → List (String × List ℕ × Bool)
push_marked user_id emoji u [] = (emoji, u ∷ [], u == user_id) ∷ []
push_marked user_id emoji u ((e, users, reacted) ∷ grouped) =
    if str_eq e emoji
    then (e, users ++ u ∷ [], (if u == user_id then true else reacted)) ∷ grouped
    else (e, users, reacted) ∷ push_marked user_id emoji u grouped

abbrev pub group_marked :
    ℕ → List (ℕ × ReactionRow) → List (String × List ℕ × Bool) → List (String × List ℕ × Bool)
group_marked user_id [] grouped = grouped
group_marked user_id ((t, r) ∷ rows) grouped =
    group_marked user_id rows (push_marked user_id r.emoji r.user_id grouped)

unfoldable pub get_reactions_with_user : ℕ → ℕ → Db ReactionError (List ReactionSummary)
get_reactions_with_user message_id user_id = select database (λ t.
    map (summary user_id)
      (group_marked user_id (rows_by_time (λ r. r.message_id == message_id) t) []))

abbrev pub or_default : {V : Type 0} → Option (List V) → List V
or_default none = []
or_default (some v) = v

abbrev pub group_messages :
    List (ℕ × ReactionRow) → List (ℕ × List (String × List ℕ)) → List (ℕ × List (String × List ℕ))
group_messages [] result = result
group_messages ((t, r) ∷ rows) result = group_messages rows (
    insert r.message_id (push_user r.emoji r.user_id (or_default (get r.message_id result))) result)

unfoldable pub get_reactions_batch : List ℕ → Db ReactionError (List (ℕ × List (String × List ℕ)))
get_reactions_batch message_ids =
    if is_empty message_ids
    then pure []
    else select database
        (λ t. group_messages (rows_by_time (λ r. contains r.message_id message_ids) t) [])

-- `COUNT(*)` with `GROUP BY message_id, emoji`, and the loop that puts its rows into maps.
abbrev pub count_messages : List ReactionRow → List (ℕ × List (String × ℕ))
count_messages [] = []
count_messages (r ∷ rows) =
    let result = count_messages rows in
    insert r.message_id (count_one r.emoji (or_default (get r.message_id result))) result

unfoldable pub get_reaction_counts_batch : List ℕ → Db ReactionError (List (ℕ × List (String × ℕ)))
get_reaction_counts_batch message_ids =
    if is_empty message_ids
    then pure []
    else select database
        (λ t. count_messages (keep (λ r. contains r.message_id message_ids) t.reactions))
