-- ===== src/Reaction/Grouping.antt =====
-- What the loops of domain/reaction/service.rs that group rows by emoji and by message build.
use Prim.Native.String.{String}
use text.Mathlib.Text.{◌==◌ as str_eq}
use text.Mathlib.TextEquality.{eq_iff}
use mathlib.Core.List.{append-nil, append_assoc}
use ara_chat_service.Base.{
  ℕ, suc, ◌++◌, Bool, ◌&&◌, List, [], ◌∷◌, ◌==◌, if◌then◌else◌, length, contains, contains-append,
  any, keep, ◌≡◌, refl, ◌∙◌, sym, ap, arith, Bool-cases, inl, inr,
}
use ara_chat_service.Base.Map.{get, insert, get-insert}
use ara_chat_service.Base.Sorting.{place, sort_by_key}
use ara_chat_service.Redis.Sets.{contains_text}
use ara_chat_service.Database.{ReactionRow}
use ara_chat_service.Reaction.{is_reaction}
use ara_chat_service.Reaction.Reading.{
  timed, push_user, group, count_one, count_by_emoji, emojis, push_marked, group_marked, or_default,
  group_messages, count_messages,
}

-- What is kept at an emoji.
abbrev pub users_of : String → List (String × List ℕ) → List ℕ
users_of e [] = []
users_of e ((f, users) ∷ grouped) = if str_eq f e then users else users_of e grouped

abbrev pub count_of : String → List (String × ℕ) → ℕ
count_of e [] = 0
count_of e ((f, n) ∷ counts) = if str_eq f e then n else count_of e counts

-- The users of the rows with an emoji, in order.
abbrev pub users_with : String → List (ℕ × ReactionRow) → List ℕ
users_with e [] = []
users_with e ((t, r) ∷ rows) =
    if str_eq r.emoji e then r.user_id ∷ users_with e rows else users_with e rows

users_of-push_user :
    (e f : String) (u : ℕ) (g : List (String × List ℕ))
    → users_of e (push_user f u g) ≡ (if str_eq f e then users_of e g ++ u ∷ [] else users_of e g)
users_of-push_user e f u [] = refl
users_of-push_user e f u ((d, us) ∷ g) =
    ground (arith, eq_iff d f, eq_iff d e, eq_iff f e, users_of-push_user e f u g)

pub users_of-group :
    (e : String) (rows : List (ℕ × ReactionRow)) (g : List (String × List ℕ))
    → users_of e (group rows g) ≡ users_of e g ++ users_with e rows
users_of-group e [] g = sym (append-nil (users_of e g))
users_of-group e ((t, r) ∷ rows) g =
    users_of-group e rows (push_user r.emoji r.user_id g)
    ∙ ap (λ us. us ++ users_with e rows) (users_of-push_user e r.emoji r.user_id g)
    ∙ elim (Bool-cases (str_eq r.emoji e)) [
      | inl h ↦ rw h (append_assoc (users_of e g) (r.user_id ∷ []) (users_with e rows))
      | inr h ↦ rw h refl
    ]

-- To sort changes neither which users there are nor how many.
contains-users_with-place :
    (u : ℕ) (e : String) (x : ℕ × ReactionRow) (xs : List (ℕ × ReactionRow))
    → contains u (users_with e (place x xs)) ≡ contains u (users_with e (x ∷ xs))
contains-users_with-place u e x [] = refl
contains-users_with-place u e x (y ∷ ys) = ground (arith, contains-users_with-place u e x ys)

length-users_with-place :
    (e : String) (x : ℕ × ReactionRow) (xs : List (ℕ × ReactionRow))
    → length (users_with e (place x xs)) ≡ length (users_with e (x ∷ xs))
length-users_with-place e x [] = refl
length-users_with-place e x (y ∷ ys) = ground (arith, length-users_with-place e x ys)

pub contains-users_with :
    (m u : ℕ) (e : String) (rows : List ReactionRow)
    → contains u (users_with e (sort_by_key (timed (keep (λ r. r.message_id == m) rows))))
      ≡ any (is_reaction m u e) rows
contains-users_with m u e [] = refl
contains-users_with m u e (r ∷ rows) = ground (
  arith,
  contains-users_with m u e rows,
  contains-users_with-place u e (r.created_at, r)
      (sort_by_key (timed (keep (λ r. r.message_id == m) rows))),
)

count_of-count_one :
    (e f : String) (c : List (String × ℕ))
    → count_of e (count_one f c) ≡ (if str_eq f e then suc (count_of e c) else count_of e c)
count_of-count_one e f [] = refl
count_of-count_one e f ((d, n) ∷ c) =
    ground (arith, eq_iff d f, eq_iff d e, eq_iff f e, count_of-count_one e f c)

pub count_of-count_by_emoji :
    (e : String) (rows : List ReactionRow)
    → count_of e (count_by_emoji rows) ≡ length (users_with e (sort_by_key (timed rows)))
count_of-count_by_emoji e [] = refl
count_of-count_by_emoji e (r ∷ rows) = ground (
  arith,
  count_of-count_one e r.emoji (count_by_emoji rows),
  count_of-count_by_emoji e rows,
  length-users_with-place e (r.created_at, r) (sort_by_key (timed rows)),
)

contains_text-place :
    (e : String) (x : ℕ × ReactionRow) (xs : List (ℕ × ReactionRow))
    → contains_text e (emojis (place x xs)) ≡ contains_text e (emojis (x ∷ xs))
contains_text-place e x [] = refl
contains_text-place e x (y ∷ ys) = ground (arith, contains_text-place e x ys)

pub contains_text-emojis :
    (m u : ℕ) (e : String) (rows : List ReactionRow)
    → contains_text e
        (emojis (sort_by_key (timed (keep (λ r. r.message_id == m && r.user_id == u) rows))))
      ≡ any (is_reaction m u e) rows
contains_text-emojis m u e [] = refl
contains_text-emojis m u e (r ∷ rows) = ground (
  arith,
  contains_text-emojis m u e rows,
  contains_text-place e (r.created_at, r)
      (sort_by_key (timed (keep (λ r. r.message_id == m && r.user_id == u) rows))),
)

-- Each group with the mark whether the user is in it.
abbrev pub marked : ℕ → List (String × List ℕ) → List (String × List ℕ × Bool)
marked u [] = []
marked u ((e, users) ∷ g) = (e, users, contains u users) ∷ marked u g

push_marked_lem :
    (u : ℕ) (e : String) (v : ℕ) (g : List (String × List ℕ))
    → push_marked u e v (marked u g) ≡ marked u (push_user e v g)
push_marked_lem u e v [] = ground arith
push_marked_lem u e v ((f, us) ∷ g) =
    ground (arith, contains-append u us (v ∷ []), push_marked_lem u e v g)

pub group_marked_lem :
    (u : ℕ) (rows : List (ℕ × ReactionRow)) (g : List (String × List ℕ))
    → group_marked u rows (marked u g) ≡ marked u (group rows g)
group_marked_lem u [] g = refl
group_marked_lem u ((t, r) ∷ rows) g =
    ap (group_marked u rows) (push_marked_lem u r.emoji r.user_id g)
    ∙ group_marked_lem u rows (push_user r.emoji r.user_id g)

-- The rows of one message.
abbrev pub is_of : ℕ → ℕ × ReactionRow → Bool
is_of m x = x.1.message_id == m

pub get-group_messages :
    (m : ℕ) (rows : List (ℕ × ReactionRow)) (result : List (ℕ × List (String × List ℕ)))
    → or_default (get m (group_messages rows result))
      ≡ group (keep (is_of m) rows) (or_default (get m result))
get-group_messages m [] result = refl
get-group_messages m ((t, r) ∷ rows) result =
    let users : List (String × List ℕ) =
      push_user r.emoji r.user_id (or_default (get r.message_id result)) in
    get-group_messages m rows (insert r.message_id users result)
    ∙ ap (λ o. group (keep (is_of m) rows) (or_default o)) (get-insert r.message_id m users result)
    ∙ elim (Bool-cases (r.message_id == m)) [
      | inl h ↦
          let k : r.message_id ≡ m = ground (arith, h) in
          rw h (
            ap
              (λ i.
                group (keep (is_of m) rows)
                  (push_user r.emoji r.user_id (or_default (get i result))))
              k)
      | inr h ↦ rw h refl
    ]

pub get-count_messages :
    (m : ℕ) (rows : List ReactionRow)
    → or_default (get m (count_messages rows)) ≡ count_by_emoji (keep (λ r. r.message_id == m) rows)
get-count_messages m [] = refl
get-count_messages m (r ∷ rows) =
    let result : List (ℕ × List (String × ℕ)) = count_messages rows in
    let counts : List (String × ℕ) = count_one r.emoji (or_default (get r.message_id result)) in
    ap or_default (get-insert r.message_id m counts result)
    ∙ elim (Bool-cases (r.message_id == m)) [
      | inl h ↦
          let k : r.message_id ≡ m = ground (arith, h) in
          rw h (
            ap (λ i. count_one r.emoji (or_default (get i result))) k
            ∙ ap (count_one r.emoji) (get-count_messages m rows))
      | inr h ↦ rw h (get-count_messages m rows)
    ]
