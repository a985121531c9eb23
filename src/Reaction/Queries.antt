-- ===== src/Reaction/Queries.antt =====
-- The queries of domain/reaction/service.rs, against each other.
use Prim.Native.String.{String}
use ara_chat_service.Base.{
  ℕ, ◌%◌, ◌^◌, true, false, if◌then◌else◌, ◌&&◌, List, [], ◌∷◌, ◌==◌, length, contains,
  contains-not_empty, keep, map, ◌≡◌, refl, ◌∙◌, sym, ap, arith, Bool-cases, inl, inr,
}
use ara_chat_service.Base.Map.{get}
use ara_chat_service.Base.Sorting.{sort_by_key, keep-sort_by_key}
use ara_chat_service.Base.Results.{ok, err}
use ara_chat_service.Redis.Sets.{contains_text}
use ara_chat_service.Database.{ReactionRow, World}
use ara_chat_service.Reaction.{database, has_reaction}
use ara_chat_service.Reaction.Reading.{
  ReactionSummary, timed, rows_by_time, group, group_messages, count_by_emoji, count_messages,
  emojis, or_default, summary, get_reactions, get_reaction_counts, get_user_reactions,
  get_reactions_with_user, get_reactions_batch, get_reaction_counts_batch,
}
use ara_chat_service.Reaction.Grouping.{
  users_of, count_of, users_of-group, contains-users_with, count_of-count_by_emoji,
  contains_text-emojis, marked, group_marked_lem, is_of, get-group_messages, get-count_messages,
}

abbrev pub summary_of : ℕ → String × List ℕ → ReactionSummary
summary_of u (e, users) = record {
  emoji = e;
  count = length users % 2 ^ 32;
  user_reacted = contains u users;
  users = users;
}

map-marked :
    (u : ℕ) (g : List (String × List ℕ)) → map (summary u) (marked u g) ≡ map (summary_of u) g
map-marked u [] = refl
map-marked u ((e, users) ∷ g) = ap (λ rest. summary_of u (e, users) ∷ rest) (map-marked u g)

-- When the database answers: a user is among those that `get_reactions` gives for an emoji exactly
-- if the emoji is among those of `get_user_reactions`, and exactly if `has_reaction` is an error of
-- the database, which else answers that there is no such reaction; `get_reaction_counts` gives their number, 0 for an emoji that it does not give; and
-- `get_reactions_with_user` gives the same groups, each with its size in 32 bits and whether the
-- user is in it.
pub reaction_queries :
    (m u : ℕ) (w : World)
    → w.answers w.queries ≡ true
    → (g : List (String × List ℕ)) × (counts : List (String × ℕ)) × (own : List String)
      × ((get_reactions m w).0 ≡ ok g)
      × ((get_reaction_counts m w).0 ≡ ok counts)
      × ((get_user_reactions m u w).0 ≡ ok own)
      × ((get_reactions_with_user m u w).0 ≡ ok (map (summary_of u) g))
      × ((e : String)
          → ((has_reaction m u e w).0
              ≡ (if contains u (users_of e g) then err database else ok false))
            × (contains_text e own ≡ contains u (users_of e g))
            × (count_of e counts ≡ length (users_of e g)))
unfolding has_reaction get_reactions get_reaction_counts get_user_reactions get_reactions_with_user
reaction_queries m u w up =
    let rows : List (ℕ × ReactionRow) = rows_by_time (λ r. r.message_id == m) w.tables in
    (
      group rows [],
      count_by_emoji (keep (λ r. r.message_id == m) w.tables.reactions),
      emojis (rows_by_time (λ r. r.message_id == m && r.user_id == u) w.tables),
      rw up refl,
      rw up refl,
      rw up refl,
      rw up (
          ap (λ g. ok (map (summary u) g)) (group_marked_lem u rows [])
          ∙ ap ok (map-marked u (group rows []))),
      λ e.
          let found = contains-users_with m u e w.tables.reactions in
          let users = users_of-group e rows [] in
          (
            rw up (
                ap (λ b. if b then err database else ok false)
                  (sym found ∙ ap (contains u) (sym users))),
            contains_text-emojis m u e w.tables.reactions ∙ sym found ∙ ap (contains u) (sym users),
            count_of-count_by_emoji e (keep (λ r. r.message_id == m) w.tables.reactions)
                ∙ ap length (sym users),
          ),
    )

keep-timed :
    (m : ℕ) (ids : List ℕ) (rows : List ReactionRow)
    → contains m ids ≡ true
    → keep (is_of m) (timed (keep (λ r. contains r.message_id ids) rows))
      ≡ timed (keep (λ r. r.message_id == m) rows)
keep-timed m ids [] h = refl
keep-timed m ids (r ∷ rows) h = elim (Bool-cases (r.message_id == m)) [
  | inl same ↦
      let k : r.message_id ≡ m = ground (arith, same) in
      let within : contains r.message_id ids ≡ true = ap (λ i. contains i ids) k ∙ h in
      rw (within, same) (ap (λ xs. (r.created_at, r) ∷ xs) (keep-timed m ids rows h))
  | inr other ↦ ground (arith, keep-timed m ids rows h, other)
]

keep-within :
    (m : ℕ) (ids : List ℕ) (rows : List ReactionRow)
    → contains m ids ≡ true
    → keep (λ r. r.message_id == m) (keep (λ r. contains r.message_id ids) rows)
      ≡ keep (λ r. r.message_id == m) rows
keep-within m ids [] h = refl
keep-within m ids (r ∷ rows) h = elim (Bool-cases (r.message_id == m)) [
  | inl same ↦
      let k : r.message_id ≡ m = ground (arith, same) in
      let within : contains r.message_id ids ≡ true = ap (λ i. contains i ids) k ∙ h in
      rw (within, same) (ap (λ xs. r ∷ xs) (keep-within m ids rows h))
  | inr other ↦ ground (arith, keep-within m ids rows h, other)
]

-- When the database answers, the queries for several messages, `get_reactions_batch` and
-- `get_reaction_counts_batch`, give for each of these messages what `get_reactions` and
-- `get_reaction_counts` give for it alone, the empty map where they do not name the message.
pub batch_queries :
    (m : ℕ) (ids : List ℕ) (w : World)
    → w.answers w.queries ≡ true
    → contains m ids ≡ true
    → (result : List (ℕ × List (String × List ℕ))) × ((get_reactions_batch ids w).0 ≡ ok result)
      × ((get_reactions m w).0 ≡ ok (or_default (get m result)))
      × (counts : List (ℕ × List (String × ℕ))) × ((get_reaction_counts_batch ids w).0 ≡ ok counts)
      × ((get_reaction_counts m w).0 ≡ ok (or_default (get m counts)))
unfolding get_reactions get_reactions_batch get_reaction_counts get_reaction_counts_batch
batch_queries m ids w up within =
    let rows : List (ℕ × ReactionRow) = rows_by_time (λ r. contains r.message_id ids) w.tables in
    (
      group_messages rows [],
      rw (contains-not_empty m ids within, up) refl,
      rw up (
          ap ok (
            sym (
              get-group_messages m rows []
              ∙ ap (λ xs. group xs [])
                  (keep-sort_by_key (is_of m)
                      (timed (keep (λ r. contains r.message_id ids) w.tables.reactions))
                    ∙ ap sort_by_key (keep-timed m ids w.tables.reactions within))))),
      count_messages (keep (λ r. contains r.message_id ids) w.tables.reactions),
      rw (contains-not_empty m ids within, up) refl,
      rw up (
          ap ok (
            sym (
              get-count_messages m (keep (λ r. contains r.message_id ids) w.tables.reactions)
              ∙ ap count_by_emoji (keep-within m ids w.tables.reactions within)))),
    )
