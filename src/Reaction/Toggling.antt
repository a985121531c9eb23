-- ===== src/Reaction/Toggling.antt =====
-- `toggle_reaction` of domain/reaction/service.rs.
use Prim.Native.String.{String}
use text.Mathlib.TextPositions.{eq_refl}
use ara_chat_service.Base.{
  ℕ, ◌+◌, Bool, true, false, List, some, ◌==◌, ==_refl, if◌then◌else◌, find, ◌≡◌, refl, ◌∙◌, sym,
  ap, Bool-cases, inl, inr,
}
use ara_chat_service.Base.Results.{ok, err}
use ara_chat_service.Database.{ReactionRow, World, continue}
use ara_chat_service.Reaction.{
  add, database, is_invalid, partition_of, insert_reaction, toggle_reaction, toggle_in, switch,
  get_message_partition_key, has_reaction_with_partition, add_reaction_with_partition,
}
use ara_chat_service.Reaction.Standing.{stands, same_reaction, stands-insert_reaction, same-stands}

abbrev pub after_add : ℕ → ℕ → String → ℕ → World → World
after_add m u e p w = record w {
  tables = record (w.tables) { reactions = insert_reaction m u e p w.now w.tables.reactions };
  queries = w.queries + 1 + 1 + 1;
}

-- The end of a call, after the test whether the reaction stands.
finish :
    (m u : ℕ) (e : String) (p : ℕ) (there : Bool) (w : World)
    → w.answers w.queries ≡ true
    → continue (switch m u e p) (if there then err database else ok false) w ≡ (
        if there then (err database, w) else (
          ok add,
          record w {
            tables = record (w.tables) {
              reactions = insert_reaction m u e p w.now w.tables.reactions;
            };
            queries = w.queries + 1;
          },
        ))
unfolding switch add_reaction_with_partition
finish m u e p true w up = refl
finish m u e p false w up = rw up refl

-- One call where the database answers.
toggle_step :
    (m u : ℕ) (e : String) (p : ℕ) (w : World)
    → ((n : ℕ) → w.answers n ≡ true)
    → is_invalid e ≡ false
    → partition_of (find (λ r. r.id == m) w.tables.messages) ≡ some p
    → toggle_reaction m u e w ≡ (
        if stands m u e p w.tables.reactions
        then (err database, record w { queries = w.queries + 1 + 1 })
        else (ok add, after_add m u e p w))
unfolding toggle_reaction get_message_partition_key toggle_in has_reaction_with_partition
toggle_step m u e p w up valid found =
    rw (valid, up w.queries, found, up (w.queries + 1))
      (finish m u e p (stands m u e p w.tables.reactions) (record w { queries = w.queries + 1 + 1 })
        (up (w.queries + 1 + 1)))

same_reaction_lem : (m u : ℕ) (e : String) (p : ℕ) → same_reaction m u e p m u e p ≡ true
same_reaction_lem m u e p = rw (==_refl m, ==_refl u, eq_refl e, ==_refl p) refl

stands_there :
    (m u : ℕ) (e : String) (p m' u' : ℕ) (e' : String) (p' : ℕ) (rows : List ReactionRow)
    → stands m u e p rows ≡ true
    → stands m' u' e' p' rows
      ≡ (if same_reaction m u e p m' u' e' p' then true else stands m' u' e' p' rows)
stands_there m u e p m' u' e' p' rows there =
    elim (Bool-cases (same_reaction m u e p m' u' e' p')) [
      | inl same ↦ rw same (sym (same-stands m u e p m' u' e' p' rows same) ∙ there)
      | inr other ↦ rw other refl
    ]

-- With a database that answers, for a valid emoji and a message that exists: `toggle_reaction` adds
-- the reaction of the user, and no other, if it does not stand in the message's partition, and is
-- else an error of the database that leaves the tables as they were; a second call is always that
-- error and leaves the tables as the first left them, so that no reaction is taken back.
pub toggle_reaction-toggle_reaction :
    (m u : ℕ) (e : String) (p : ℕ) (w : World)
    → ((n : ℕ) → w.answers n ≡ true)
    → is_invalid e ≡ false
    → partition_of (find (λ r. r.id == m) w.tables.messages) ≡ some p
    → let there = stands m u e p w.tables.reactions in
      let once = toggle_reaction m u e w in
      let twice = toggle_reaction m u e once.1 in
      (once.0 ≡ (if there then err database else ok add))
      × (once.1.tables
          ≡ (if there then w.tables else record (w.tables) { reactions = once.1.tables.reactions }))
      × (twice.0 ≡ err database)
      × (twice.1.tables ≡ once.1.tables)
      × ((m' u' : ℕ) (e' : String) (p' : ℕ)
          → stands m' u' e' p' once.1.tables.reactions ≡ (
              if same_reaction m u e p m' u' e' p'
              then true
              else stands m' u' e' p' w.tables.reactions))
toggle_reaction-toggle_reaction m u e p w up valid found =
    let rows : List ReactionRow = w.tables.reactions in
    elim (Bool-cases (stands m u e p rows)) [
      | inl there ↦
          let w1 : World = record w { queries = w.queries + 1 + 1 } in
          let first : toggle_reaction m u e w ≡ (err database, w1) =
            toggle_step m u e p w up valid found ∙ rw there refl in
          let second : (toggle_reaction m u e w1)
              ≡ (err database, record w1 { queries = w1.queries + 1 + 1 }) =
            toggle_step m u e p w1 up valid found ∙ rw there refl in
          rw (first, second, there)
            (refl, refl, refl, refl, λ m' u' e' p'. stands_there m u e p m' u' e' p' rows there)
      | inr away ↦
          let w1 : World = after_add m u e p w in
          let now_there : stands m u e p w1.tables.reactions ≡ true =
            stands-insert_reaction m u e p m u e p w.now rows
            ∙ rw (same_reaction_lem m u e p) refl in
          let first : toggle_reaction m u e w ≡ (ok add, w1) =
            toggle_step m u e p w up valid found
            ∙ ap
                (λ b.
                  if b
                  then (err database, record w { queries = w.queries + 1 + 1 })
                  else (ok add, w1))
                away in
          let second : toggle_reaction m u e w1
              ≡ (err database, record w1 { queries = w1.queries + 1 + 1 }) =
            toggle_step m u e p w1 up valid found
            ∙ ap
                (λ b.
                  if b
                  then (err database, record w1 { queries = w1.queries + 1 + 1 })
                  else (ok add, after_add m u e p w1))
                now_there in
          (
            ap (λ r. r.0) first ∙ ap (λ b. if b then err database else ok add) (sym away),
            ap (λ r. r.1.tables) first
                ∙ ap
                    (λ b.
                      if b then w.tables else record (w.tables) { reactions = w1.tables.reactions })
                    (sym away)
                ∙ ap
                    (λ xs.
                      if stands m u e p rows
                      then w.tables
                      else record (w.tables) { reactions = xs })
                    (ap (λ r. r.1.tables.reactions) (sym first)),
            ap (λ r. (toggle_reaction m u e r.1).0) first ∙ ap (λ r. r.0) second,
            ap (λ r. (toggle_reaction m u e r.1).1.tables) first
                ∙ ap (λ r. r.1.tables) second
                ∙ ap (λ r. r.1.tables) (sym first),
            λ m' u' e' p'.
                ap (λ r. stands m' u' e' p' r.1.tables.reactions) first
                ∙ stands-insert_reaction m u e p m' u' e' p' w.now rows,
          )
    ]
