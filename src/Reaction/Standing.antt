-- ===== src/Reaction/Standing.antt =====
-- Which reactions stand in the table after an insertion of domain/reaction/service.rs.
use Prim.Native.String.{String}
use text.Mathlib.Text.{◌==◌ as str_eq}
use text.Mathlib.TextEquality.{eq_iff}
use ara_chat_service.Base.{
  ℕ, ◌++◌, Bool, true, ◌&&◌, List, [], ◌∷◌, ◌==◌, if◌then◌else◌, any, ◌≡◌, refl, ◌∙◌, sym, arith,
  Bool-cases, inl, inr,
}
use ara_chat_service.Database.{ReactionRow}
use ara_chat_service.Reaction.{is_reaction_in, insert_reaction}

-- Whether a reaction stands in a partition.
abbrev pub stands : ℕ → ℕ → String → ℕ → List ReactionRow → Bool
stands m u e p = any (is_reaction_in m u e p)

abbrev pub same_reaction : ℕ → ℕ → String → ℕ → ℕ → ℕ → String → ℕ → Bool
same_reaction m u e p m' u' e' p' = (m == m' && u == u' && str_eq e e') && p == p'

stands-snoc :
    (m u : ℕ) (e : String) (p m' u' : ℕ) (e' : String) (p' now : ℕ) (rows : List ReactionRow)
    → stands m' u' e' p' (
        rows
        ++ record {
          message_id = m;
          message_partition_key = p;
          user_id = u;
          emoji = e;
          created_at = now;
        }
          ∷ [])
      ≡ (if same_reaction m u e p m' u' e' p' then true else stands m' u' e' p' rows)
stands-snoc m u e p m' u' e' p' now [] = ground arith
stands-snoc m u e p m' u' e' p' now (r ∷ rows) =
    ground (arith, stands-snoc m u e p m' u' e' p' now rows)

pub same-stands :
    (m u : ℕ) (e : String) (p m' u' : ℕ) (e' : String) (p' : ℕ) (rows : List ReactionRow)
    → same_reaction m u e p m' u' e' p' ≡ true
    → stands m u e p rows ≡ stands m' u' e' p' rows
same-stands m u e p m' u' e' p' rows same =
    let a : m ≡ m' = ground (arith, same) in
    let b : u ≡ u' = ground (arith, same) in
    let c : e ≡ e' = ground (arith, eq_iff e e', same) in
    let d : p ≡ p' = ground (arith, same) in rw (a, b, c, d) refl

-- The insertion of a reaction, which leaves one that stands as it is.
pub stands-insert_reaction :
    (m u : ℕ) (e : String) (p m' u' : ℕ) (e' : String) (p' now : ℕ) (rows : List ReactionRow)
    → stands m' u' e' p' (insert_reaction m u e p now rows)
      ≡ (if same_reaction m u e p m' u' e' p' then true else stands m' u' e' p' rows)
stands-insert_reaction m u e p m' u' e' p' now rows = elim (Bool-cases (stands m u e p rows)) [
  | inl there ↦ elim (Bool-cases (same_reaction m u e p m' u' e' p')) [
    | inl same ↦ rw (there, same) (sym (same-stands m u e p m' u' e' p' rows same) ∙ there)
    | inr other ↦ rw (there, other) refl
  ]
  | inr away ↦ rw away (stands-snoc m u e p m' u' e' p' now rows)
]
