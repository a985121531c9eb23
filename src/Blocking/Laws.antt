-- ===== src/Blocking/Laws.antt =====
-- The queries of domain/blocking/service.rs, against each other and after its commands.
use Prim.Native.String.{String}
use text.Mathlib.TextPositions.{eq_refl}
use ara_chat_service.Base.{
  ℕ, Bool, true, false, not, ◌&&◌, ◌||◌, List, [], ◌∷◌, Option, ◌==◌, if◌then◌else◌, length,
  contains, contains-keep, keep, any, map, ◌≡◌, refl, ◌∙◌, ◌⊎◌, arith,
}
use ara_chat_service.Base.Results.{ok, err}
use ara_chat_service.Database.{BlockRow, World}
use ara_chat_service.Blocking.{
  BlockingError, database, cannot_block_self, block_not_found, is_block, upsert_block, new_block,
  block_user, unblock_user, is_blocked, is_between, is_mutually_blocked, distinct, touches,
  other_user, get_all_blocked_user_ids,
}

module _ (tenant : String) where
  abbrev pub blocks : ℕ → ℕ → List BlockRow → Bool
  blocks a b = any (is_block tenant a b)

  contains-distinct : (a : ℕ) (xs : List ℕ) → contains a (distinct tenant xs) ≡ contains a xs
  contains-distinct a [] = refl
  contains-distinct a (x ∷ xs) =
      ground
        (arith, contains-keep (λ y. not (y == x)) a (distinct tenant xs), contains-distinct a xs)

  contains-others :
      (u v : ℕ) (rows : List BlockRow)
      → contains v (map (other_user tenant u) (keep (touches tenant u) rows))
        ≡ any (is_between tenant u v) rows
  contains-others u v [] = refl
  contains-others u v (r ∷ rows) = ground (arith, contains-others u v rows)

  any_between :
      (a b : ℕ) (rows : List BlockRow)
      → any (is_between tenant a b) rows ≡ (blocks a b rows || blocks b a rows)
  any_between a b [] = refl
  any_between a b (r ∷ rows) = ground (arith, any_between a b rows)

  -- When the database answers, `get_all_blocked_user_ids` of a user lists another exactly if one of
  -- the two has blocked the other. `is_mutually_blocked` of the two is an error of the database
  -- exactly if the list has the other, and `is_blocked` exactly if the first has blocked the second;
  -- else they answer that there is no block.
  pub blocked_queries :
      (a : ℕ) (w : World)
      → w.answers w.queries ≡ true
      → (ids : List ℕ) × ((get_all_blocked_user_ids tenant a w).0 ≡ ok ids)
        × ((b : ℕ)
            → ((is_mutually_blocked tenant a b w).0
                ≡ (if contains b ids then err database else ok false))
              × ((is_blocked tenant a b w).0
                  ≡ (if blocks a b w.tables.blocks then err database else ok false))
              × (contains b ids ≡ (blocks a b w.tables.blocks || blocks b a w.tables.blocks)))
  unfolding get_all_blocked_user_ids is_mutually_blocked is_blocked
  blocked_queries a w up =
      let found = map (other_user tenant a) (keep (touches tenant a) w.tables.blocks) in
      (
        distinct tenant found,
        ground (arith, up),
        λ b.
            let listed = contains-distinct b found ∙ contains-others a b w.tables.blocks in
            (
              ground (arith, up, listed),
              ground (arith, up),
              listed ∙ any_between a b w.tables.blocks,
            ),
      )

  blocks-upsert :
      (a b a' b' now : ℕ) (reason : Option String) (rows : List BlockRow)
      → blocks a' b' (upsert_block tenant (new_block tenant a b reason now) rows)
        ≡ (a == a' && b == b' || blocks a' b' rows)
  blocks-upsert a b a' b' now reason [] = ground (arith, eq_refl tenant)
  blocks-upsert a b a' b' now reason (r ∷ rows) =
      ground (arith, blocks-upsert a b a' b' now reason rows)

  blocks-delete :
      (a b a' b' : ℕ) (rows : List BlockRow)
      → blocks a' b' (keep (λ r. not (is_block tenant a b r)) rows)
        ≡ (not (a == a' && b == b') && blocks a' b' rows)
  blocks-delete a b a' b' [] = ground arith
  blocks-delete a b a' b' (r ∷ rows) = ground (arith, blocks-delete a b a' b' rows)

  length-keep-any :
      {A : Type 0} (p : A → Bool) (xs : List A) → (length (keep p xs) == 0) ≡ not (any p xs)
  length-keep-any p [] = ground arith
  length-keep-any p (x ∷ xs) = ground (arith, length-keep-any p xs)

  -- `block_user` refuses a user who blocks himself, and leaves the tables as they were with every
  -- error; else the one has blocked the other at the time of the call, and all other blocks are as
  -- before.
  block_user_lem :
      (a b : ℕ) (reason : Option String) (w : World)
      → let after = (block_user tenant a b reason w).1.tables in
        ((e : BlockingError)
          → (block_user tenant a b reason w).0 ≡ err e
          → (after ≡ w.tables) × (e ≡ (if a == b then cannot_block_self else database)))
        × ((at : ℕ)
            → (block_user tenant a b reason w).0 ≡ ok at
            → (at ≡ w.now)
              × ((a == b) ≡ false)
              × ((a' b' : ℕ)
                  → blocks a' b' after.blocks
                    ≡ (a == a' && b == b' || blocks a' b' w.tables.blocks)))
  unfolding block_user
  block_user_lem a b reason w = (
    λ e h. ground arith,
    λ at h. (
      ground arith,
      ground arith,
      λ a' b'. ground (arith, blocks-upsert a b a' b' w.now reason w.tables.blocks),
    ),
  )

  -- `unblock_user` says that there is no block exactly if there is none, and leaves the tables as
  -- they were with every error; else there was a block, it is gone, and all other blocks are as
  -- before.
  unblock_user_lem :
      (a b : ℕ) (w : World)
      → let after = (unblock_user tenant a b w).1.tables in
        ((e : BlockingError)
          → (unblock_user tenant a b w).0 ≡ err e
          → (after ≡ w.tables)
            × ((e ≡ database) ⊎ ((e ≡ block_not_found) × (blocks a b w.tables.blocks ≡ false))))
        × ((unblock_user tenant a b w).0 ≡ ok tt
            → (blocks a b w.tables.blocks ≡ true)
              × ((a' b' : ℕ)
                  → blocks a' b' after.blocks
                    ≡ (not (a == a' && b == b') && blocks a' b' w.tables.blocks)))
  unfolding unblock_user
  unblock_user_lem a b w = (
    λ e h. ground (arith, length-keep-any (is_block tenant a b) w.tables.blocks),
    λ h. (
      ground (arith, length-keep-any (is_block tenant a b) w.tables.blocks),
      λ a' b'. ground (arith, blocks-delete a b a' b' w.tables.blocks),
    ),
  )
