-- ===== src/Connection/Owned.antt =====
-- The connections of a user, read off the table of domain/connection/manager.rs itself.
use ara_chat_service.Base.{
  ℕ, ◌++◌, false, not, List, [], ◌∷◌, some, ◌≡◌, refl, arith, ◌==◌, if◌then◌else◌, contains, keep,
  IsDistinct,
}
use ara_chat_service.Base.Map.{get, has, insert, remove, HasDistinctKeys}
use ara_chat_service.Connection.{Connection}

module _ {Sender : Type 0} where
  -- The ids of the connections of `u`, in the order of the table.
  unfoldable pub owned_by : ℕ → List (ℕ × Connection Sender) → List ℕ
  owned_by u [] = []
  owned_by u ((id, c) ∷ m) = if c.user_id == u then id ∷ owned_by u m else owned_by u m

  pub owned_by-snoc :
      (u id : ℕ) (c : Connection Sender) (m : List (ℕ × Connection Sender))
      → owned_by u (m ++ (id, c) ∷ [])
        ≡ (if c.user_id == u then owned_by u m ++ id ∷ [] else owned_by u m)
  unfolding owned_by
  owned_by-snoc u id c [] = ground arith
  owned_by-snoc u id c ((j, d) ∷ m) = ground (arith, owned_by-snoc u id c m)

  pub owned_by-remove :
      (u id : ℕ) (m : List (ℕ × Connection Sender))
      → owned_by u (remove id m) ≡ keep (λ j. not (j == id)) (owned_by u m)
  unfolding owned_by
  owned_by-remove u id [] = refl
  owned_by-remove u id ((j, d) ∷ m) = ground (arith, owned_by-remove u id m)

  -- A new value of the same user under a known key changes nothing.
  pub owned_by-insert :
      (u id : ℕ) (c d : Connection Sender) (m : List (ℕ × Connection Sender))
      → get id m ≡ some c
      → d.user_id ≡ c.user_id
      → owned_by u (insert id d m) ≡ owned_by u m
  unfolding owned_by
  owned_by-insert u id c d [] e h = cc
  owned_by-insert u id c d ((j, b) ∷ m) e h = ground (arith, owned_by-insert u id c d m)

  pub contains-owned_by_absent :
      (u id : ℕ) (m : List (ℕ × Connection Sender))
      → has id m ≡ false
      → contains id (owned_by u m) ≡ false
  unfolding owned_by
  contains-owned_by_absent u id [] h = refl
  contains-owned_by_absent u id ((j, b) ∷ m) h = ground (arith, contains-owned_by_absent u id m)

  pub contains-owned_by :
      (u id : ℕ) (c : Connection Sender) (m : List (ℕ × Connection Sender))
      → HasDistinctKeys m
      → get id m ≡ some c
      → contains id (owned_by u m) ≡ (c.user_id == u)
  unfolding owned_by
  contains-owned_by u id c [] d e = cc
  contains-owned_by u id c ((j, b) ∷ m) d e =
      ground (arith, contains-owned_by u id c m d.1, contains-owned_by_absent u j m d.0)

  pub owned_by-IsDistinct :
      (u : ℕ) (m : List (ℕ × Connection Sender)) → HasDistinctKeys m → IsDistinct (owned_by u m)
  unfolding owned_by
  owned_by-IsDistinct u [] d = tt
  owned_by-IsDistinct u ((j, b) ∷ m) d =
      ground (arith, owned_by-IsDistinct u m d.1, contains-owned_by_absent u j m d.0)
