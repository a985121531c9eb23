-- ===== src/Blocking.antt =====
-- domain/blocking/service.rs: who has blocked whom. `tenant` is the service's `tenant_id`.
pub mod Examples
pub mod Laws
use Prim.Native.String.{String}
use text.Mathlib.Text.{◌==◌ as str_eq}
use ara_chat_service.Base.{
  ℕ, ◌+◌, ◌++◌, Bool, true, false, not, ◌&&◌, ◌||◌, List, [], ◌∷◌, Option, ◌==◌, ltb, if◌then◌else◌,
  length, contains, keep, find, any, map,
}
use ara_chat_service.Base.Results.{Result, ok, err}
use ara_chat_service.Database.{
  BlockRow, Tables, World, Db, pure, fail, ◌>>=◌, ◌>>◌, attempt, select, select_one, write,
  continue,
}

-- The texts of the errors of the database are left out.
pub data BlockingError : Type 0 where
  database cannot_block_self user_not_found block_not_found already_blocked : BlockingError

pub record BlockedUserInfo : Type 0 where
  pub user_id : ℕ
  pub blocked_at : ℕ

module _ (tenant : String) where
  -- The row of a block, by the primary key.
  abbrev pub is_block : ℕ → ℕ → BlockRow → Bool
  is_block blocker blocked r =
      r.blocker_id == blocker && r.blocked_user_id == blocked && str_eq r.tenant_id tenant

  -- `INSERT … ON CONFLICT (blocker_id, blocked_user_id, tenant_id) DO UPDATE`
  abbrev pub upsert_block : BlockRow → List BlockRow → List BlockRow
  upsert_block new [] = new ∷ []
  upsert_block new (r ∷ rows) =
      if is_block new.blocker_id new.blocked_user_id r
      then record r { blocked_at = new.blocked_at; reason = new.reason } ∷ rows
      else r ∷ upsert_block new rows

  abbrev pub new_block : ℕ → ℕ → Option String → ℕ → BlockRow
  new_block blocker blocked reason now = record {
    blocker_id = blocker;
    blocked_user_id = blocked;
    tenant_id = tenant;
    blocked_at = now;
    reason = reason;
  }

  unfoldable pub block_user : ℕ → ℕ → Option String → Db BlockingError ℕ
  block_user blocker blocked reason = if blocker == blocked then fail cannot_block_self else (do
    write database (λ now t. record t {
      blocks = upsert_block (new_block blocker blocked reason now) t.blocks;
    })
    λ w. (ok w.now, w))

  -- The rows that the statement deletes are counted before.
  unfoldable pub unblock_user : ℕ → ℕ → Db BlockingError (Unit {0})
  unblock_user blocker blocked = do
    affected ← select database (λ t. length (keep (is_block blocker blocked) t.blocks))
    λ w. if affected == 0 then (err block_not_found, w) else (
      ok tt,
      record w {
        tables = record (w.tables) {
          blocks = keep (λ r. not (is_block blocker blocked r)) w.tables.blocks;
        };
      },
    )

  unfoldable pub is_blocked : ℕ → ℕ → Db BlockingError Bool
  is_blocked blocker blocked = select_one database (λ t. any (is_block blocker blocked) t.blocks)

  -- A block between two users, in either direction.
  abbrev pub is_between : ℕ → ℕ → BlockRow → Bool
  is_between a b r =
      str_eq r.tenant_id tenant
      && (r.blocker_id == a && r.blocked_user_id == b
          || r.blocker_id == b && r.blocked_user_id == a)

  unfoldable pub is_mutually_blocked : ℕ → ℕ → Db BlockingError Bool
  is_mutually_blocked a b = select_one database (λ t. any (is_between a b) t.blocks)

  -- `ORDER BY blocked_at DESC`
  abbrev pub insert_by_time : BlockedUserInfo → List BlockedUserInfo → List BlockedUserInfo
  insert_by_time x [] = x ∷ []
  insert_by_time x (y ∷ ys) =
      if ltb x.blocked_at y.blocked_at then y ∷ insert_by_time x ys else x ∷ y ∷ ys

  abbrev pub newest_first : List BlockedUserInfo → List BlockedUserInfo
  newest_first [] = []
  newest_first (x ∷ xs) = insert_by_time x (newest_first xs)

  unfoldable pub get_blocked_users : ℕ → Db BlockingError (List BlockedUserInfo)
  get_blocked_users user = select database (λ t. newest_first (
      map (λ r. record { user_id = r.blocked_user_id; blocked_at = r.blocked_at })
        (keep (λ r. r.blocker_id == user && str_eq r.tenant_id tenant) t.blocks)))

  unfoldable pub get_blocked_by : ℕ → Db BlockingError (List ℕ)
  get_blocked_by user = select database (λ t.
      map (λ r. r.blocker_id)
        (keep (λ r. r.blocked_user_id == user && str_eq r.tenant_id tenant) t.blocks))

  -- `SELECT DISTINCT`
  abbrev pub distinct : List ℕ → List ℕ
  distinct [] = []
  distinct (x ∷ xs) = x ∷ keep (λ y. not (y == x)) (distinct xs)

  abbrev pub touches : ℕ → BlockRow → Bool
  touches user r = str_eq r.tenant_id tenant && (r.blocker_id == user || r.blocked_user_id == user)

  abbrev pub other_user : ℕ → BlockRow → ℕ
  other_user user r = if r.blocker_id == user then r.blocked_user_id else r.blocker_id

  unfoldable pub get_all_blocked_user_ids : ℕ → Db BlockingError (List ℕ)
  get_all_blocked_user_ids user =
      select database (λ t. distinct (map (other_user user) (keep (touches user) t.blocks)))

  unfoldable pub get_block_count : ℕ → Db BlockingError ℕ
  get_block_count user =
      select database
        (λ t. length (keep (λ r. r.blocker_id == user && str_eq r.tenant_id tenant) t.blocks))
