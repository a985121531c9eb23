-- ===== src/Storage/Pinning.antt =====
-- The pins of domain/message/storage.rs.
use Prim.Native.String.{String}
use ara_chat_service.Base.{
  ℕ, Bool, not, ◌&&◌, List, [], ◌∷◌, none, some, ◌==◌, if◌then◌else◌, find, any, keep,
}
use ara_chat_service.Base.Results.{ok}
use ara_chat_service.Database.{PinRow, Db, fail, ◌>>=◌, ◌>>◌, select, select_one, write}
use ara_chat_service.Storage.{
  StorageError, database, not_found, message_not_in_conversation, is_kept,
}

module _ (tenant : String) where
  abbrev pub is_pin : ℕ → ℕ → PinRow → Bool
  is_pin message_id conversation_id p =
      p.message_id == message_id && p.conversation_id == conversation_id

  -- `INSERT … ON CONFLICT (message_id, conversation_id) DO UPDATE`
  abbrev pub upsert_pin : PinRow → List PinRow → List PinRow
  upsert_pin new [] = new ∷ []
  upsert_pin new (p ∷ pins) =
      if is_pin new.message_id new.conversation_id p
      then record p { pinned_by = new.pinned_by; pinned_at = new.pinned_at } ∷ pins
      else p ∷ upsert_pin new pins

  -- The time of the pin.
  abbrev pub put_pin : ℕ → ℕ → ℕ → Db StorageError ℕ
  put_pin message_id conversation_id pinned_by = do
    write database (λ now t. record t {
      pins =
          upsert_pin
            (record {
              message_id = message_id;
              conversation_id = conversation_id;
              pinned_by = pinned_by;
              pinned_at = now;
            })
            t.pins;
    })
    λ w. (ok w.now, w)

  unfoldable pub pin_message : ℕ → ℕ → ℕ → Db StorageError ℕ
  pin_message message_id conversation_id pinned_by = do
    row ← select database (λ t. find (is_kept tenant message_id) t.messages)
    elim row [
      | none ↦ fail not_found
      | some r ↦
          if r.conversation_id == conversation_id
          then put_pin message_id conversation_id pinned_by
          else fail message_not_in_conversation
    ]

  unfoldable pub unpin_message : ℕ → ℕ → Db StorageError Bool
  unpin_message message_id conversation_id = do
    affected ← select database (λ t. any (is_pin message_id conversation_id) t.pins)
    λ w. (
      ok affected,
      record w {
        tables = record (w.tables) {
          pins = keep (λ p. not (is_pin message_id conversation_id p)) w.tables.pins;
        };
      },
    )

  unfoldable pub is_message_pinned : ℕ → ℕ → Db StorageError Bool
  is_message_pinned message_id conversation_id =
      select_one database (λ t. any (is_pin message_id conversation_id) t.pins)
