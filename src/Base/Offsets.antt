-- ===== src/Base/Offsets.antt =====
-- Signed numbers of 64 bits, and the offsets of Redis, which count from the end where negative.
use Prim.Native.Nat.{ℕ, zero, suc, ◌-◌, ◌^◌, ◌<◌}
use mathlib.Core.Path.{◌≡◌, ◌∙◌}
use mathlib.Core.List.{List}
use native.Mathlib.Omega.{arith}
use ara_chat_service.Base.Tests.{ltb, if◌then◌else◌}
use ara_chat_service.Base.Lists.{length}
use ara_chat_service.Base.Slices.{take, drop, take_last, take_all, drop_zero, length-drop}

-- `negsuc n` is -(n + 1).
pub data ℤ : Type 0 where
  pos negsuc : ℕ → ℤ

-- `as i64` and `as isize` of an unsigned number of 64 bits.
abbrev pub as_signed : ℕ → ℤ
as_signed n = if ltb n (2 ^ 63) then pos n else negsuc (2 ^ 64 - n - 1)

abbrev pub neg : ℤ → ℤ
neg (pos zero) = pos 0
neg (pos (suc n)) = negsuc n
neg (negsuc n) = pos (suc n)

abbrev pub decrement : ℤ → ℤ
decrement (pos zero) = negsuc 0
decrement (pos (suc n)) = pos n
decrement (negsuc n) = negsuc (suc n)

abbrev pub IsPositive : ℤ → Type 0
IsPositive (pos n) = 0 < n
IsPositive (negsuc n) = ⊥

-- Where a range that starts and stops at an offset begins in a list of `len` elements, and the first
-- position after it.
abbrev pub from_offset : ℕ → ℤ → ℕ
from_offset len (pos n) = n
from_offset len (negsuc n) = len - suc n

abbrev pub after_offset : ℕ → ℤ → ℕ
after_offset len (pos n) = suc n
after_offset len (negsuc n) = len - n

pub as_signed_small : (n : ℕ) → n < 2 ^ 63 → as_signed n ≡ pos n
as_signed_small n b = ground arith

module _ {ℓ} {A : Type ℓ} where
  -- The elements from one offset to another, both included; none where the first is behind the last.
  abbrev pub slice : ℤ → ℤ → List A → List A
  slice start stop xs =
      let first = from_offset (length xs) start in
      take (after_offset (length xs) stop - first) (drop first xs)

  pub slice_all : (xs : List A) → slice (pos 0) (negsuc 0) xs ≡ xs
  slice_all xs =
      take_all (length xs - 0 - 0) (drop 0 xs) (omega (arith, length-drop 0 xs)) ∙ drop_zero xs

  -- The range that keeps the last elements.
  pub slice_last :
      (n : ℕ) (xs : List A)
      → 0 < n
      → n < 2 ^ 63
      → slice (neg (as_signed n)) (negsuc 0) xs ≡ take_last n xs
  slice_last zero xs h b = absurd (omega arith)
  slice_last (suc n) xs h b = rw (as_signed_small (suc n) b) (
      take_all (length xs - 0 - (length xs - suc n)) (drop (length xs - suc n) xs)
        (omega (arith, length-drop (length xs - suc n) xs)))

pub as_signed-IsPositive : (n : ℕ) → 0 < n → n < 2 ^ 63 → IsPositive (as_signed n)
as_signed-IsPositive n h b = ground arith
