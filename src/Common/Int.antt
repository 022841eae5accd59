-- ===== src/Common/Int.antt =====
-- The signed integers, for `i64` timestamps and delays.
use Prim.Native.Nat.{ℕ, suc, ◌+◌, ◌-◌, ◌≤◌, ◌^◌}
use mathlib.Core.Bool.{Bool, ◌&&◌}
use aera_v.Common.Tests.{ltb, leb, ◌==◌, if◌then◌else◌}
use aera_v.Common.Errors.{Outcome, ok, err, AeraError}

-- `negsuc n` is -(n + 1).
pub data ℤ : Type 0 where
  pos : ℕ → ℤ
  negsuc : ℕ → ℤ

abbrev pub pos_part : ℤ → ℕ
pos_part (pos n) = n
pos_part (negsuc n) = 0

abbrev pub neg_part : ℤ → ℕ
neg_part (pos n) = 0
neg_part (negsuc n) = suc n

-- a - b, as an integer.
abbrev pub sub_ℕ : ℕ → ℕ → ℤ
sub_ℕ a b = if leb b a then pos (a - b) else negsuc (b - a - 1)

infixl 65 ◌+ℤ◌
infix 50 ◌≤ℤ◌
abbrev pub ◌+ℤ◌ : ℤ → ℤ → ℤ
a +ℤ b = sub_ℕ (pos_part a + pos_part b) (neg_part a + neg_part b)

abbrev pub ◌≤ℤ◌ : ℤ → ℤ → Type 0
a ≤ℤ b = pos_part a + neg_part b ≤ pos_part b + neg_part a

abbrev pub leb_ℤ : ℤ → ℤ → Bool
leb_ℤ a b = leb (pos_part a + neg_part b) (pos_part b + neg_part a)

abbrev pub eq_ℤ : ℤ → ℤ → Bool
eq_ℤ a b = (pos_part a + neg_part b) == (pos_part b + neg_part a)

-- Whether an integer is an `i64`.
abbrev pub fits_i64 : ℤ → Bool
fits_i64 a = ltb (pos_part a) (2 ^ 63) && leb (neg_part a) (2 ^ 63)

-- `i64::checked_add(..).ok_or(AeraError::MathOverflow)?`
unfoldable pub checked_add_i64 : ℤ → ℤ → Outcome ℤ
checked_add_i64 a b = if fits_i64 (a +ℤ b) then ok (a +ℤ b) else err AeraError.math_overflow

-- a - b
infixl 65 ◌-ℤ◌
abbrev pub ◌-ℤ◌ : ℤ → ℤ → ℤ
a -ℤ b = sub_ℕ (pos_part a + neg_part b) (pos_part b + neg_part a)

abbrev pub max_ℤ : ℤ → ℤ → ℤ
max_ℤ a b = if leb_ℤ a b then b else a

-- b - a as a natural number, where a ≤ b.
abbrev pub gap_ℤ : ℤ → ℤ → ℕ
gap_ℤ a b = (pos_part b + neg_part a) - (pos_part a + neg_part b)

-- `i64::saturating_sub`
unfoldable pub saturating_sub_i64 : ℤ → ℤ → ℤ
saturating_sub_i64 a b =
    if fits_i64 (a -ℤ b)
    then a -ℤ b
    else if leb_ℤ b a
    then pos (2 ^ 63 - 1)
    else negsuc (2 ^ 63 - 1)

-- `+` and `-` on `i64`; the build checks for overflow, and one aborts the transaction.
unfoldable pub panicking_add_i64 : ℤ → ℤ → Outcome ℤ
panicking_add_i64 a b = if fits_i64 (a +ℤ b) then ok (a +ℤ b) else err (AeraError.external 0)

unfoldable pub panicking_sub_i64 : ℤ → ℤ → Outcome ℤ
panicking_sub_i64 a b = if fits_i64 (a -ℤ b) then ok (a -ℤ b) else err (AeraError.external 0)
