-- ===== src/Common/Checked.antt =====
-- The checked integer arithmetic of Rust. A word is a natural number below the bound of its width,
-- and an operation that would leave the width is refused.
use Prim.Native.Nat.{ℕ, ◌+◌, ◌-◌, ◌*◌, ◌^◌, ◌<◌, ◌≤◌}
use mathlib.Core.Path.{◌≡◌, refl}
use aera_v.Common.Tests.{ltb, leb, if◌then◌else◌, ltb→lt, lt→ltb, leb→le, le→leb}
use aera_v.Common.Errors.{Outcome, ok, err, AeraError, Ensures, Ensures-if, Returns, Returns-if}

abbrev pub u16_bound : ℕ
u16_bound = 2 ^ 16

abbrev pub u64_bound : ℕ
u64_bound = 2 ^ 64

abbrev pub u128_bound : ℕ
u128_bound = 2 ^ 128

-- `a.checked_add(b).ok_or(AeraError::MathOverflow)?` in a type of the given bound.
unfoldable pub checked_add : ℕ → ℕ → ℕ → Outcome ℕ
checked_add bound a b = if ltb (a + b) bound then ok (a + b) else err AeraError.math_overflow

unfoldable pub checked_mul : ℕ → ℕ → ℕ → Outcome ℕ
checked_mul bound a b = if ltb (a * b) bound then ok (a * b) else err AeraError.math_overflow

unfoldable pub checked_sub : ℕ → ℕ → Outcome ℕ
checked_sub a b = if leb b a then ok (a - b) else err AeraError.math_overflow

-- `u64::try_from(a).map_err(|_| AeraError::MathOverflow)?`, at any width.
unfoldable pub narrow : ℕ → ℕ → Outcome ℕ
narrow bound a = if ltb a bound then ok a else err AeraError.math_overflow

pub checked_add-Ensures :
    (bound a b : ℕ) → Ensures (λ r. (r ≡ a + b) × (a + b < bound)) (checked_add bound a b)
unfolding checked_add
checked_add-Ensures bound a b = Ensures-if _ _ _ (λ e. (refl, ltb→lt _ _ e))

pub checked_mul-Ensures :
    (bound a b : ℕ) → Ensures (λ r. (r ≡ a * b) × (a * b < bound)) (checked_mul bound a b)
unfolding checked_mul
checked_mul-Ensures bound a b = Ensures-if _ _ _ (λ e. (refl, ltb→lt _ _ e))

pub checked_sub-Ensures : (a b : ℕ) → Ensures (λ r. (r ≡ a - b) × (b ≤ a)) (checked_sub a b)
unfolding checked_sub
checked_sub-Ensures a b = Ensures-if _ _ _ (λ e. (refl, leb→le _ _ e))

pub narrow-Ensures : (bound a : ℕ) → Ensures (λ r. (r ≡ a) × (a < bound)) (narrow bound a)
unfolding narrow
narrow-Ensures bound a = Ensures-if _ _ _ (λ e. (refl, ltb→lt _ _ e))

pub checked_add-Returns :
    (bound a b : ℕ) → a + b < bound → Returns (λ r. r ≡ a + b) (checked_add bound a b)
unfolding checked_add
checked_add-Returns bound a b h = Returns-if _ _ (lt→ltb _ _ h) refl

pub checked_mul-Returns :
    (bound a b : ℕ) → a * b < bound → Returns (λ r. r ≡ a * b) (checked_mul bound a b)
unfolding checked_mul
checked_mul-Returns bound a b h = Returns-if _ _ (lt→ltb _ _ h) refl

pub checked_sub-Returns : (a b : ℕ) → b ≤ a → Returns (λ r. r ≡ a - b) (checked_sub a b)
unfolding checked_sub
checked_sub-Returns a b h = Returns-if _ _ (le→leb _ _ h) refl

pub narrow-Returns : (bound a : ℕ) → a < bound → Returns (λ r. r ≡ a) (narrow bound a)
unfolding narrow
narrow-Returns bound a h = Returns-if _ _ (lt→ltb _ _ h) refl
