-- ===== src/Math.antt =====
-- programs/aera/src/math.rs: integer money arithmetic in `u128`. The signed exponent of
-- `price_mantissa_to_scaled` is the one part left out: nothing in the program calls it.
pub mod Rounds
use aera_v.Common.{
  ℕ, ◌+◌, ◌-◌, ◌*◌, ◌/◌, ◌^◌, ◌≡◌, Bool, true, false, Outcome, ok, err, AeraError, ◌>>=◌, ◌>>◌,
  require, u64_bound, u128_bound, checked_add, checked_mul, checked_sub, narrow, ltb, leb, ◌==◌,
  if◌then◌else◌,
}
use aera_v.Constants.{bps_denominator}

-- `Rounding`
pub data Rounding : Type 0 where
  down up : Rounding

-- `10u128.checked_pow(exponent)`
unfoldable pub ten_pow : ℕ → Outcome ℕ
ten_pow exponent =
    if ltb (10 ^ exponent) u128_bound then ok (10 ^ exponent) else err AeraError.math_overflow

-- `checked_div`, whose divisor both callers have tested.
checked_div : ℕ → ℕ → Outcome ℕ
checked_div a d = if d == 0 then err AeraError.math_overflow else ok (a / d)

unfoldable pub mul_div_floor : ℕ → ℕ → ℕ → Outcome ℕ
unfolding checked_div
mul_div_floor a b denominator = do
  require (ltb 0 denominator) AeraError.math_overflow
  product ← checked_mul u128_bound a b
  checked_div product denominator

unfoldable pub mul_div_ceil : ℕ → ℕ → ℕ → Outcome ℕ
unfolding checked_div
mul_div_ceil a b denominator = do
  require (ltb 0 denominator) AeraError.math_overflow
  product ← checked_mul u128_bound a b
  rounding ← checked_sub denominator 1
  total ← checked_add u128_bound product rounding
  checked_div total denominator

unfoldable pub mul_div : ℕ → ℕ → ℕ → Rounding → Outcome ℕ
mul_div a b denominator down = mul_div_floor a b denominator
mul_div a b denominator up = mul_div_ceil a b denominator

unfoldable pub market_value : ℕ → ℕ → ℕ → Rounding → Outcome ℕ
market_value amount decimals price_scaled rounding = do
  divisor ← ten_pow decimals
  mul_div amount price_scaled divisor rounding

unfoldable pub value_to_amount : ℕ → ℕ → ℕ → Rounding → Outcome ℕ
value_to_amount value_scaled decimals price_scaled rounding = do
  multiplier ← ten_pow decimals
  amount ← mul_div value_scaled multiplier price_scaled rounding
  narrow u64_bound amount

-- `u128::abs_diff`
abbrev pub abs_diff : ℕ → ℕ → ℕ
abs_diff a b = if leb a b then b - a else a - b

unfoldable pub move_bps : ℕ → ℕ → Outcome ℕ
move_bps previous next =
    if previous == 0 then ok 0 else mul_div_floor (abs_diff previous next) bps_denominator previous
