-- ===== src/Reserve/Pool.antt =====
-- `impl Reserve` in state/reserve.rs: the pool that the share token is a claim on.
use aera_v.Common.{
  ℕ, ◌%◌, max, Outcome, ok, ◌>>=◌, AeraError, require, checked_add, checked_mul, checked_sub,
  narrow, u64_bound, u128_bound, ◌==◌, if◌then◌else◌, Clock,
}
use aera_v.Constants.{fixed_point_scale, bps_denominator}
use aera_v.Math.{mul_div_floor, mul_div, Rounding}
use aera_v.Reserve.Types.{Reserve}

-- One unit more if the exact product has a remainder.
abbrev pub round_up : ℕ → ℕ → Outcome ℕ
round_up exact amount =
    if exact % fixed_point_scale == 0 then ok amount else checked_add u128_bound amount 1

unfoldable pub current_borrowed_amount : Reserve → Outcome ℕ
current_borrowed_amount r = do
  amount ← mul_div_floor r.borrowed_principal r.borrow_index fixed_point_scale
  exact ← checked_mul u128_bound r.borrowed_principal r.borrow_index
  rounded ← round_up exact amount
  narrow u64_bound rounded

unfoldable pub gross_liquidity : Reserve → Outcome ℕ
gross_liquidity r = do
  borrowed ← current_borrowed_amount r
  checked_add u128_bound r.available_liquidity borrowed

unfoldable pub total_liquidity : Reserve → Outcome ℕ
total_liquidity r = do gross ← gross_liquidity r; checked_sub gross r.accrued_fees

unfoldable pub utilization_bps : Reserve → Outcome ℕ
utilization_bps r = do
  gross ← gross_liquidity r
  if gross == 0
      then ok 0
      else do borrowed ← current_borrowed_amount r; mul_div_floor borrowed bps_denominator gross

unfoldable pub require_accrued : Reserve → Clock → Outcome (Unit {0})
require_accrued r clock = require (r.last_update_slot == clock.slot) AeraError.reserve_stale

unfoldable pub shares_to_liquidity : Reserve → ℕ → Rounding → Outcome ℕ
shares_to_liquidity r shares rounding = do
  total ← total_liquidity r
  amount ← mul_div shares total (max r.share_mint_supply 1) rounding
  narrow u64_bound amount

unfoldable pub liquidity_to_shares : Reserve → ℕ → Rounding → Outcome ℕ
liquidity_to_shares r liquidity rounding = if r.share_mint_supply == 0 then ok liquidity else do
  total ← total_liquidity r
  amount ← mul_div liquidity r.share_mint_supply (max total 1) rounding
  narrow u64_bound amount
