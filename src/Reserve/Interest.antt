-- ===== src/Reserve/Interest.antt =====
-- `impl Reserve` in state/reserve.rs: the kinked rate curve and the accrual of interest.
use aera_v.Common.{
  ℕ, ◌-◌, Outcome, ok, ◌>>=◌, checked_add, checked_mul, checked_sub, narrow, u64_bound, u128_bound,
  ltb, leb, ◌&&◌, if◌then◌else◌,
}
use aera_v.Constants.{fixed_point_scale, bps_denominator}
use aera_v.Math.{mul_div_floor}
use aera_v.Reserve.Types.{Reserve, ReserveConfig}
use aera_v.Reserve.Pool.{current_borrowed_amount, utilization_bps}

-- The body of `borrow_rate_bps` after the utilization is known: the kinked curve.
unfoldable pub curve_bps : ReserveConfig → ℕ → Outcome ℕ
curve_bps c utilization =
    if leb utilization c.optimal_utilization_bps
    then (do
      rate_range ← checked_sub c.optimal_borrow_rate_bps c.min_borrow_rate_bps
      climbed ← mul_div_floor rate_range utilization c.optimal_utilization_bps
      checked_add u128_bound c.min_borrow_rate_bps climbed)
    else do
      rate_range ← checked_sub c.max_borrow_rate_bps c.optimal_borrow_rate_bps
      above ← checked_sub utilization c.optimal_utilization_bps
      range ← checked_sub bps_denominator c.optimal_utilization_bps
      climbed ← mul_div_floor rate_range above range
      checked_add u128_bound c.optimal_borrow_rate_bps climbed

unfoldable pub borrow_rate_bps : Reserve → Outcome ℕ
borrow_rate_bps r = do utilization ← utilization_bps r; curve_bps r.config utilization

unfoldable pub supply_rate_bps : Reserve → Outcome ℕ
supply_rate_bps r = do
  borrow_rate ← borrow_rate_bps r
  utilization ← utilization_bps r
  after_utilization ← mul_div_floor borrow_rate utilization bps_denominator
  keep ← checked_sub bps_denominator r.config.reserve_factor_bps
  mul_div_floor after_utilization keep bps_denominator

unfoldable pub borrow_rate_per_slot : Reserve → Outcome ℕ
borrow_rate_per_slot r = do
  apr_bps ← borrow_rate_bps r
  denominator ← checked_mul u128_bound bps_denominator r.config.slots_per_year
  mul_div_floor apr_bps fixed_point_scale denominator

-- The branch of `accrue_interest` that charges interest for `elapsed` slots.
unfoldable pub charge_interest : Reserve → ℕ → Outcome Reserve
charge_interest r elapsed = do
  borrowed_before ← current_borrowed_amount r
  rate_per_slot ← borrow_rate_per_slot r
  accrued ← checked_mul u128_bound rate_per_slot elapsed
  growth ← checked_add u128_bound fixed_point_scale accrued
  index ← mul_div_floor r.borrow_index growth fixed_point_scale
  let grown = record r { borrow_index = index }
  borrowed_after ← current_borrowed_amount grown
  let interest = borrowed_after - borrowed_before
  fee ← mul_div_floor interest r.config.reserve_factor_bps bps_denominator
  fee_word ← narrow u64_bound fee
  fees ← checked_add u64_bound r.accrued_fees fee_word
  ok (record grown { accrued_fees = fees })

unfoldable pub accrue_interest : Reserve → ℕ → Outcome Reserve
unfolding charge_interest
accrue_interest r current_slot = do
  elapsed ← checked_sub current_slot r.last_update_slot
  accrued ←
      (if ltb 0 elapsed && ltb 0 r.borrowed_principal then charge_interest r elapsed else ok r)
  ok (record accrued { last_update_slot = current_slot })
