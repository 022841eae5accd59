-- ===== src/Reserve/Config.antt =====
-- `impl ReserveConfig` in state/reserve.rs: the hard limits on a configuration, and what counts as
-- tightening one.
use aera_v.Common.{
  ℕ, Bool, true, false, not, ◌&&◌, Outcome, ok, err, AeraError, ◌>>◌, require, ltb, leb, ◌==◌,
  if◌then◌else◌,
}
use aera_v.Constants.{
  bps_denominator, max_admin_ltv_bps, max_admin_liquidation_bonus_bps, max_admin_reserve_factor_bps,
  max_admin_origination_fee_bps, min_admin_collateral_haircut_bps,
}
use aera_v.Reserve.Types.{ReserveConfig}

abbrev within_bps : ℕ → Bool
within_bps value = leb value bps_denominator

unfoldable pub validate : ReserveConfig → Outcome (Unit {0})
validate c = do
  require
      (within_bps c.loan_to_value_bps
        && within_bps c.liquidation_threshold_bps
        && within_bps c.liquidation_bonus_bps
        && within_bps c.close_factor_bps
        && within_bps c.collateral_haircut_bps
        && within_bps c.reserve_factor_bps
        && within_bps c.optimal_utilization_bps)
      AeraError.invalid_config
  require (leb c.loan_to_value_bps max_admin_ltv_bps) AeraError.ltv_above_hard_max
  require (leb c.liquidation_bonus_bps max_admin_liquidation_bonus_bps)
      AeraError.bonus_above_hard_max
  require (leb c.reserve_factor_bps max_admin_reserve_factor_bps)
      AeraError.reserve_factor_above_hard_max
  require (leb c.origination_fee_bps max_admin_origination_fee_bps)
      AeraError.origination_fee_above_hard_max
  if c.collateral_enabled
      then require (leb min_admin_collateral_haircut_bps c.collateral_haircut_bps)
          AeraError.haircut_below_hard_min
      else ok tt
  require (ltb 0 c.close_factor_bps) AeraError.invalid_config
  require (ltb 0 c.optimal_utilization_bps && ltb c.optimal_utilization_bps bps_denominator)
      AeraError.invalid_config
  require (leb c.loan_to_value_bps c.liquidation_threshold_bps) AeraError.invalid_config
  require
      (leb c.min_borrow_rate_bps c.optimal_borrow_rate_bps
        && leb c.optimal_borrow_rate_bps c.max_borrow_rate_bps)
      AeraError.invalid_config
  require (ltb 0 c.slots_per_year) AeraError.invalid_config
  if ltb 0 c.supply_cap && ltb c.supply_cap c.borrow_cap
      then err AeraError.invalid_config
      else ok tt

-- `reserve::cap_is_tighter`. A cap of 0 means unlimited.
unfoldable pub cap_is_tighter : ℕ → ℕ → Bool
cap_is_tighter current next =
    if current == 0 then true else if next == 0 then false else leb next current

-- `==` on `bool`
abbrev pub same : Bool → Bool → Bool
same true b = b
same false b = not b

-- `current.is_tightening_from(&next)`
unfoldable pub is_tightening_from : ReserveConfig → ReserveConfig → Bool
is_tightening_from current next =
    leb next.loan_to_value_bps current.loan_to_value_bps
    && leb next.liquidation_threshold_bps current.liquidation_threshold_bps
    && leb current.collateral_haircut_bps next.collateral_haircut_bps
    && cap_is_tighter current.supply_cap next.supply_cap
    && cap_is_tighter current.borrow_cap next.borrow_cap
    && cap_is_tighter current.per_wallet_supply_cap next.per_wallet_supply_cap
    && not (next.borrow_enabled && not current.borrow_enabled)
    && not (next.collateral_enabled && not current.collateral_enabled)
    && next.liquidation_bonus_bps == current.liquidation_bonus_bps
    && next.close_factor_bps == current.close_factor_bps
    && next.optimal_utilization_bps == current.optimal_utilization_bps
    && next.min_borrow_rate_bps == current.min_borrow_rate_bps
    && next.optimal_borrow_rate_bps == current.optimal_borrow_rate_bps
    && next.max_borrow_rate_bps == current.max_borrow_rate_bps
    && next.reserve_factor_bps == current.reserve_factor_bps
    && leb next.origination_fee_bps current.origination_fee_bps
    && same next.isolated current.isolated
    && next.slots_per_year == current.slots_per_year
