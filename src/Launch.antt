-- ===== src/Launch.antt =====
-- programs/aera/src/launch.rs: the configurations that the reserves launch with, and the defaults of
-- constants.rs that they are made of.
use aera_v.Common.{ℕ, true, false}
use aera_v.Reserve.{ReserveConfig}

abbrev default_ltv_bps : ℕ
default_ltv_bps = 5_500

abbrev default_liquidation_threshold_bps : ℕ
default_liquidation_threshold_bps = 6_500

abbrev default_liquidation_bonus_bps : ℕ
default_liquidation_bonus_bps = 800

abbrev default_close_factor_bps : ℕ
default_close_factor_bps = 5_000

abbrev default_collateral_haircut_bps : ℕ
default_collateral_haircut_bps = 500

abbrev default_optimal_utilization_bps : ℕ
default_optimal_utilization_bps = 6_000

abbrev default_min_borrow_rate_bps : ℕ
default_min_borrow_rate_bps = 200

abbrev default_optimal_borrow_rate_bps : ℕ
default_optimal_borrow_rate_bps = 1_000

abbrev default_max_borrow_rate_bps : ℕ
default_max_borrow_rate_bps = 9_000

abbrev default_reserve_factor_bps : ℕ
default_reserve_factor_bps = 1_500

abbrev default_origination_fee_bps : ℕ
default_origination_fee_bps = 15

abbrev default_supply_cap : ℕ
default_supply_cap = 1_000_000_000_000_000

abbrev default_borrow_cap : ℕ
default_borrow_cap = 600_000_000_000_000

abbrev default_per_wallet_supply_cap : ℕ
default_per_wallet_supply_cap = 250_000_000_000_000

abbrev default_slots_per_year : ℕ
default_slots_per_year = 69_313_098

-- `shared`
abbrev shared : ReserveConfig
shared = record {
  loan_to_value_bps = 0;
  liquidation_threshold_bps = 0;
  liquidation_bonus_bps = default_liquidation_bonus_bps;
  close_factor_bps = default_close_factor_bps;
  collateral_haircut_bps = 0;
  optimal_utilization_bps = default_optimal_utilization_bps;
  min_borrow_rate_bps = default_min_borrow_rate_bps;
  optimal_borrow_rate_bps = default_optimal_borrow_rate_bps;
  max_borrow_rate_bps = default_max_borrow_rate_bps;
  reserve_factor_bps = default_reserve_factor_bps;
  origination_fee_bps = default_origination_fee_bps;
  supply_cap = 0;
  borrow_cap = 0;
  per_wallet_supply_cap = 0;
  borrow_enabled = false;
  collateral_enabled = false;
  isolated = false;
  slots_per_year = default_slots_per_year;
}

abbrev pub cook_reserve_config : ReserveConfig
cook_reserve_config = record shared {
  supply_cap = default_supply_cap;
  borrow_cap = default_borrow_cap;
  per_wallet_supply_cap = default_per_wallet_supply_cap;
  borrow_enabled = true;
}

abbrev pub bcook_reserve_config : ReserveConfig
bcook_reserve_config = record shared {
  loan_to_value_bps = default_ltv_bps;
  liquidation_threshold_bps = default_liquidation_threshold_bps;
  collateral_haircut_bps = default_collateral_haircut_bps;
  collateral_enabled = true;
}
