-- ===== src/Reserve/Types.antt =====
-- The accounts of programs/aera/src/state/reserve.rs, field by field.
use aera_v.Common.{ℕ, Bool, false, Pubkey}
use aera_v.Common.Int.{ℤ, pos}

pub record ReserveConfig : Type 0 where
  pub loan_to_value_bps : ℕ
  pub liquidation_threshold_bps : ℕ
  pub liquidation_bonus_bps : ℕ
  pub close_factor_bps : ℕ
  pub collateral_haircut_bps : ℕ
  pub optimal_utilization_bps : ℕ
  pub min_borrow_rate_bps : ℕ
  pub optimal_borrow_rate_bps : ℕ
  pub max_borrow_rate_bps : ℕ
  pub reserve_factor_bps : ℕ
  pub origination_fee_bps : ℕ
  pub supply_cap : ℕ
  pub borrow_cap : ℕ
  pub per_wallet_supply_cap : ℕ
  pub borrow_enabled : Bool
  pub collateral_enabled : Bool
  pub isolated : Bool
  pub slots_per_year : ℕ

-- `ReserveConfig::default()`
abbrev pub default_config : ReserveConfig
default_config = record {
  loan_to_value_bps = 0;
  liquidation_threshold_bps = 0;
  liquidation_bonus_bps = 0;
  close_factor_bps = 0;
  collateral_haircut_bps = 0;
  optimal_utilization_bps = 0;
  min_borrow_rate_bps = 0;
  optimal_borrow_rate_bps = 0;
  max_borrow_rate_bps = 0;
  reserve_factor_bps = 0;
  origination_fee_bps = 0;
  supply_cap = 0;
  borrow_cap = 0;
  per_wallet_supply_cap = 0;
  borrow_enabled = false;
  collateral_enabled = false;
  isolated = false;
  slots_per_year = 0;
}

-- A queued change; `eta` 0 means that nothing is queued.
pub record PendingConfig : Type 0 where
  pub config : ReserveConfig
  pub eta : ℤ

-- `PendingConfig::default()`
abbrev pub default_pending : PendingConfig
default_pending = record { config = default_config; eta = pos 0 }

pub record Reserve : Type 0 where
  pub market : Pubkey
  pub liquidity_mint : Pubkey
  pub liquidity_vault : Pubkey
  pub share_mint : Pubkey
  pub oracle : Pubkey
  pub liquidity_decimals : ℕ
  pub available_liquidity : ℕ
  pub share_mint_supply : ℕ
  pub borrowed_principal : ℕ
  pub borrow_index : ℕ
  pub last_update_slot : ℕ
  pub accrued_fees : ℕ
  pub config : ReserveConfig
  pub pending : PendingConfig
