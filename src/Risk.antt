-- ===== src/Risk.antt =====
-- programs/aera/src/risk.rs: every rule that can refuse a user action; with the account of
-- state/risk_config.rs.
pub mod Split
use aera_v.Common.{
  ℕ, ◌+◌, ◌*◌, min, Bool, true, false, not, ◌&&◌, Option, none, some, Outcome, ok, err, AeraError,
  ◌>>=◌, ◌>>◌, require, checked_add, checked_sub, narrow, u64_bound, u128_bound, ltb, leb, ◌==◌,
  if◌then◌else◌, Pubkey, any,
}
use aera_v.Common.Int.{ℤ}
use aera_v.Constants.{bps_denominator, full_close_health_factor_bps}
use aera_v.Math.{mul_div_floor, value_to_amount, down}
use aera_v.Reserve.{Reserve, gross_liquidity, current_borrowed_amount, liquidity_to_shares}
use aera_v.Obligation.{Obligation, health_factor_bps, debt_at}

-- `RiskConfig` of state/risk_config.rs
pub record RiskConfig : Type 0 where
  pub reserve : Pubkey
  pub per_wallet_borrow_cap : ℕ
  pub protocol_liquidation_share_bps : ℕ
  pub pending_per_wallet_borrow_cap : ℕ
  pub pending_protocol_liquidation_share_bps : ℕ
  pub pending_eta : ℤ

unfoldable pub apply_haircut : ℕ → ℕ → Outcome ℕ
apply_haircut value haircut_bps = do
  keep ← checked_sub bps_denominator haircut_bps
  mul_div_floor value keep bps_denominator

unfoldable pub check_supply_cap : Reserve → ℕ → Outcome (Unit {0})
check_supply_cap r adding = if r.config.supply_cap == 0 then ok tt else do
  gross ← gross_liquidity r
  after ← checked_add u128_bound gross adding
  require (leb after r.config.supply_cap) AeraError.supply_cap_exceeded

unfoldable pub check_per_wallet_borrow_cap : ℕ → ℕ → ℕ → Outcome (Unit {0})
check_per_wallet_borrow_cap cap already_owed adding = if cap == 0 then ok tt else do
  after ← checked_add u128_bound already_owed adding
  require (leb after cap) AeraError.per_wallet_borrow_cap_exceeded

unfoldable pub check_borrow_cap : Reserve → ℕ → Outcome (Unit {0})
check_borrow_cap r adding = if r.config.borrow_cap == 0 then ok tt else do
  borrowed ← current_borrowed_amount r
  after ← checked_add u128_bound borrowed adding
  require (leb after r.config.borrow_cap) AeraError.borrow_cap_exceeded

unfoldable pub check_per_wallet_cap : Reserve → ℕ → ℕ → Outcome (Unit {0})
check_per_wallet_cap r already_supplied adding =
    if r.config.per_wallet_supply_cap == 0 then ok tt else do
      after ← checked_add u64_bound already_supplied adding
      require (leb after r.config.per_wallet_supply_cap) AeraError.per_wallet_cap_exceeded

unfoldable pub check_borrow_enabled : Reserve → Outcome (Unit {0})
check_borrow_enabled r = require r.config.borrow_enabled AeraError.borrow_not_enabled

unfoldable pub check_collateral_enabled : Reserve → Outcome (Unit {0})
check_collateral_enabled r = require r.config.collateral_enabled AeraError.collateral_not_enabled

unfoldable pub check_isolation : Obligation → Reserve → Pubkey → Outcome (Unit {0})
check_isolation o incoming incoming_key =
    let others_present =
      any (λ d. not (d.reserve == incoming_key) && ltb 0 d.deposited_shares) o.deposits in
    if incoming.config.isolated && others_present
    then err AeraError.collateral_not_enabled
    else ok tt

unfoldable pub require_within_borrow_limit : ℕ → ℕ → AeraError → Outcome (Unit {0})
require_within_borrow_limit projected allowed error =
    if ltb allowed projected then err error else ok tt

-- The close factor at a health factor.
abbrev pub close_factor_at : Option ℕ → ℕ → ℕ
close_factor_at none normal = normal
close_factor_at (some hf) normal =
    if ltb hf full_close_health_factor_bps then bps_denominator else normal

unfoldable pub effective_close_factor_bps : Obligation → Reserve → Outcome ℕ
effective_close_factor_bps o repay_reserve = do
  hf ← health_factor_bps o
  ok (close_factor_at hf repay_reserve.config.close_factor_bps)

unfoldable pub max_repay_amount : Obligation → ℕ → Reserve → Outcome ℕ
max_repay_amount o i repay_reserve = do
  debt ← debt_at o i repay_reserve.borrow_index
  close_factor ← effective_close_factor_bps o repay_reserve
  capped ← mul_div_floor debt close_factor bps_denominator
  narrow u64_bound capped

-- The protocol's shares and the liquidator's.
unfoldable pub split_seized_shares : ℕ → ℕ → ℕ → Outcome (ℕ × ℕ)
split_seized_shares seize_shares total_bonus_bps protocol_share_bps =
    let share = min protocol_share_bps total_bonus_bps in
    if share == 0 then ok (0, seize_shares) else do
      denominator ← checked_add u128_bound bps_denominator total_bonus_bps
      wide ← mul_div_floor seize_shares share denominator
      protocol ← narrow u64_bound wide
      liquidator ← checked_sub seize_shares protocol
      ok (protocol, liquidator)

unfoldable pub seize_shares_for : ℕ → Reserve → ℕ → Outcome ℕ
seize_shares_for repay_value collateral_reserve collateral_price_scaled = do
  bonus ← mul_div_floor repay_value collateral_reserve.config.liquidation_bonus_bps bps_denominator
  seize_value ← checked_add u128_bound repay_value bonus
  seize_liquidity ←
      value_to_amount seize_value collateral_reserve.liquidity_decimals collateral_price_scaled down
  liquidity_to_shares collateral_reserve seize_liquidity down
