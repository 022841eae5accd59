-- ===== src/Instructions/Collateral.antt =====
-- programs/aera/src/instructions/init_obligation.rs, deposit_collateral.rs and
-- withdraw_collateral.rs
use aera_v.Common.{
  ℕ, ◌-◌, true, false, Outcome, ok, AeraError, ◌>>=◌, ◌>>◌, require, checked_add, checked_sub,
  u64_bound, ltb, leb, ◌==◌, if◌then◌else◌, [], Pubkey, Clock, set, erase_idx,
}
use aera_v.Constants.{bps_denominator}
use aera_v.Math.{market_value, mul_div_ceil, up}
use aera_v.Global.{Global, require_not_paused}
use aera_v.Reserve.{Reserve, require_accrued, shares_to_liquidity}
use aera_v.Obligation.{Obligation, require_refreshed, upsert_collateral, find_collateral, index}
use aera_v.Oracle.Health.{RiskAction}
use aera_v.Oracle.State.{OracleState, require_fresh, require_permits, effective_rate}
use aera_v.Risk.{check_collateral_enabled, check_isolation, require_within_borrow_limit}
use aera_v.Tokens.{TokenProgram}
use aera_v.Instructions.Constraints.{has_one, same_market}

-- `handle_init_obligation`, over the keys of the market and the owner
unfoldable pub handle_init_obligation : Clock → Pubkey → Pubkey → Obligation
handle_init_obligation clock market owner = record {
  market = market;
  owner = owner;
  last_update_slot = clock.slot;
  stale = true;
  prices_stressed = false;
  deposited_value = 0;
  effective_collateral_value = 0;
  borrowed_value = 0;
  allowed_borrow_value = 0;
  unhealthy_borrow_value = 0;
  deposits = [];
  borrows = [];
}

-- The accounts of `DepositCollateral`; `share_decimals` is a field of the share mint.
pub record DepositCollateral : Type 0 where
  pub global : Global
  pub obligation : Obligation
  pub owner : Pubkey
  pub reserve_key : Pubkey
  pub reserve : Reserve
  pub share_mint : Pubkey
  pub share_decimals : ℕ
  pub obligation_share_vault : Pubkey
  pub user_share : Pubkey

unfoldable pub deposit_collateral_constraints : DepositCollateral → Outcome (Unit {0})
deposit_collateral_constraints c = do
  has_one c.obligation.owner c.owner
  has_one c.reserve.share_mint c.share_mint
  same_market c.reserve.market c.obligation.market

unfoldable pub deposit_collateral_effects : DepositCollateral → ℕ → Outcome DepositCollateral
deposit_collateral_effects c share_amount = do
  require (ltb 0 share_amount) AeraError.zero_amount
  require_not_paused c.global
  check_collateral_enabled c.reserve
  check_isolation c.obligation c.reserve c.reserve_key
  (opened, i) ← upsert_collateral c.obligation c.reserve_key
  entry ← index opened.deposits i
  shares ← checked_add u64_bound entry.deposited_shares share_amount
  let deposits = set opened.deposits i (record entry { deposited_shares = shares })
  ok (record c { obligation = record opened { deposits = deposits; stale = true } })

-- `handle_deposit_collateral`
unfoldable pub handle_deposit_collateral :
    {L : Type 0} → TokenProgram L → DepositCollateral → ℕ → L → Outcome (DepositCollateral × L)
handle_deposit_collateral tokens c share_amount l = do
  deposit_collateral_constraints c
  c' ← deposit_collateral_effects c share_amount
  moved ←
      tokens.transfer_checked c.user_share c.share_mint c.obligation_share_vault c.owner
        share_amount c.share_decimals l
  ok (c', moved)

-- The accounts of `WithdrawCollateral`.
pub record WithdrawCollateral : Type 0 where
  pub global : Global
  pub obligation_key : Pubkey
  pub obligation : Obligation
  pub owner : Pubkey
  pub reserve_key : Pubkey
  pub reserve : Reserve
  pub oracle_key : Pubkey
  pub oracle : OracleState
  pub share_mint : Pubkey
  pub share_decimals : ℕ
  pub obligation_share_vault : Pubkey
  pub user_share : Pubkey

unfoldable pub withdraw_collateral_constraints : WithdrawCollateral → Outcome (Unit {0})
withdraw_collateral_constraints c = do
  has_one c.obligation.owner c.owner
  has_one c.reserve.share_mint c.share_mint
  has_one c.reserve.oracle c.oracle_key
  same_market c.reserve.market c.obligation.market

-- The borrow power that leaves with `share_amount`, every step rounded up.
unfoldable pub removed_borrow_power : Reserve → ℕ → ℕ → Outcome ℕ
removed_borrow_power r price_scaled removed_liquidity = do
  removed_face ← market_value removed_liquidity r.liquidity_decimals price_scaled up
  keep ← checked_sub bps_denominator r.config.collateral_haircut_bps
  removed_effective ← mul_div_ceil removed_face keep bps_denominator
  mul_div_ceil removed_effective r.config.loan_to_value_bps bps_denominator

-- Take shares off entry `i` of an obligation, and the entry with it when none is left. Both
-- `withdraw_collateral` and `liquidate` do this.
unfoldable pub reduce_collateral : Obligation → ℕ → ℕ → Outcome Obligation
reduce_collateral o i share_amount = do
  entry ← index o.deposits i
  left ← checked_sub entry.deposited_shares share_amount
  let deposits = set o.deposits i (record entry { deposited_shares = left })
  ok (record o { deposits = if left == 0 then erase_idx deposits i else deposits; stale = true })

unfoldable pub withdraw_collateral_effects :
    Clock → WithdrawCollateral → ℕ → Outcome WithdrawCollateral
withdraw_collateral_effects clock c share_amount = do
  require (ltb 0 share_amount) AeraError.zero_amount
  require_not_paused c.global
  require_refreshed c.obligation clock
  require_accrued c.reserve clock
  require_fresh c.oracle clock.slot
  require_permits c.oracle RiskAction.withdraw_collateral
  price_scaled ← effective_rate c.oracle
  removed_liquidity ← shares_to_liquidity c.reserve share_amount up
  i ← find_collateral c.obligation c.reserve_key
  entry ← index c.obligation.deposits i
  require (leb share_amount entry.deposited_shares) AeraError.withdraw_too_large
  removed_allowed ← removed_borrow_power c.reserve price_scaled removed_liquidity
  let new_allowed = c.obligation.allowed_borrow_value - removed_allowed
  require_within_borrow_limit c.obligation.borrowed_value new_allowed AeraError.withdraw_too_large
  obligation ← reduce_collateral c.obligation i share_amount
  ok (record c { obligation = obligation })

-- `handle_withdraw_collateral`
unfoldable pub handle_withdraw_collateral :
    {L : Type 0}
    → TokenProgram L
    → Clock
    → WithdrawCollateral
    → ℕ
    → L
    → Outcome (WithdrawCollateral × L)
handle_withdraw_collateral tokens clock c share_amount l = do
  withdraw_collateral_constraints c
  c' ← withdraw_collateral_effects clock c share_amount
  moved ←
      tokens.transfer_checked c.obligation_share_vault c.share_mint c.user_share c.obligation_key
        share_amount c.share_decimals l
  ok (c', moved)
