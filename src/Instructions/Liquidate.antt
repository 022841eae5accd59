-- ===== src/Instructions/Liquidate.antt =====
-- programs/aera/src/instructions/liquidate.rs
use aera_v.Common.{
  ℕ, min, Outcome, ok, err, AeraError, ◌>>=◌, ◌>>◌, require, checked_add, checked_sub, u64_bound,
  ltb, leb, ◌==◌, if◌then◌else◌, Pubkey, Clock,
}
use aera_v.Constants.{fixed_point_scale}
use aera_v.Math.{market_value, mul_div_floor, down}
use aera_v.Global.{Global}
use aera_v.Reserve.{Reserve, require_accrued}
use aera_v.Obligation.{
  Obligation, require_refreshed, is_liquidatable, find_borrow, find_collateral, index,
}
use aera_v.Oracle.Health.{RiskAction}
use aera_v.Oracle.State.{OracleState, require_fresh, require_permits, effective_rate}
use aera_v.Risk.{max_repay_amount, seize_shares_for, split_seized_shares}
use aera_v.Tokens.{TokenProgram}
use aera_v.Instructions.Constraints.{address, same_market}
use aera_v.Instructions.RiskAccount.{Program, RiskConfigInfo, read_risk_config, share_of}
use aera_v.Instructions.Repay.{reduce_borrow}
use aera_v.Instructions.Collateral.{reduce_collateral}

-- A token account passed unchecked: the program that owns it, and its mint and owner if its data
-- decode.
pub record TokenAccount : Type 0 where
  pub mint : Pubkey
  pub owner : Pubkey

pub record TokenInfo : Type 0 where
  pub key : Pubkey
  pub program : Pubkey
  pub decoded : Outcome TokenAccount

-- The accounts of `Liquidate`.
pub record Liquidate : Type 0 where
  pub global : Global
  pub obligation_key : Pubkey
  pub obligation : Obligation
  pub liquidator : Pubkey
  pub repay_reserve_key : Pubkey
  pub repay_reserve : Reserve
  pub collateral_reserve_key : Pubkey
  pub collateral_reserve : Reserve
  pub repay_oracle_key : Pubkey
  pub repay_oracle : OracleState
  pub collateral_oracle_key : Pubkey
  pub collateral_oracle : OracleState
  pub repay_liquidity_mint : Pubkey
  pub collateral_share_mint : Pubkey
  pub collateral_share_decimals : ℕ
  pub repay_liquidity_vault : Pubkey
  pub obligation_collateral_vault : Pubkey
  pub liquidator_repay_source : Pubkey
  pub liquidator_collateral_dest : Pubkey
  pub collateral_risk_config : RiskConfigInfo
  pub protocol_collateral_dest : TokenInfo
  pub share_token_program : Pubkey

unfoldable pub liquidate_constraints : Liquidate → Outcome (Unit {0})
liquidate_constraints c = do
  same_market c.repay_reserve.market c.obligation.market
  same_market c.collateral_reserve.market c.obligation.market
  address c.repay_reserve.oracle c.repay_oracle_key
  address c.collateral_reserve.oracle c.collateral_oracle_key
  address c.repay_reserve.liquidity_mint c.repay_liquidity_mint
  address c.collateral_reserve.share_mint c.collateral_share_mint
  address c.repay_reserve.liquidity_vault c.repay_liquidity_vault

-- What the liquidation moves; the `Liquidated` event reports these amounts.
pub record Seizure : Type 0 where
  pub repaid : ℕ
  pub seized_shares : ℕ
  pub liquidator_shares : ℕ
  pub protocol_shares : ℕ

-- The checks and the amounts, before anything is written.
unfoldable pub assess_liquidation : Program → Clock → Liquidate → ℕ → Outcome Seizure
assess_liquidation program clock c liquidity_amount = do
  require (ltb 0 liquidity_amount) AeraError.zero_amount
  require_refreshed c.obligation clock
  require_accrued c.repay_reserve clock
  require_accrued c.collateral_reserve clock
  require (is_liquidatable c.obligation) AeraError.obligation_healthy
  require_fresh c.repay_oracle clock.slot
  require_fresh c.collateral_oracle clock.slot
  require_permits c.repay_oracle RiskAction.liquidate
  require_permits c.collateral_oracle RiskAction.liquidate
  repay_price ← effective_rate c.repay_oracle
  collateral_price ← effective_rate c.collateral_oracle
  i ← find_borrow c.obligation c.repay_reserve_key
  j ← find_collateral c.obligation c.collateral_reserve_key
  deposit ← index c.obligation.deposits j
  max_repay ← max_repay_amount c.obligation i c.repay_reserve
  let repay = min liquidity_amount max_repay
  require (ltb 0 repay) AeraError.zero_amount
  repay_value ← market_value repay c.repay_reserve.liquidity_decimals repay_price down
  seize_shares ← seize_shares_for repay_value c.collateral_reserve collateral_price
  require (ltb 0 seize_shares) AeraError.zero_amount
  require (leb seize_shares deposit.deposited_shares) AeraError.liquidation_too_large
  config ← read_risk_config program c.collateral_risk_config c.collateral_reserve_key
  (protocol, liquidator) ←
      split_seized_shares seize_shares c.collateral_reserve.config.liquidation_bonus_bps
        (share_of config)
  ok (record {
    repaid = repay;
    seized_shares = seize_shares;
    liquidator_shares = liquidator;
    protocol_shares = protocol;
  })

-- The writes.
unfoldable pub apply_liquidation : Liquidate → Seizure → Outcome Liquidate
apply_liquidation c s = do
  i ← find_borrow c.obligation c.repay_reserve_key
  j ← find_collateral c.obligation c.collateral_reserve_key
  entry ← index c.obligation.borrows i
  scaled ← mul_div_floor s.repaid fixed_point_scale c.repay_reserve.borrow_index
  let scaled_removed = min scaled entry.borrowed_principal
  principal ← checked_sub c.repay_reserve.borrowed_principal scaled_removed
  available ← checked_add u64_bound c.repay_reserve.available_liquidity s.repaid
  lighter ← reduce_borrow c.obligation i scaled_removed
  obligation ← reduce_collateral lighter j s.seized_shares
  let reserve = record (c.repay_reserve) {
    borrowed_principal = principal;
    available_liquidity = available;
  }
  ok (record c { repay_reserve = reserve; obligation = obligation })

-- The handler up to its token calls.
unfoldable pub liquidate_effects : Program → Clock → Liquidate → ℕ → Outcome (Liquidate × Seizure)
liquidate_effects program clock c liquidity_amount = do
  s ← assess_liquidation program clock c liquidity_amount
  c' ← apply_liquidation c s
  ok (c', s)

-- The protocol's leg: nothing at all at zero, and else a transfer to a pinned destination.
unfoldable pub pay_protocol : {L : Type 0} → TokenProgram L → Liquidate → ℕ → L → Outcome L
pay_protocol tokens c protocol_shares l =
    if ltb 0 protocol_shares
    then (do
      let dest = c.protocol_collateral_dest
      require (dest.program == c.share_token_program) AeraError.wrong_fee_destination
      token ← (elim (dest.decoded) [ ok t ↦ ok t | err _ ↦ err AeraError.wrong_fee_destination ])
      require (token.mint == c.collateral_share_mint) AeraError.wrong_fee_destination
      require (token.owner == c.global.fee_destination) AeraError.wrong_fee_destination
      tokens.transfer_checked c.obligation_collateral_vault c.collateral_share_mint dest.key
          c.obligation_key protocol_shares c.collateral_share_decimals l)
    else ok l

-- `handle_liquidate`
unfoldable pub handle_liquidate :
    {L : Type 0}
    → TokenProgram L
    → Program
    → Clock
    → Liquidate
    → ℕ
    → L
    → Outcome (Liquidate × Seizure × L)
handle_liquidate tokens program clock c liquidity_amount l = do
  liquidate_constraints c
  (c', s) ← liquidate_effects program clock c liquidity_amount
  repaid ←
      tokens.transfer_checked c.liquidator_repay_source c.repay_liquidity_mint
        c.repay_liquidity_vault c.liquidator s.repaid c.repay_reserve.liquidity_decimals l
  seized ←
      tokens.transfer_checked c.obligation_collateral_vault c.collateral_share_mint
        c.liquidator_collateral_dest c.obligation_key s.liquidator_shares
        c.collateral_share_decimals repaid
  paid ← pay_protocol tokens c s.protocol_shares seized
  ok (c', s, paid)
