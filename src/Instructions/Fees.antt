-- ===== src/Instructions/Fees.antt =====
-- programs/aera/src/instructions/accrue.rs and instructions/admin/collect_fees.rs
use aera_v.Common.{
  ℕ, min, Outcome, ok, AeraError, ◌>>=◌, ◌>>◌, require, checked_sub, ltb, ◌==◌, Pubkey, Clock,
}
use aera_v.Global.{Global}
use aera_v.Reserve.{Reserve, require_accrued, accrue_interest}
use aera_v.Tokens.{TokenProgram}
use aera_v.Instructions.Constraints.{has_one}

-- `handle_accrue`
unfoldable pub handle_accrue : Clock → Reserve → Outcome Reserve
handle_accrue clock r = accrue_interest r clock.slot

-- The accounts of `CollectFees`; of `fee_token` the owner and the mint are read too.
pub record CollectFees : Type 0 where
  pub global : Global
  pub reserve_key : Pubkey
  pub reserve : Reserve
  pub liquidity_mint : Pubkey
  pub liquidity_vault : Pubkey
  pub fee_token : Pubkey
  pub fee_token_owner : Pubkey
  pub fee_token_mint : Pubkey

unfoldable pub collect_fees_constraints : CollectFees → Outcome (Unit {0})
collect_fees_constraints c = do
  has_one c.reserve.liquidity_mint c.liquidity_mint
  has_one c.reserve.liquidity_vault c.liquidity_vault
  require (c.fee_token_owner == c.global.fee_destination) AeraError.wrong_fee_destination
  require (c.fee_token_mint == c.reserve.liquidity_mint) AeraError.wrong_fee_destination

-- The handler up to its token call: the accounts it leaves, and the amount to pay.
unfoldable pub collect_fees_effects : Clock → CollectFees → Outcome (CollectFees × ℕ)
collect_fees_effects clock c = do
  require_accrued c.reserve clock
  let payable = min c.reserve.accrued_fees c.reserve.available_liquidity
  require (ltb 0 payable) AeraError.nothing_to_collect
  fees ← checked_sub c.reserve.accrued_fees payable
  available ← checked_sub c.reserve.available_liquidity payable
  let reserve = record (c.reserve) { accrued_fees = fees; available_liquidity = available }
  ok (record c { reserve = reserve }, payable)

-- `handle_collect_fees`
unfoldable pub handle_collect_fees :
    {L : Type 0} → TokenProgram L → Clock → CollectFees → L → Outcome (CollectFees × L)
handle_collect_fees tokens clock c l = do
  collect_fees_constraints c
  (c', amount) ← collect_fees_effects clock c
  paid ←
      tokens.transfer_checked c.liquidity_vault c.liquidity_mint c.fee_token c.reserve_key amount
        c.reserve.liquidity_decimals l
  ok (c', paid)
