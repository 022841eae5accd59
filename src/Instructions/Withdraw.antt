-- ===== src/Instructions/Withdraw.antt =====
-- programs/aera/src/instructions/withdraw.rs
use aera_v.Common.{
  ℕ, ◌-◌, Outcome, ok, AeraError, ◌>>=◌, ◌>>◌, require, checked_sub, ltb, leb, Pubkey, Clock,
}
use aera_v.Math.{down}
use aera_v.Global.{Global, require_not_paused}
use aera_v.Reserve.{Reserve, require_accrued, shares_to_liquidity}
use aera_v.Obligation.{SupplyPosition}
use aera_v.Tokens.{TokenProgram}
use aera_v.Instructions.Constraints.{has_one}

-- The accounts of `Withdraw`.
pub record Withdraw : Type 0 where
  pub global : Global
  pub reserve_key : Pubkey
  pub reserve : Reserve
  pub liquidity_mint : Pubkey
  pub liquidity_vault : Pubkey
  pub share_mint : Pubkey
  pub user_liquidity : Pubkey
  pub user_share : Pubkey
  pub supply_position : SupplyPosition
  pub owner : Pubkey

unfoldable pub withdraw_constraints : Withdraw → Outcome (Unit {0})
withdraw_constraints c = do
  has_one c.reserve.liquidity_mint c.liquidity_mint
  has_one c.reserve.liquidity_vault c.liquidity_vault
  has_one c.reserve.share_mint c.share_mint

-- The handler up to its token calls: the accounts it leaves, and the liquidity to pay out.
unfoldable pub withdraw_effects : Clock → Withdraw → ℕ → Outcome (Withdraw × ℕ)
withdraw_effects clock c share_amount = do
  require (ltb 0 share_amount) AeraError.zero_amount
  require_not_paused c.global
  require_accrued c.reserve clock
  require (ltb 0 c.reserve.share_mint_supply) AeraError.insufficient_reserve_liquidity
  liquidity_amount ← shares_to_liquidity c.reserve share_amount down
  require (leb liquidity_amount c.reserve.available_liquidity)
      AeraError.insufficient_reserve_liquidity
  available ← checked_sub c.reserve.available_liquidity liquidity_amount
  shares ← checked_sub c.reserve.share_mint_supply share_amount
  let reserve = record (c.reserve) { available_liquidity = available; share_mint_supply = shares }
  let position = record (c.supply_position) {
    supplied_liquidity = c.supply_position.supplied_liquidity - liquidity_amount;
  }
  ok (record c { reserve = reserve; supply_position = position }, liquidity_amount)

-- `handle_withdraw`
unfoldable pub handle_withdraw :
    {L : Type 0} → TokenProgram L → Clock → Withdraw → ℕ → L → Outcome (Withdraw × L)
handle_withdraw tokens clock c share_amount l = do
  withdraw_constraints c
  (c', liquidity_amount) ← withdraw_effects clock c share_amount
  burned ← tokens.burn c.share_mint c.user_share c.owner share_amount l
  paid ←
      tokens.transfer_checked c.liquidity_vault c.liquidity_mint c.user_liquidity c.reserve_key
        liquidity_amount c.reserve.liquidity_decimals burned
  ok (c', paid)
