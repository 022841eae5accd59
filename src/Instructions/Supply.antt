-- ===== src/Instructions/Supply.antt =====
-- programs/aera/src/instructions/supply.rs
use aera_v.Common.{
  ℕ, Outcome, ok, AeraError, ◌>>=◌, ◌>>◌, require, checked_add, u64_bound, ltb, Pubkey, Clock,
}
use aera_v.Math.{down}
use aera_v.Global.{Global, require_not_paused}
use aera_v.Reserve.{Reserve, require_accrued, liquidity_to_shares}
use aera_v.Obligation.{SupplyPosition}
use aera_v.Risk.{check_supply_cap, check_per_wallet_cap}
use aera_v.Tokens.{TokenProgram}
use aera_v.Instructions.Constraints.{has_one}

-- The accounts of `Supply`; a token account or mint is its key.
pub record Supply : Type 0 where
  pub global : Global
  pub reserve_key : Pubkey
  pub reserve : Reserve
  pub liquidity_mint : Pubkey
  pub liquidity_vault : Pubkey
  pub share_mint : Pubkey
  pub user_liquidity : Pubkey
  pub user_share : Pubkey
  pub supply_position : SupplyPosition
  pub owner : Pubkey

unfoldable pub supply_constraints : Supply → Outcome (Unit {0})
supply_constraints c = do
  has_one c.reserve.liquidity_mint c.liquidity_mint
  has_one c.reserve.liquidity_vault c.liquidity_vault
  has_one c.reserve.share_mint c.share_mint

-- The handler up to its token calls: the accounts it leaves, and the shares to mint.
unfoldable pub supply_effects : Clock → Supply → ℕ → Outcome (Supply × ℕ)
supply_effects clock c liquidity_amount = do
  require (ltb 0 liquidity_amount) AeraError.zero_amount
  require_not_paused c.global
  require_accrued c.reserve clock
  check_supply_cap c.reserve liquidity_amount
  check_per_wallet_cap c.reserve c.supply_position.supplied_liquidity liquidity_amount
  share_amount ← liquidity_to_shares c.reserve liquidity_amount down
  require (ltb 0 share_amount) AeraError.deposit_too_small
  available ← checked_add u64_bound c.reserve.available_liquidity liquidity_amount
  shares ← checked_add u64_bound c.reserve.share_mint_supply share_amount
  supplied ← checked_add u64_bound c.supply_position.supplied_liquidity liquidity_amount
  let reserve = record (c.reserve) { available_liquidity = available; share_mint_supply = shares }
  let position : SupplyPosition = record {
    reserve = c.reserve_key;
    owner = c.owner;
    supplied_liquidity = supplied;
  }
  ok (record c { reserve = reserve; supply_position = position }, share_amount)

-- `handle_supply`
unfoldable pub handle_supply :
    {L : Type 0} → TokenProgram L → Clock → Supply → ℕ → L → Outcome (Supply × L)
handle_supply tokens clock c liquidity_amount l = do
  supply_constraints c
  (c', share_amount) ← supply_effects clock c liquidity_amount
  paid ←
      tokens.transfer_checked c.user_liquidity c.liquidity_mint c.liquidity_vault c.owner
        liquidity_amount c.reserve.liquidity_decimals l
  minted ← tokens.mint_to c.share_mint c.user_share c.reserve_key share_amount paid
  ok (c', minted)
