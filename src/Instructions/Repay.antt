-- ===== src/Instructions/Repay.antt =====
-- programs/aera/src/instructions/repay.rs
use aera_v.Common.{
  ℕ, min, true, Outcome, ok, AeraError, ◌>>=◌, ◌>>◌, require, checked_add, checked_sub, u64_bound,
  ltb, ◌==◌, if◌then◌else◌, Pubkey, Clock, set, erase_idx,
}
use aera_v.Constants.{fixed_point_scale}
use aera_v.Math.{mul_div_floor}
use aera_v.Reserve.{Reserve, require_accrued}
use aera_v.Obligation.{Obligation, find_borrow, index, debt_at}
use aera_v.Tokens.{TokenProgram}
use aera_v.Instructions.Constraints.{has_one, same_market}

-- The accounts of `Repay`.
pub record Repay : Type 0 where
  pub obligation : Obligation
  pub reserve_key : Pubkey
  pub reserve : Reserve
  pub liquidity_mint : Pubkey
  pub liquidity_vault : Pubkey
  pub user_liquidity : Pubkey
  pub repayer : Pubkey

unfoldable pub repay_constraints : Repay → Outcome (Unit {0})
repay_constraints c = do
  has_one c.reserve.liquidity_mint c.liquidity_mint
  has_one c.reserve.liquidity_vault c.liquidity_vault
  same_market c.reserve.market c.obligation.market

-- Take principal off entry `i` of an obligation, and the entry with it when none is left. Both
-- `repay` and `liquidate` do this.
unfoldable pub reduce_borrow : Obligation → ℕ → ℕ → Outcome Obligation
reduce_borrow o i scaled_removed = do
  entry ← index o.borrows i
  left ← checked_sub entry.borrowed_principal scaled_removed
  let borrows = set o.borrows i (record entry { borrowed_principal = left })
  ok (record o { borrows = if left == 0 then erase_idx borrows i else borrows; stale = true })

-- The handler up to its token call: the accounts it leaves, and the repayment.
unfoldable pub repay_effects : Clock → Repay → ℕ → Outcome (Repay × ℕ)
repay_effects clock c liquidity_amount = do
  require (ltb 0 liquidity_amount) AeraError.zero_amount
  require_accrued c.reserve clock
  i ← find_borrow c.obligation c.reserve_key
  entry ← index c.obligation.borrows i
  debt_now ← debt_at c.obligation i c.reserve.borrow_index
  let repay = min liquidity_amount debt_now
  require (ltb 0 repay) AeraError.zero_amount
  scaled ← mul_div_floor repay fixed_point_scale c.reserve.borrow_index
  let scaled_removed = min scaled entry.borrowed_principal
  principal ← checked_sub c.reserve.borrowed_principal scaled_removed
  available ← checked_add u64_bound c.reserve.available_liquidity repay
  obligation ← reduce_borrow c.obligation i scaled_removed
  let reserve = record (c.reserve) {
    borrowed_principal = principal;
    available_liquidity = available;
  }
  ok (record c { reserve = reserve; obligation = obligation }, repay)

-- `handle_repay`
unfoldable pub handle_repay :
    {L : Type 0} → TokenProgram L → Clock → Repay → ℕ → L → Outcome (Repay × L)
handle_repay tokens clock c liquidity_amount l = do
  repay_constraints c
  (c', repay) ← repay_effects clock c liquidity_amount
  paid ←
      tokens.transfer_checked c.user_liquidity c.liquidity_mint c.liquidity_vault c.repayer repay
        c.reserve.liquidity_decimals l
  ok (c', paid)
