-- ===== src/Instructions/AbsorbBadDebt.antt =====
-- programs/aera/src/instructions/absorb_bad_debt.rs
use aera_v.Common.{
  ℕ, true, Outcome, ok, AeraError, ◌>>=◌, ◌>>◌, require, checked_sub, narrow, u64_bound, ltb, ◌==◌,
  Pubkey, Clock, erase_idx, sum_map,
}
use aera_v.Constants.{fixed_point_scale}
use aera_v.Math.{mul_div_ceil}
use aera_v.Reserve.{Reserve, require_accrued}
use aera_v.Obligation.{Obligation, require_refreshed, find_borrow, index}
use aera_v.Instructions.Constraints.{same_market}

-- The accounts of `AbsorbBadDebt`, the market by its key.
pub record AbsorbBadDebt : Type 0 where
  pub market : Pubkey
  pub obligation : Obligation
  pub reserve_key : Pubkey
  pub reserve : Reserve

unfoldable pub absorb_bad_debt_constraints : AbsorbBadDebt → Outcome (Unit {0})
absorb_bad_debt_constraints c = do
  same_market c.obligation.market c.market
  same_market c.reserve.market c.market

-- The amounts of the event `BadDebtAbsorbed`.
pub record WriteOff : Type 0 where
  pub amount : ℕ
  pub principal_removed : ℕ

-- `handle_absorb_bad_debt`. Its `sum` over the `u64` amounts is left unbounded: past the word the
-- program aborts, and here the sum is not 0 and so an error as well.
unfoldable pub handle_absorb_bad_debt : Clock → AbsorbBadDebt → Outcome (AbsorbBadDebt × WriteOff)
handle_absorb_bad_debt clock c = do
  absorb_bad_debt_constraints c
  require_refreshed c.obligation clock
  require_accrued c.reserve clock
  let collateral = sum_map (λ d. d.deposited_shares) c.obligation.deposits
  require (collateral == 0) AeraError.obligation_has_collateral
  i ← find_borrow c.obligation c.reserve_key
  entry ← index c.obligation.borrows i
  require (ltb 0 entry.borrowed_principal) AeraError.no_bad_debt
  owed ← mul_div_ceil entry.borrowed_principal c.reserve.borrow_index fixed_point_scale
  owed_word ← narrow u64_bound owed
  principal ← checked_sub c.reserve.borrowed_principal entry.borrowed_principal
  let reserve = record (c.reserve) { borrowed_principal = principal }
  let obligation = record (c.obligation) {
    borrows = erase_idx c.obligation.borrows i;
    stale = true;
  }
  let event : WriteOff = record { amount = owed_word; principal_removed = entry.borrowed_principal }
  ok (record c { reserve = reserve; obligation = obligation }, event)
