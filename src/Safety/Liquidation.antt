-- ===== src/Safety/Liquidation.antt =====
-- When `handle_liquidate` goes through, and how much it may take.
use aera_v.Common.{ℕ, ◌+◌, ◌*◌, ◌<◌, ◌≤◌, ◌≡◌, false, Clock, ok, some, get_elem?}
use aera_v.Constants.{bps_denominator}
use aera_v.Reserve.{Reserve}
use aera_v.Obligation.{Obligation, ObligationCollateral, debt_at}
use aera_v.Risk.{effective_close_factor_bps}
use aera_v.Instructions.Liquidate.{Liquidate, Seizure}

-- The terms that a liquidation meets that repays and seizes as `s` says.
pub record IsJustified (clock : Clock) (c : Liquidate) (amount : ℕ) (s : Seizure) : Type 0 where
  pub unhealthy : c.obligation.unhealthy_borrow_value < c.obligation.borrowed_value
  pub obligation_fresh : (c.obligation.stale ≡ false) × (c.obligation.last_update_slot ≡ clock.slot)
  pub reserves_fresh :
      (c.repay_reserve.last_update_slot ≡ clock.slot)
      × (c.collateral_reserve.last_update_slot ≡ clock.slot)
  pub oracles_fresh :
      (c.repay_oracle.last_refresh_slot ≡ clock.slot)
      × (c.collateral_oracle.last_refresh_slot ≡ clock.slot)
  pub repays : (0 < s.repaid) × (s.repaid ≤ amount)
  pub entry : ℕ
  pub debt : ℕ
  pub owed : debt_at c.obligation entry c.repay_reserve.borrow_index ≡ ok debt
  pub close_factor : ℕ
  pub closes : effective_close_factor_bps c.obligation c.repay_reserve ≡ ok close_factor
  pub within_close_factor : s.repaid * bps_denominator ≤ debt * close_factor
  pub deposit : ℕ
  pub collateral : ObligationCollateral
  pub deposited : get_elem? c.obligation.deposits deposit ≡ some collateral
  pub seizes : (0 < s.seized_shares) × (s.seized_shares ≤ collateral.deposited_shares)
  pub parts : s.protocol_shares + s.liquidator_shares ≡ s.seized_shares
  pub protocol_part :
      s.protocol_shares * (bps_denominator + c.collateral_reserve.config.liquidation_bonus_bps)
      ≤ s.seized_shares * c.collateral_reserve.config.liquidation_bonus_bps
