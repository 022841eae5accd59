-- ===== src/Pool/Run.antt =====
-- Sequences of handlers on one reserve.
use aera_v.Common.{ℕ, ◌<◌, ◌≡◌, Clock, ok}
use aera_v.Reserve.{Reserve, ReserveConfig, total_liquidity}
use aera_v.Tokens.{TokenProgram}
use aera_v.Instructions.RiskAccount.{Program}
use aera_v.Instructions.Supply.{Supply, handle_supply}
use aera_v.Instructions.Withdraw.{Withdraw, handle_withdraw}
use aera_v.Instructions.Borrow.{Borrow, handle_borrow}
use aera_v.Instructions.Repay.{Repay, handle_repay}
use aera_v.Instructions.Liquidate.{Liquidate, Seizure, handle_liquidate}
use aera_v.Instructions.Fees.{handle_accrue, CollectFees, handle_collect_fees}
use aera_v.Instructions.Params.{
  SetParams, handle_set_params, handle_apply_pending_params, handle_cancel_pending_params,
}

-- One call of a handler that writes to a reserve, by its result: each of them but
-- `absorb_bad_debt`, and the administration's creation and migration of a reserve.
pub data Step {L : Type 0} (tokens : TokenProgram L) (program : Program)
    : Reserve → Reserve → Type 0 where
  supplied :
      (clock : Clock) (c c' : Supply) (amount : ℕ) (l l' : L)
      → handle_supply tokens clock c amount l ≡ ok (c', l')
      → Step tokens program c.reserve c'.reserve
  withdrawn :
      (clock : Clock) (c c' : Withdraw) (shares : ℕ) (l l' : L)
      → handle_withdraw tokens clock c shares l ≡ ok (c', l')
      → Step tokens program c.reserve c'.reserve
  borrowed :
      (clock : Clock) (c c' : Borrow) (amount : ℕ) (l l' : L)
      → handle_borrow tokens program clock c amount l ≡ ok (c', l')
      → Step tokens program c.reserve c'.reserve
  repaid :
      (clock : Clock) (c c' : Repay) (amount : ℕ) (l l' : L)
      → handle_repay tokens clock c amount l ≡ ok (c', l')
      → Step tokens program c.reserve c'.reserve
  liquidated :
      (clock : Clock) (c c' : Liquidate) (s : Seizure) (amount : ℕ) (l l' : L)
      → handle_liquidate tokens program clock c amount l ≡ ok (c', s, l')
      → Step tokens program c.repay_reserve c'.repay_reserve
  accrued :
      (clock : Clock) (r r' : Reserve) → handle_accrue clock r ≡ ok r' → Step tokens program r r'
  collected :
      (clock : Clock) (c c' : CollectFees) (l l' : L)
      → handle_collect_fees tokens clock c l ≡ ok (c', l')
      → Step tokens program c.reserve c'.reserve
  params_set :
      (clock : Clock) (c : SetParams) (r' : Reserve) (config : ReserveConfig)
      → handle_set_params clock c config ≡ ok r'
      → Step tokens program c.reserve r'
  params_applied :
      (clock : Clock) (r r' : Reserve)
      → handle_apply_pending_params clock r ≡ ok r'
      → Step tokens program r r'
  params_cancelled :
      (c : SetParams) (r' : Reserve)
      → handle_cancel_pending_params c ≡ ok r'
      → Step tokens program c.reserve r'

-- A sequence of steps from a reserve with the claim `t` to one with the claim `t'`, with shares out
-- before every step.
pub data Run {L : Type 0} (tokens : TokenProgram L) (program : Program) (r : Reserve) (t : ℕ)
    : Reserve → ℕ → Type 0 where
  start : total_liquidity r ≡ ok t → Run tokens program r t r t
  next :
      {r₁ r₂ : Reserve} {t₁ t₂ : ℕ}
      → Run tokens program r t r₁ t₁
      → 0 < r₁.share_mint_supply
      → Step tokens program r₁ r₂
      → total_liquidity r₂ ≡ ok t₂
      → Run tokens program r t r₂ t₂
