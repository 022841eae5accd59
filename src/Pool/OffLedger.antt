-- ===== src/Pool/OffLedger.antt =====
-- The handlers that write to a reserve and call no token program.
use aera_v.Common.{
  ◌≡◌, refl, Clock, ok, Ensures, Ensures-skip, Ensures-ok, returns, Bool-cases, inl, inr,
}
use aera_v.Reserve.{Reserve, ReserveConfig, is_tightening_from}
use aera_v.Instructions.Fees.{handle_accrue}
use aera_v.Instructions.Params.{
  SetParams, handle_set_params, handle_apply_pending_params, handle_cancel_pending_params,
}
use aera_v.Instructions.AbsorbBadDebt.{AbsorbBadDebt, WriteOff, handle_absorb_bad_debt}
use aera_v.Pool.Interest.{accrue_interest-Accrued, handle_absorb_bad_debt-WrittenOff}

-- One call of such a handler, by the reserve before and after.
pub data OffLedger : Reserve → Reserve → Type 0 where
  accrued : (clock : Clock) (r r' : Reserve) → handle_accrue clock r ≡ ok r' → OffLedger r r'
  params_set :
      (clock : Clock) (c : SetParams) (r' : Reserve) (config : ReserveConfig)
      → handle_set_params clock c config ≡ ok r'
      → OffLedger c.reserve r'
  params_applied :
      (clock : Clock) (r r' : Reserve)
      → handle_apply_pending_params clock r ≡ ok r'
      → OffLedger r r'
  params_cancelled :
      (c : SetParams) (r' : Reserve)
      → handle_cancel_pending_params c ≡ ok r'
      → OffLedger c.reserve r'
  absorbed :
      (clock : Clock) (c c' : AbsorbBadDebt) (event : WriteOff)
      → handle_absorb_bad_debt clock c ≡ ok (c', event)
      → OffLedger c.reserve c'.reserve

Keeps : Reserve → Reserve → Type 0
Keeps r r' = r'.available_liquidity ≡ r.available_liquidity

set-Keeps :
    (clock : Clock) (c : SetParams) (config : ReserveConfig)
    → Ensures (Keeps c.reserve) (handle_set_params clock c config)
unfolding handle_set_params Keeps
set-Keeps clock c config = Ensures-skip _ λ _. Ensures-skip _ λ _.
    elim (Bool-cases (is_tightening_from c.reserve.config config)) [
      | inl e ↦ rw e (returns refl)
      | inr e ↦ rw e (Ensures-skip _ λ eta. returns refl)
    ]

apply-Keeps :
    (clock : Clock) (r : Reserve) → Ensures (Keeps r) (handle_apply_pending_params clock r)
unfolding handle_apply_pending_params Keeps
apply-Keeps clock r = Ensures-skip _ λ _. Ensures-skip _ λ _. Ensures-skip _ λ _. returns refl

cancel-Keeps : (c : SetParams) → Ensures (Keeps c.reserve) (handle_cancel_pending_params c)
unfolding handle_cancel_pending_params Keeps
cancel-Keeps c = Ensures-skip _ λ _. Ensures-skip _ λ _. returns refl

-- None of them touches the available liquidity.
pub OffLedger-available :
    {r r' : Reserve} → OffLedger r r' → r'.available_liquidity ≡ r.available_liquidity
unfolding handle_accrue Keeps
OffLedger-available (OffLedger.accrued clock r r' e) =
    (Ensures-ok (accrue_interest-Accrued r clock.slot) e).available
OffLedger-available (OffLedger.params_set clock c r' config e) =
    Ensures-ok (set-Keeps clock c config) e
OffLedger-available (OffLedger.params_applied clock r r' e) = Ensures-ok (apply-Keeps clock r) e
OffLedger-available (OffLedger.params_cancelled c r' e) = Ensures-ok (cancel-Keeps c) e
OffLedger-available (OffLedger.absorbed clock c c' event e) =
    (Ensures-ok (handle_absorb_bad_debt-WrittenOff clock c) e).available
