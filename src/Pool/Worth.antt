-- ===== src/Pool/Worth.antt =====
-- A share across any sequence of handlers.
use aera_v.Common.{
  ℕ, ◌*◌, ◌<◌, ◌≤◌, ◌≡◌, refl, arith, Clock, ok, Ensures, Ensures->>=, Ensures-skip, Ensures-ok,
  returns, Bool-cases, inl, inr,
}
use native.Mathlib.Nat.{mul-le-mul_right, le_of_mul-le-mul_right}
use aera_v.Reserve.{Reserve, ReserveConfig, accrue_interest, is_tightening_from}
use aera_v.Reserve.Debt.{IsClaim, total_liquidity-Ensures}
use aera_v.Reserve.Limits.{IsSound, validate-IsSound}
use aera_v.Tokens.{TokenProgram}
use aera_v.Instructions.RiskAccount.{Program}
use aera_v.Instructions.Fees.{handle_accrue}
use aera_v.Instructions.Params.{
  SetParams, handle_set_params, handle_apply_pending_params, handle_cancel_pending_params,
}
use aera_v.Pool.Rate.{NotDiluted, IsFair, IsKept-IsFair, same_debt}
use aera_v.Pool.Trades.{handle_supply-IsFair, handle_withdraw-IsFair}
use aera_v.Pool.Credit.{handle_borrow-IsKept, handle_repay-IsKept, handle_liquidate-IsKept}
use aera_v.Pool.Interest.{Accrued-IsKept, accrue_interest-Accrued, handle_collect_fees-IsKept}
use aera_v.Pool.Run.{Step, Run}

-- A change of parameters leaves the pool, and a sound configuration sound.
pub record IsParams (r r' : Reserve) : Type 0 where
  pub config : IsSound r.config → IsSound r'.config
  worth : NotDiluted r r'

same_pool :
    (r r' : Reserve)
    → r'.available_liquidity ≡ r.available_liquidity
    → r'.share_mint_supply ≡ r.share_mint_supply
    → r'.borrowed_principal ≡ r.borrowed_principal
    → r'.borrow_index ≡ r.borrow_index
    → r'.accrued_fees ≡ r.accrued_fees
    → NotDiluted r r'
same_pool r r' a s p i f t t' out x y =
    let d = same_debt r r' t t' p i x y in
    let e : t' ≡ t = omega (arith, x.balance, y.balance, d, a, f) in rw (s, e) (omega arith)

IsFair-IsParams : (r r' : Reserve) → IsFair r r' → IsParams r r'
IsFair-IsParams r r' k = record { config = λ h. rw (k.config) h; worth = k.worth }

handle_set_params-IsParams :
    (clock : Clock) (c : SetParams) (config : ReserveConfig)
    → Ensures (IsParams c.reserve) (handle_set_params clock c config)
unfolding handle_set_params
handle_set_params-IsParams clock c config = Ensures-skip _ λ _.
    Ensures->>= (validate-IsSound config) λ _ sound.
      elim (Bool-cases (is_tightening_from c.reserve.config config)) [
        | inl e ↦ rw e (
            returns (record {
              config = λ _. sound;
              worth = same_pool c.reserve _ refl refl refl refl refl;
            }))
        | inr e ↦ rw e (
            Ensures-skip _ λ eta.
              returns (record {
                config = λ h. h;
                worth = same_pool c.reserve _ refl refl refl refl refl;
              }))
      ]

handle_apply_pending_params-IsParams :
    (clock : Clock) (r : Reserve) → Ensures (IsParams r) (handle_apply_pending_params clock r)
unfolding handle_apply_pending_params
handle_apply_pending_params-IsParams clock r = Ensures-skip _ λ _. Ensures-skip _ λ _.
    Ensures->>= (validate-IsSound r.pending.config) λ _ sound.
      returns (record { config = λ _. sound; worth = same_pool r _ refl refl refl refl refl })

handle_cancel_pending_params-IsParams :
    (c : SetParams) → Ensures (IsParams c.reserve) (handle_cancel_pending_params c)
unfolding handle_cancel_pending_params
handle_cancel_pending_params-IsParams c = Ensures-skip _ λ _. Ensures-skip _ λ _.
    returns (record { config = λ h. h; worth = same_pool c.reserve _ refl refl refl refl refl })

accrue-IsParams :
    (r : Reserve) (slot : ℕ) (r' : Reserve)
    → IsSound r.config
    → accrue_interest r slot ≡ ok r'
    → IsParams r r'
accrue-IsParams r slot r' h e =
    let x = Ensures-ok (accrue_interest-Accrued r slot) e in
    IsFair-IsParams r r'
      (IsKept-IsFair r r' (Accrued-IsKept r r' (omega (arith, h.reserve_factor)) x))

pub Step-IsParams :
    {L : Type 0} {tokens : TokenProgram L} {program : Program} {r r' : Reserve}
    → IsSound r.config
    → Step tokens program r r'
    → IsParams r r'
unfolding handle_accrue
Step-IsParams {tokens} {program} h (Step.supplied clock c c' amount l l' e) =
    IsFair-IsParams _ _ (Ensures-ok (handle_supply-IsFair tokens clock c amount l) e)
Step-IsParams {tokens} {program} h (Step.withdrawn clock c c' shares l l' e) =
    IsFair-IsParams _ _ (Ensures-ok (handle_withdraw-IsFair tokens clock c shares l) e)
Step-IsParams {tokens} {program} h (Step.borrowed clock c c' amount l l' e) =
    IsFair-IsParams _ _
      (IsKept-IsFair _ _ (Ensures-ok (handle_borrow-IsKept tokens program clock c amount l) e))
Step-IsParams {tokens} {program} h (Step.repaid clock c c' amount l l' e) =
    IsFair-IsParams _ _
      (IsKept-IsFair _ _ (Ensures-ok (handle_repay-IsKept tokens clock c amount l) e))
Step-IsParams {tokens} {program} h (Step.liquidated clock c c' s amount l l' e) =
    IsFair-IsParams _ _
      (IsKept-IsFair _ _ (Ensures-ok (handle_liquidate-IsKept tokens program clock c amount l) e))
Step-IsParams {tokens} {program} h (Step.accrued clock r r' e) = accrue-IsParams r clock.slot r' h e
Step-IsParams {tokens} {program} h (Step.collected clock c c' l l' e) =
    IsFair-IsParams _ _
      (IsKept-IsFair _ _ (Ensures-ok (handle_collect_fees-IsKept tokens clock c l) e))
Step-IsParams h (Step.params_set clock c r' config e) =
    Ensures-ok (handle_set_params-IsParams clock c config) e
Step-IsParams h (Step.params_applied clock r r' e) =
    Ensures-ok (handle_apply_pending_params-IsParams clock r) e
Step-IsParams h (Step.params_cancelled c r' e) =
    Ensures-ok (handle_cancel_pending_params-IsParams c) e

-- The worth of a share is compared through a state in between where shares are out.
worth_trans : (t s t₁ s₁ t₂ s₂ : ℕ) → 0 < s₁ → t * s₁ ≤ t₁ * s → t₁ * s₂ ≤ t₂ * s₁ → t * s₂ ≤ t₂ * s
worth_trans t s t₁ s₁ t₂ s₂ out a b =
    let x = mul-le-mul_right s₂ a in
    let y = mul-le-mul_right s b in le_of_mul-le-mul_right {k = s₁} (omega (arith, x, y)) out

Run-IsClaim :
    {L : Type 0} {tokens : TokenProgram L} {program : Program} {r : Reserve} {t : ℕ} {r' : Reserve}
    {t' : ℕ}
    → Run tokens program r t r' t'
    → IsClaim r' t'
Run-IsClaim (Run.start e) = Ensures-ok (total_liquidity-Ensures _) e
Run-IsClaim (Run.next before out step e) = Ensures-ok (total_liquidity-Ensures _) e

-- Over any sequence of supplies, withdrawals, borrows, repayments, liquidations, accruals, fee
-- payouts and parameter changes, from a configuration within the hard limits and with shares out
-- before every step, the configuration stays within the hard limits.
Run-IsSound :
    {L : Type 0} {tokens : TokenProgram L} {program : Program} {r : Reserve} {t : ℕ} {r' : Reserve}
    {t' : ℕ}
    → IsSound r.config
    → Run tokens program r t r' t'
    → IsSound r'.config
Run-IsSound h (Run.start e) = h
Run-IsSound h (Run.next before out step e) =
    (Step-IsParams (Run-IsSound h before) step).config (Run-IsSound h before)

-- Over any sequence of supplies, withdrawals, borrows, repayments, liquidations, accruals, fee
-- payouts and parameter changes, from a configuration within the hard limits and with shares out
-- before every step, the worth of a share, `total_liquidity` over `share_mint_supply`, does not
-- fall.
pub Run-worth :
    {L : Type 0} {tokens : TokenProgram L} {program : Program} {r : Reserve} {t : ℕ} {r' : Reserve}
    {t' : ℕ}
    → IsSound r.config
    → Run tokens program r t r' t'
    → t * r'.share_mint_supply ≤ t' * r.share_mint_supply
Run-worth h (Run.start e) = omega arith
Run-worth {r} {t} h (Run.next {r₁} {r₂} {t₁} {t₂} before out step e) =
    let now = (Step-IsParams (Run-IsSound h before) step).worth in
    worth_trans t r.share_mint_supply t₁ r₁.share_mint_supply t₂ r₂.share_mint_supply out
      (Run-worth h before)
      (now t₁ t₂ out (Run-IsClaim before) (Ensures-ok (total_liquidity-Ensures _) e))
