-- ===== src/Pool/Credit.antt =====
-- Borrowing, repaying and liquidating move nothing away from the suppliers.
use aera_v.Common.{
  ℕ, ◌+◌, ◌*◌, ◌<◌, ◌≤◌, ◌≡◌, refl, min, arith, Clock, Ensures, Ensures->>=, Ensures-skip, returns,
  require-Ensures, checked_add-Ensures, checked_sub-Ensures, ltb→lt, narrow-Ensures,
}
use native.Mathlib.Nat.{mul-le-mul}
use aera_v.Constants.{fixed_point_scale, bps_denominator}
use aera_v.Math.Rounds.{IsFloor, IsCeil, mul_div_ceil-Ensures, mul_div_floor-Ensures}
use aera_v.Reserve.{Reserve}
use aera_v.Reserve.Debt.{IsDebt}
use aera_v.Tokens.{TokenProgram}
use aera_v.Instructions.RiskAccount.{Program}
use aera_v.Instructions.Borrow.{Borrow, draw, borrow_effects, handle_borrow}
use aera_v.Instructions.Repay.{Repay, repay_effects, handle_repay}
use aera_v.Instructions.Liquidate.{
  Liquidate, Seizure, apply_liquidation, liquidate_effects, handle_liquidate,
}
use aera_v.Pool.Rate.{IsKept, debt_drawn, debt_repaid}

-- What a draw of `amount` writes.
pub record Drawn (r : Reserve) (amount : ℕ) (r' : Reserve) (added paid : ℕ) : Type 0 where
  pub fee : ℕ
  pub split : amount ≡ paid + fee
  pub principal : r'.borrowed_principal ≡ r.borrowed_principal + added
  pub available : r.available_liquidity ≡ r'.available_liquidity + paid
  pub fees : r'.accrued_fees ≡ r.accrued_fees + fee
  pub index : r'.borrow_index ≡ r.borrow_index
  pub supply : r'.share_mint_supply ≡ r.share_mint_supply
  pub config : r'.config ≡ r.config
  pub scaled : IsCeil (amount * fixed_point_scale) r.borrow_index added
  pub charged : IsFloor (amount * r.config.origination_fee_bps) bps_denominator fee
  pub paid_positive : 0 < paid

pub draw-Drawn :
    (r : Reserve) (amount : ℕ)
    → Ensures (λ (r', added, paid). Drawn r amount r' added paid) (draw r amount)
unfolding draw
draw-Drawn r amount = Ensures->>= (mul_div_ceil-Ensures _ _ _) λ added scaled.
    Ensures->>= (mul_div_floor-Ensures _ _ _) λ wide charged.
      Ensures->>= (narrow-Ensures _ _) λ fee (n, _).
        Ensures->>= (checked_sub-Ensures _ _) λ paid (p, hp).
          Ensures->>= (require-Ensures _ _) λ _ pos.
            Ensures->>= (checked_add-Ensures _ _ _) λ principal (b, _).
              Ensures->>= (checked_sub-Ensures _ _) λ available (a, ha).
                Ensures->>= (checked_add-Ensures _ _ _) λ fees (f, _). returns (record {
                  fee = fee;
                  split = omega arith;
                  principal = b;
                  available = omega arith;
                  fees = f;
                  index = refl;
                  supply = refl;
                  config = refl;
                  scaled = scaled;
                  charged = rw n charged;
                  paid_positive = ltb→lt _ _ pos;
                })

Drawn-IsKept :
    (r : Reserve) (amount : ℕ) (r' : Reserve) (added paid : ℕ)
    → Drawn r amount r' added paid
    → IsKept r r'
Drawn-IsKept r amount r' added paid d = record {
  supply = d.supply;
  config = d.config;
  claim = λ t t' a b.
      let after : IsDebt (r.borrowed_principal + added) r.borrow_index b.debt =
        rw (d.principal, d.index) at (b.is_debt) in
      let grown =
        debt_drawn r.borrowed_principal added r.borrow_index amount a.debt b.debt a.is_debt after
          d.scaled in
      omega (arith, grown, a.balance, b.balance, d.available, d.fees, d.split);
}

-- What a repayment of `amount` writes on the reserve.
pub record Repaid (r : Reserve) (amount : ℕ) (r' : Reserve) (removed : ℕ) : Type 0 where
  pub principal : r.borrowed_principal ≡ r'.borrowed_principal + removed
  pub available : r'.available_liquidity ≡ r.available_liquidity + amount
  pub fees : r'.accrued_fees ≡ r.accrued_fees
  pub index : r'.borrow_index ≡ r.borrow_index
  pub supply : r'.share_mint_supply ≡ r.share_mint_supply
  pub config : r'.config ≡ r.config
  pub bounded : removed * r.borrow_index ≤ amount * fixed_point_scale

removed_bounded :
    (amount index scaled principal : ℕ)
    → IsFloor (amount * fixed_point_scale) index scaled
    → min scaled principal * index ≤ amount * fixed_point_scale
removed_bounded amount index scaled principal f =
    let h =
      mul-le-mul {n₁ = min scaled principal} {m₁ = index} {n₂ = scaled} {m₂ = index} (omega arith)
        (omega arith) in
    omega (arith, h, f.below)

Repaid-IsKept :
    (r : Reserve) (amount : ℕ) (r' : Reserve) (removed : ℕ)
    → Repaid r amount r' removed
    → IsKept r r'
Repaid-IsKept r amount r' removed p = record {
  supply = p.supply;
  config = p.config;
  claim = λ t t' a b.
      let after : IsDebt r'.borrowed_principal r.borrow_index b.debt =
        rw (p.index) at (b.is_debt) in
      let before : IsDebt (r'.borrowed_principal + removed) r.borrow_index a.debt =
        rw (p.principal) at (a.is_debt) in
      let h =
        debt_repaid r'.borrowed_principal removed r.borrow_index amount a.debt b.debt before after
          p.bounded in
      omega (arith, h, a.balance, b.balance, p.available, p.fees);
}

pub repay_effects-Repaid :
    (clock : Clock) (c : Repay) (amount : ℕ)
    → Ensures
        (λ (c', paid). (removed : ℕ) × Repaid c.reserve paid c'.reserve removed)
        (repay_effects clock c amount)
unfolding repay_effects
repay_effects-Repaid clock c amount = Ensures-skip _ λ _. Ensures-skip _ λ _. Ensures-skip _ λ i.
    Ensures-skip _ λ entry. Ensures-skip _ λ debt. Ensures-skip _ λ _.
      Ensures->>= (mul_div_floor-Ensures _ _ _) λ scaled f.
        Ensures->>= (checked_sub-Ensures _ _) λ principal (p, hp).
          Ensures->>= (checked_add-Ensures _ _ _) λ available (a, _). Ensures-skip _ λ obligation.
            returns (
              min scaled entry.borrowed_principal,
              record {
                principal = omega arith;
                available = a;
                fees = refl;
                index = refl;
                supply = refl;
                config = refl;
                bounded = removed_bounded _ _ scaled entry.borrowed_principal f;
              },
            )

pub apply_liquidation-Repaid :
    (c : Liquidate) (s : Seizure)
    → Ensures
        (λ c'. (removed : ℕ) × Repaid c.repay_reserve s.repaid c'.repay_reserve removed)
        (apply_liquidation c s)
unfolding apply_liquidation
apply_liquidation-Repaid c s = Ensures-skip _ λ i. Ensures-skip _ λ j. Ensures-skip _ λ entry.
    Ensures->>= (mul_div_floor-Ensures _ _ _) λ scaled f.
      Ensures->>= (checked_sub-Ensures _ _) λ principal (p, hp).
        Ensures->>= (checked_add-Ensures _ _ _) λ available (a, _). Ensures-skip _ λ lighter.
          Ensures-skip _ λ obligation. returns (
            min scaled entry.borrowed_principal,
            record {
              principal = omega arith;
              available = a;
              fees = refl;
              index = refl;
              supply = refl;
              config = refl;
              bounded = removed_bounded _ _ scaled entry.borrowed_principal f;
            },
          )

-- A borrow, with its origination fee, takes nothing from the suppliers.
pub handle_borrow-IsKept :
    {L : Type 0} (tokens : TokenProgram L) (program : Program) (clock : Clock) (c : Borrow)
    (amount : ℕ) (l : L)
    → Ensures
        (λ (c', _). IsKept c.reserve c'.reserve)
        (handle_borrow tokens program clock c amount l)
unfolding handle_borrow borrow_effects
handle_borrow-IsKept tokens program clock c amount l =
    Ensures-skip _ λ _. Ensures->>= borrowed λ (c', paid) kept. Ensures-skip _ λ _. returns kept
  where
    borrowed :
        Ensures (λ (c', _). IsKept c.reserve c'.reserve) (borrow_effects program clock c amount)
    borrowed = Ensures-skip _ λ _. Ensures->>= (draw-Drawn c.reserve amount) λ (r', added, paid) d.
        Ensures-skip _ λ _. returns (Drawn-IsKept c.reserve amount r' added paid d)

-- A repayment takes nothing from the suppliers.
pub handle_repay-IsKept :
    {L : Type 0} (tokens : TokenProgram L) (clock : Clock) (c : Repay) (amount : ℕ) (l : L)
    → Ensures (λ (c', _). IsKept c.reserve c'.reserve) (handle_repay tokens clock c amount l)
unfolding handle_repay
handle_repay-IsKept tokens clock c amount l = Ensures-skip _ λ _.
    Ensures->>= (repay_effects-Repaid clock c amount) λ (c', paid) (removed, p).
      Ensures-skip _ λ _. returns (Repaid-IsKept c.reserve paid c'.reserve removed p)

-- A liquidation takes nothing from the suppliers of the asset that is repaid.
pub handle_liquidate-IsKept :
    {L : Type 0} (tokens : TokenProgram L) (program : Program) (clock : Clock) (c : Liquidate)
    (amount : ℕ) (l : L)
    → Ensures
        (λ (c', _, _). IsKept c.repay_reserve c'.repay_reserve)
        (handle_liquidate tokens program clock c amount l)
unfolding handle_liquidate liquidate_effects
handle_liquidate-IsKept tokens program clock c amount l = Ensures-skip _ λ _.
    Ensures->>= liquidated
      λ (c', s) kept. Ensures-skip _ λ _. Ensures-skip _ λ _. Ensures-skip _ λ _. returns kept
  where
    liquidated :
        Ensures
          (λ (c', _). IsKept c.repay_reserve c'.repay_reserve)
          (liquidate_effects program clock c amount)
    liquidated = Ensures-skip _ λ s. Ensures->>= (apply_liquidation-Repaid c s) λ c' (removed, p).
        returns (Repaid-IsKept c.repay_reserve s.repaid c'.repay_reserve removed p)
