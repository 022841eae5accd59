-- ===== src/Safety/Books.antt =====
-- The handlers keep the principal of an obligation and of the reserve in step.
use aera_v.Common.{
  ℕ, ◌+◌, ◌≡◌, refl, ap, true, ◌==◌, arith, Clock, Pubkey, ok, position-found, Ensures, Ensures->>=,
  Ensures-skip, Ensures-ok, returns, checked_add-Ensures, checked_sub-Ensures, Ensures-itself, min,
  some, get_elem?, ◌*◌, sum_map, sum_map-erase_idx,
}
use aera_v.Constants.{fixed_point_scale}
use aera_v.Math.Rounds.{IsFloor, IsCeil, mul_div_floor-Ensures}
use aera_v.Obligation.{Obligation, ObligationLiquidity, borrow_position, debt_at}
use aera_v.Reserve.{Reserve}
use aera_v.Tokens.{TokenProgram}
use aera_v.Pool.Credit.{draw-Drawn}
use aera_v.Instructions.RiskAccount.{Program}
use aera_v.Instructions.Borrow.{Borrow, borrow_effects, handle_borrow}
use aera_v.Instructions.Collateral.{reduce_collateral}
use aera_v.Instructions.Liquidate.{
  Liquidate, Seizure, apply_liquidation, liquidate_effects, handle_liquidate,
}
use aera_v.Instructions.AbsorbBadDebt.{AbsorbBadDebt, WriteOff, handle_absorb_bad_debt}
use aera_v.Instructions.Repay.{Repay, repay_effects, handle_repay}
use aera_v.Safety.Principal.{
  entry_principal, principal_in, index-Ensures, reduce_borrow-principal, add_borrow-principal,
  find_borrow-Ensures,
}

-- A draw of `amount` enters the obligation and the reserve as the same principal: the amount over
-- the borrow index, rounded up.
pub record IsDrawn (key : Pubkey) (amount : ℕ) (o : Obligation) (r : Reserve) (o' : Obligation)
    (r' : Reserve) : Type 0 where
  pub added : ℕ
  pub scaled : IsCeil (amount * fixed_point_scale) r.borrow_index added
  pub on_obligation : principal_in key o' ≡ principal_in key o + added
  pub on_reserve : r'.borrowed_principal ≡ r.borrowed_principal + added

-- A payment takes the same principal off an entry of the obligation and off the reserve: the payment
-- over the borrow index, rounded down, and no more than the entry holds.
pub record IsPaidOff (key : Pubkey) (paid position : ℕ) (o : Obligation) (r : Reserve)
    (o' : Obligation) (r' : Reserve) : Type 0 where
  pub found : borrow_position o key ≡ some position
  pub entry : ObligationLiquidity
  pub listed : get_elem? o.borrows position ≡ some entry
  pub quotient : ℕ
  pub scaled : IsFloor (paid * fixed_point_scale) r.borrow_index quotient
  pub off_obligation :
      principal_in key o' + min quotient entry.borrowed_principal ≡ principal_in key o
  pub off_reserve :
      r'.borrowed_principal + min quotient entry.borrowed_principal ≡ r.borrowed_principal
  pub received : r'.available_liquidity ≡ r.available_liquidity + paid

borrow_effects-IsDrawn :
    (program : Program) (clock : Clock) (c : Borrow) (amount : ℕ)
    → Ensures
        (λ (c', _). IsDrawn c.reserve_key amount c.obligation c.reserve c'.obligation c'.reserve)
        (borrow_effects program clock c amount)
unfolding borrow_effects
borrow_effects-IsDrawn program clock c amount = Ensures-skip _ λ _.
    Ensures->>= (draw-Drawn c.reserve amount) λ (r', added, paid) d.
      Ensures->>= (add_borrow-principal c.obligation c.reserve_key added) λ o' grown.
        returns (record {
          added = added;
          scaled = d.scaled;
          on_obligation = grown;
          on_reserve = d.principal;
        })

-- A repayment pays the whole debt of the entry off, or the amount that was offered.
IsRepaid : Repay → ℕ → Repay → Type 0
IsRepaid c amount c' =
    (position : ℕ) × (debt : ℕ) × (debt_at c.obligation position c.reserve.borrow_index ≡ ok debt)
    × IsPaidOff c.reserve_key (min amount debt) position c.obligation c.reserve c'.obligation
        c'.reserve

repay_effects-IsRepaid :
    (clock : Clock) (c : Repay) (amount : ℕ)
    → Ensures (λ (c', _). IsRepaid c amount c') (repay_effects clock c amount)
unfolding repay_effects IsRepaid
repay_effects-IsRepaid clock c amount = Ensures-skip _ λ _. Ensures-skip _ λ _.
    Ensures->>= (find_borrow-Ensures _ _) λ i found. Ensures->>= (index-Ensures _ _) λ entry at.
      Ensures->>= (Ensures-itself _) λ debt owed. Ensures-skip _ λ _.
        Ensures->>= (mul_div_floor-Ensures _ _ _) λ scaled f.
          Ensures->>= (checked_sub-Ensures _ _) λ principal (p, fits).
            Ensures->>= (checked_add-Ensures _ _ _) λ available (a, _).
              Ensures->>= (reduce_borrow-principal c.obligation c.reserve_key i _ found) λ o' less.
                returns (
                  i,
                  debt,
                  owed,
                  record {
                    found = found;
                    entry = entry;
                    listed = at;
                    quotient = scaled;
                    scaled = f;
                    off_obligation = less;
                    off_reserve = omega (arith, p, fits);
                    received = a;
                  },
                )

reduce_collateral-borrows :
    (o : Obligation) (j shares : ℕ)
    → Ensures (λ o'. o'.borrows ≡ o.borrows) (reduce_collateral o j shares)
unfolding reduce_collateral
reduce_collateral-borrows o j shares = Ensures-skip _ λ entry. Ensures-skip _ λ left. returns refl

IsLiquidated : Liquidate → ℕ → Liquidate → Type 0
IsLiquidated c repaid c' =
    (position : ℕ) × IsPaidOff c.repay_reserve_key repaid position c.obligation c.repay_reserve
      c'.obligation c'.repay_reserve

apply_liquidation-IsLiquidated :
    (c : Liquidate) (s : Seizure) → Ensures (IsLiquidated c s.repaid) (apply_liquidation c s)
unfolding apply_liquidation principal_in IsLiquidated
apply_liquidation-IsLiquidated c s = Ensures->>= (find_borrow-Ensures _ _) λ i found.
    Ensures-skip _ λ j. Ensures->>= (index-Ensures _ _) λ entry at.
      Ensures->>= (mul_div_floor-Ensures _ _ _) λ scaled f.
        Ensures->>= (checked_sub-Ensures _ _) λ principal (p, fits).
          Ensures->>= (checked_add-Ensures _ _ _) λ available (a, _).
            Ensures->>= (reduce_borrow-principal c.obligation c.repay_reserve_key i _ found)
              λ lighter less.
                Ensures->>= (reduce_collateral-borrows lighter j s.seized_shares) λ o' same.
                  let kept = ap (sum_map (entry_principal c.repay_reserve_key)) same in
                  returns (
                    i,
                    record {
                      found = found;
                      entry = entry;
                      listed = at;
                      quotient = scaled;
                      scaled = f;
                      off_obligation = omega (arith, less, kept);
                      off_reserve = omega (arith, p, fits);
                      received = a;
                    },
                  )

handle_absorb_bad_debt-Ensures :
    (clock : Clock) (c : AbsorbBadDebt)
    → Ensures
        (λ (c', event).
          (principal_in c.reserve_key c'.obligation + c.reserve.borrowed_principal
            ≡ principal_in c.reserve_key c.obligation + c'.reserve.borrowed_principal)
          × (c.reserve.borrowed_principal
              ≡ c'.reserve.borrowed_principal + event.principal_removed))
        (handle_absorb_bad_debt clock c)
unfolding handle_absorb_bad_debt principal_in
handle_absorb_bad_debt-Ensures clock c = Ensures-skip _ λ _. Ensures-skip _ λ _. Ensures-skip _ λ _.
    Ensures-skip _ λ _. Ensures->>= (find_borrow-Ensures _ _) λ i found.
      Ensures->>= (index-Ensures _ _) λ entry at. Ensures-skip _ λ _. Ensures-skip _ λ owed.
        Ensures-skip _ λ word. Ensures->>= (checked_sub-Ensures _ _) λ principal (p, fits).
          let key = c.reserve_key in
          let held : (entry.reserve == key) ≡ true =
            position-found _ c.obligation.borrows i entry found at in
          let owes : entry_principal key entry ≡ entry.borrowed_principal = rw held refl in
          let gone = sum_map-erase_idx (entry_principal key) c.obligation.borrows i entry at in
          returns (omega (arith, p, fits, gone, owes), omega arith)

-- A repayment that goes through takes the same principal off the obligation's debt to the reserve and
-- off the reserve: the payment over the borrow index, rounded down, and no more than the entry holds,
-- where the payment is the amount offered or the entry's debt, whichever is less, and is what the
-- reserve's available liquidity gains.
pub handle_repay-InStep :
    {L : Type 0} (tokens : TokenProgram L) (clock : Clock) (c c' : Repay) (amount : ℕ) (l l' : L)
    → handle_repay tokens clock c amount l ≡ ok (c', l')
    → (position : ℕ) × (debt : ℕ) × (debt_at c.obligation position c.reserve.borrow_index ≡ ok debt)
      × IsPaidOff c.reserve_key
          (min amount debt)
          position
          c.obligation
          c.reserve
          c'.obligation
          c'.reserve
unfolding handle_repay IsRepaid
handle_repay-InStep tokens clock c c' amount l l' = Ensures-ok {P = λ (x, _). IsRepaid c amount x} (
    Ensures-skip _ λ _.
      Ensures->>= (repay_effects-IsRepaid clock c amount)
        λ _ kept. Ensures-skip _ λ _. returns kept)

-- A borrow that goes through adds the same principal to the obligation's debt to the reserve and to
-- the reserve: the amount over the borrow index, rounded up.
pub handle_borrow-InStep :
    {L : Type 0} (tokens : TokenProgram L) (program : Program) (clock : Clock) (c c' : Borrow)
    (amount : ℕ) (l l' : L)
    → handle_borrow tokens program clock c amount l ≡ ok (c', l')
    → IsDrawn c.reserve_key amount c.obligation c.reserve c'.obligation c'.reserve
unfolding handle_borrow
handle_borrow-InStep tokens program clock c c' amount l l' =
    Ensures-ok
      {P = λ (x, _). IsDrawn c.reserve_key amount c.obligation c.reserve x.obligation x.reserve}
      (Ensures-skip _ λ _.
        Ensures->>= (borrow_effects-IsDrawn program clock c amount)
          λ _ kept. Ensures-skip _ λ _. returns kept)

-- A liquidation that goes through takes the same principal off the obligation's debt to the repaid
-- reserve and off that reserve: what is repaid over the borrow index, rounded down, and no more than
-- the entry holds, and the reserve's available liquidity gains what is repaid.
pub handle_liquidate-InStep :
    {L : Type 0} (tokens : TokenProgram L) (program : Program) (clock : Clock) (c c' : Liquidate)
    (amount : ℕ) (s : Seizure) (l l' : L)
    → handle_liquidate tokens program clock c amount l ≡ ok (c', s, l')
    → (position : ℕ) × IsPaidOff c.repay_reserve_key s.repaid position c.obligation c.repay_reserve
        c'.obligation c'.repay_reserve
unfolding handle_liquidate liquidate_effects IsLiquidated
handle_liquidate-InStep tokens program clock c c' amount s l l' =
    Ensures-ok {P = λ (x, y, _). IsLiquidated c y.repaid x} (
      Ensures-skip _ λ _.
        Ensures->>= written
          λ (x, _) kept. Ensures-skip _ λ _. Ensures-skip _ λ _. Ensures-skip _ λ _. returns kept)
  where
    written :
        Ensures (λ (x, y). IsLiquidated c y.repaid x) (liquidate_effects program clock c amount)
    written =
        Ensures-skip _ λ y. Ensures->>= (apply_liquidation-IsLiquidated c y) λ c' kept. returns kept

-- A write-off takes the same principal off the obligation and off the reserve, and reports it.
pub handle_absorb_bad_debt-InStep :
    (clock : Clock) (c c' : AbsorbBadDebt) (event : WriteOff)
    → handle_absorb_bad_debt clock c ≡ ok (c', event)
    → (principal_in c.reserve_key c'.obligation + event.principal_removed
        ≡ principal_in c.reserve_key c.obligation)
      × (c'.reserve.borrowed_principal + event.principal_removed ≡ c.reserve.borrowed_principal)
handle_absorb_bad_debt-InStep clock c c' event e =
    let (a, b) = Ensures-ok (handle_absorb_bad_debt-Ensures clock c) e in
    (omega (arith, a, b), omega (arith, b))
