-- ===== src/Pool/Interest.antt =====
-- The accrual of interest, the payout of fees and the recognition of a loss.
use aera_v.Common.{
  ℕ, ◌+◌, ◌-◌, ◌*◌, ◌<◌, ◌≤◌, ◌≡◌, refl, arith, Clock, Ensures, Ensures->>=, ltb, ◌&&◌,
  Ensures-skip, returns, require-Ensures, checked_add-Ensures, checked_sub-Ensures, ltb→lt,
  narrow-Ensures, Bool-cases, inl, inr, ==_iff, sum_map,
}
use native.Mathlib.Nat.{mul-le-mul}
use aera_v.Constants.{fixed_point_scale, bps_denominator}
use aera_v.Math.Rounds.{IsFloor, mul_div_ceil-Ensures, mul_div_floor-Ensures, le-floor}
use aera_v.Reserve.{Reserve, charge_interest, accrue_interest}
use aera_v.Reserve.Debt.{IsDebt, IsClaim, current_borrowed_amount-Ensures}
use aera_v.Tokens.{TokenProgram}
use aera_v.Instructions.Fees.{CollectFees, collect_fees_effects, handle_collect_fees}
use aera_v.Instructions.AbsorbBadDebt.{AbsorbBadDebt, WriteOff, handle_absorb_bad_debt}
use aera_v.Pool.Rate.{IsKept, debt_grown, debt_unique}

-- What an accrual writes: the index grows, and the fee is a part of the interest.
pub record Accrued (r r' : Reserve) : Type 0 where
  pub principal : r'.borrowed_principal ≡ r.borrowed_principal
  pub available : r'.available_liquidity ≡ r.available_liquidity
  pub supply : r'.share_mint_supply ≡ r.share_mint_supply
  pub config : r'.config ≡ r.config
  pub index : r.borrow_index ≤ r'.borrow_index
  pub fee : ℕ
  pub fees : r'.accrued_fees ≡ r.accrued_fees + fee
  pub from_interest :
      (d d' : ℕ)
      → IsDebt r.borrowed_principal r.borrow_index d
      → IsDebt r'.borrowed_principal r'.borrow_index d'
      → IsFloor ((d' - d) * r.config.reserve_factor_bps) bps_denominator fee

index_grown :
    (i growth i' : ℕ)
    → fixed_point_scale ≤ growth
    → IsFloor (i * growth) fixed_point_scale i'
    → i ≤ i'
index_grown i growth i' h f =
    let k = mul-le-mul {n₁ = i} {m₁ = fixed_point_scale} {n₂ = i} {m₂ = growth} (omega arith) h in
    le-floor i f k

charge_interest-Accrued :
    (r : Reserve) (elapsed : ℕ) → Ensures (Accrued r) (charge_interest r elapsed)
unfolding charge_interest
charge_interest-Accrued r elapsed = Ensures->>= (current_borrowed_amount-Ensures r) λ before owed.
    Ensures-skip _ λ rate. Ensures-skip _ λ accrued.
      Ensures->>= (checked_add-Ensures _ _ _) λ growth (g, _).
        Ensures->>= (mul_div_floor-Ensures _ _ _) λ index f.
          Ensures->>= (current_borrowed_amount-Ensures _) λ after owed'.
            Ensures->>= (mul_div_floor-Ensures _ _ _) λ fee cut.
              Ensures->>= (narrow-Ensures _ _) λ word (n, _).
                Ensures->>= (checked_add-Ensures _ _ _) λ fees (a, _). returns (record {
                  principal = refl;
                  available = refl;
                  supply = refl;
                  config = refl;
                  index = index_grown r.borrow_index growth index (omega arith) f;
                  fee = word;
                  fees = a;
                  from_interest = λ d d' x y.
                      let e =
                        debt_unique r.borrowed_principal r.borrow_index before d owed.is_debt x in
                      let e' = debt_unique r.borrowed_principal index after d' owed'.is_debt y in
                      rw (← e, ← e', n) cut;
                })

same-Accrued : (r : Reserve) → Accrued r r
same-Accrued r = record {
  principal = refl;
  available = refl;
  supply = refl;
  config = refl;
  index = omega arith;
  fee = 0;
  fees = omega arith;
  from_interest = λ d d' x y.
      let e = debt_unique r.borrowed_principal r.borrow_index d' d y x in
      let none_charged : d' - d ≡ 0 = omega (arith, e) in rw none_charged (omega arith);
}

stamped-Accrued :
    (r a : Reserve) (slot : ℕ) → Accrued r a → Accrued r (record a { last_update_slot = slot })
stamped-Accrued r a slot x = record {
  principal = x.principal;
  available = x.available;
  supply = x.supply;
  config = x.config;
  index = x.index;
  fee = x.fee;
  fees = x.fees;
  from_interest = x.from_interest;
}

pub accrue_interest-Accrued :
    (r : Reserve) (slot : ℕ) → Ensures (Accrued r) (accrue_interest r slot)
unfolding accrue_interest
accrue_interest-Accrued r slot = Ensures-skip _ λ elapsed.
    Ensures->>=
      (elim (Bool-cases (ltb 0 elapsed && ltb 0 r.borrowed_principal)) [
        | inl e ↦ rw e (charge_interest-Accrued r elapsed)
        | inr e ↦ rw e (returns (same-Accrued r))
      ])
      λ a x. returns (stamped-Accrued r a slot x)

fee-le-interest :
    (interest factor fee : ℕ)
    → factor ≤ bps_denominator
    → IsFloor (interest * factor) bps_denominator fee
    → fee ≤ interest
fee-le-interest interest factor fee h f =
    let k =
      mul-le-mul {n₁ = interest} {m₁ = factor} {n₂ = interest} {m₂ = bps_denominator} (omega arith)
        h in
    omega (arith, k, f.below)

pub Accrued-IsKept :
    (r r' : Reserve) → r.config.reserve_factor_bps ≤ bps_denominator → Accrued r r' → IsKept r r'
Accrued-IsKept r r' h x = record {
  supply = x.supply;
  config = x.config;
  claim = λ t t' a b.
      let after : IsDebt r.borrowed_principal r'.borrow_index b.debt =
        rw (x.principal) at (b.is_debt) in
      let grown =
        debt_grown r.borrowed_principal r.borrow_index r'.borrow_index a.debt b.debt x.index
          a.is_debt after in
      let cut =
        fee-le-interest (b.debt - a.debt) r.config.reserve_factor_bps x.fee h
          (x.from_interest a.debt b.debt a.is_debt b.is_debt) in
      omega (arith, grown, cut, a.balance, b.balance, x.available, x.fees);
}

-- A payout of fees leaves the claim of the suppliers as it is.
pub record Collected (r r' : Reserve) (amount : ℕ) : Type 0 where
  pub principal : r'.borrowed_principal ≡ r.borrowed_principal
  pub index : r'.borrow_index ≡ r.borrow_index
  pub supply : r'.share_mint_supply ≡ r.share_mint_supply
  pub config : r'.config ≡ r.config
  pub available : r.available_liquidity ≡ r'.available_liquidity + amount
  pub fees : r.accrued_fees ≡ r'.accrued_fees + amount
  pub positive : 0 < amount

pub collect_fees_effects-Collected :
    (clock : Clock) (c : CollectFees)
    → Ensures (λ (c', amount). Collected c.reserve c'.reserve amount) (collect_fees_effects clock c)
unfolding collect_fees_effects
collect_fees_effects-Collected clock c = Ensures-skip _ λ _.
    Ensures->>= (require-Ensures _ _) λ _ pos. Ensures->>= (checked_sub-Ensures _ _) λ fees (f, hf).
      Ensures->>= (checked_sub-Ensures _ _) λ available (a, ha). returns (record {
        principal = refl;
        index = refl;
        supply = refl;
        config = refl;
        available = omega arith;
        fees = omega arith;
        positive = ltb→lt _ _ pos;
      })

Collected-IsKept : (r r' : Reserve) (amount : ℕ) → Collected r r' amount → IsKept r r'
Collected-IsKept r r' amount x = record {
  supply = x.supply;
  config = x.config;
  claim = λ t t' a b.
      let after : IsDebt r.borrowed_principal r.borrow_index b.debt =
        rw (x.principal, x.index) at (b.is_debt) in
      let same = debt_unique r.borrowed_principal r.borrow_index a.debt b.debt a.is_debt after in
      omega (arith, same, a.balance, b.balance, x.available, x.fees);
}

-- A payout of fees takes nothing from the suppliers.
pub handle_collect_fees-IsKept :
    {L : Type 0} (tokens : TokenProgram L) (clock : Clock) (c : CollectFees) (l : L)
    → Ensures (λ (c', _). IsKept c.reserve c'.reserve) (handle_collect_fees tokens clock c l)
unfolding handle_collect_fees
handle_collect_fees-IsKept tokens clock c l = Ensures-skip _ λ _.
    Ensures->>= (collect_fees_effects-Collected clock c)
      λ (c', amount) x. Ensures-skip _ λ _. returns (Collected-IsKept c.reserve c'.reserve amount x)

-- What a write-off takes off the books.
pub record WrittenOff (c : AbsorbBadDebt) (r' : Reserve) (event : WriteOff) : Type 0 where
  pub principal : c.reserve.borrowed_principal ≡ r'.borrowed_principal + event.principal_removed
  pub available : r'.available_liquidity ≡ c.reserve.available_liquidity
  pub fees : r'.accrued_fees ≡ c.reserve.accrued_fees
  pub index : r'.borrow_index ≡ c.reserve.borrow_index
  pub supply : r'.share_mint_supply ≡ c.reserve.share_mint_supply
  pub config : r'.config ≡ c.reserve.config
  pub no_collateral : sum_map (λ d. d.deposited_shares) c.obligation.deposits ≡ 0
  pub owed : IsDebt event.principal_removed c.reserve.borrow_index event.amount
  pub positive : 0 < event.principal_removed

pub handle_absorb_bad_debt-WrittenOff :
    (clock : Clock) (c : AbsorbBadDebt)
    → Ensures (λ (c', event). WrittenOff c c'.reserve event) (handle_absorb_bad_debt clock c)
unfolding handle_absorb_bad_debt
handle_absorb_bad_debt-WrittenOff clock c = Ensures-skip _ λ _. Ensures-skip _ λ _.
    Ensures-skip _ λ _. Ensures->>= (require-Ensures _ _) λ _ none_left. Ensures-skip _ λ i.
      Ensures-skip _ λ entry. Ensures->>= (require-Ensures _ _) λ _ pos.
        Ensures->>= (mul_div_ceil-Ensures _ _ _) λ owed o.
          Ensures->>= (narrow-Ensures _ _) λ word (n, _).
            Ensures->>= (checked_sub-Ensures _ _) λ principal (p, hp). returns (record {
              principal = omega arith;
              available = refl;
              fees = refl;
              index = refl;
              supply = refl;
              config = refl;
              no_collateral = (==_iff _ _).0 none_left;
              owed = rw n o;
              positive = ltb→lt _ _ pos;
            })

-- The loss that the suppliers take is the amount of the event, or one base unit less.
pub WrittenOff-loss :
    (c : AbsorbBadDebt) (r' : Reserve) (event : WriteOff) (t t' : ℕ)
    → WrittenOff c r' event
    → IsClaim c.reserve t
    → IsClaim r' t'
    → (t ≤ t' + event.amount) × (t' + event.amount ≤ t + 1)
WrittenOff-loss c r' event t t' w a b =
    let before : IsDebt (r'.borrowed_principal + event.principal_removed) c.reserve.borrow_index
        a.debt =
      rw (w.principal) at (a.is_debt) in
    let after : IsDebt r'.borrowed_principal c.reserve.borrow_index b.debt =
      rw (w.index) at (b.is_debt) in
    omega (
      arith, before.above, before.previous, after.above, after.previous, w.owed.above,
      w.owed.previous, a.balance, b.balance, w.available, w.fees,
    )
