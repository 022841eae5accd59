-- ===== src/Reserve/Debt.antt =====
-- What the pool functions of state/reserve.rs return.
use aera_v.Common.{
  ℕ, ◌+◌, ◌*◌, ◌%◌, ◌<◌, ◌≡◌, refl, max, ◌==◌, arith, ok, u64_bound, u128_bound, Ensures,
  Ensures->>=, Ensures-map, returns, Returns, Returns->>=, Returns-map, Returns-ok, ◌∙◌, ◌↔◌, done,
  checked_add-Ensures, checked_add-Returns, checked_mul-Ensures, checked_mul-Returns,
  checked_sub-Ensures, narrow-Ensures, narrow-Returns, Bool-cases, ◌⊎◌, inl, inr, Ensures-ok,
}
use aera_v.Constants.{fixed_point_scale}
use aera_v.Math.{Rounding}
use aera_v.Math.Rounds.{
  IsFloor, IsCeil, IsRounded, mul_div_floor-Ensures, mul_div_floor-Returns, mul_div-Ensures,
}
use aera_v.Reserve.Types.{Reserve}
use aera_v.Reserve.Pool.{
  round_up, current_borrowed_amount, gross_liquidity, total_liquidity, shares_to_liquidity,
  liquidity_to_shares,
}

-- The debt behind a principal at an index, in base units, rounded up.
abbrev pub IsDebt : ℕ → ℕ → ℕ → Type 0
IsDebt principal index = IsCeil (principal * index) fixed_point_scale

round_up-Ensures :
    (exact amount : ℕ)
    → IsFloor exact fixed_point_scale amount
    → Ensures (IsCeil exact fixed_point_scale) (round_up exact amount)
round_up-Ensures exact amount f = elim (Bool-cases (exact % fixed_point_scale == 0)) [
  | inl e ↦ rw e (returns (ground arith))
  | inr e ↦ rw e (Ensures-map (checked_add-Ensures _ _ _) λ r (sum, _). rw sum (ground arith))
]

round_up-Returns :
    (exact amount : ℕ)
    → IsFloor exact fixed_point_scale amount
    → exact < u128_bound
    → Returns (IsCeil exact fixed_point_scale) (round_up exact amount)
round_up-Returns exact amount f small = elim (Bool-cases (exact % fixed_point_scale == 0)) [
  | inl e ↦ rw e (done (ground arith))
  | inr e ↦
      rw e (Returns-map (checked_add-Returns _ _ _ (omega arith)) λ r sum. rw sum (ground arith))
]

-- The debt of the pool as the program holds it.
pub record IsOwed (r : Reserve) (debt : ℕ) : Type 0 where
  pub fits : r.borrowed_principal * r.borrow_index < u128_bound
  pub is_debt : IsDebt r.borrowed_principal r.borrow_index debt
  pub small : debt < u64_bound

pub current_borrowed_amount-Ensures : (r : Reserve) → Ensures (IsOwed r) (current_borrowed_amount r)
unfolding current_borrowed_amount
current_borrowed_amount-Ensures r = Ensures->>= (mul_div_floor-Ensures _ _ _) λ amount f.
    Ensures->>= (checked_mul-Ensures _ _ _) λ exact (e, fits).
      Ensures->>= (round_up-Ensures exact amount (rw e f)) λ rounded c.
        Ensures-map (narrow-Ensures _ _)
          λ d (n, small). record { fits = fits; is_debt = rw (n, ← e) c; small = rw n small }

-- The claim of the suppliers: what the vault holds and what is owed, less the fees.
pub record IsClaim (r : Reserve) (total : ℕ) : Type 0 where
  pub debt : ℕ
  pub is_debt : IsDebt r.borrowed_principal r.borrow_index debt
  pub balance : total + r.accrued_fees ≡ r.available_liquidity + debt

gross_liquidity-Ensures :
    (r : Reserve)
    → Ensures
        (λ g.
          (d : ℕ) × IsDebt r.borrowed_principal r.borrow_index d × (g ≡ r.available_liquidity + d))
        (gross_liquidity r)
unfolding gross_liquidity
gross_liquidity-Ensures r =
    Ensures->>= (current_borrowed_amount-Ensures r)
      λ d owed. Ensures-map (checked_add-Ensures _ _ _) λ g (e, _). (d, owed.is_debt, e)

pub total_liquidity-Ensures : (r : Reserve) → Ensures (IsClaim r) (total_liquidity r)
unfolding total_liquidity
total_liquidity-Ensures r = Ensures->>= (gross_liquidity-Ensures r) λ g (d, is_debt, e).
    Ensures-map (checked_sub-Ensures _ _)
      λ t (f, fits). record { debt = d; is_debt = is_debt; balance = omega arith }

pub shares_to_liquidity-Ensures :
    (r : Reserve) (shares : ℕ) (rounding : Rounding)
    → Ensures
        (λ a.
          (total : ℕ) × IsClaim r total
          × IsRounded rounding (shares * total) (max r.share_mint_supply 1) a
          × (a < u64_bound))
        (shares_to_liquidity r shares rounding)
unfolding shares_to_liquidity
shares_to_liquidity-Ensures r shares rounding =
    Ensures->>= (total_liquidity-Ensures r) λ total claim.
      Ensures->>= (mul_div-Ensures _ _ _ _) λ wide f.
        Ensures-map (narrow-Ensures _ _) λ a (n, small). (total, claim, rw n f, rw n small)

-- What a deposit buys: the first is one to one, a later one its part of the supply.
abbrev pub Buys : Reserve → ℕ → Rounding → ℕ → Type 0
Buys r liquidity rounding shares =
    ((r.share_mint_supply ≡ 0) × (shares ≡ liquidity))
    ⊎ ((total : ℕ) × IsClaim r total
        × (0 < r.share_mint_supply)
        × IsRounded rounding (liquidity * r.share_mint_supply) (max total 1) shares)

pub liquidity_to_shares-Ensures :
    (r : Reserve) (liquidity : ℕ) (rounding : Rounding)
    → Ensures (Buys r liquidity rounding) (liquidity_to_shares r liquidity rounding)
unfolding liquidity_to_shares
liquidity_to_shares-Ensures r liquidity rounding = elim (Bool-cases (r.share_mint_supply == 0)) [
  | inl e ↦ rw e (returns (inl (ground arith, refl)))
  | inr e ↦ rw e (
      Ensures->>= (total_liquidity-Ensures r) λ total claim.
        Ensures->>= (mul_div-Ensures _ _ _ _) λ wide f.
          Ensures-map (narrow-Ensures _ _) λ a (n, _). inr (total, claim, ground arith, rw n f))
]

current_borrowed_amount-Returns :
    (r : Reserve) (d : ℕ) → IsOwed r d → current_borrowed_amount r ≡ ok d
unfolding current_borrowed_amount
current_borrowed_amount-Returns r d o = Returns-ok (
    Returns->>= (mul_div_floor-Returns _ _ _ (omega arith) o.fits) λ amount f.
      Returns->>= (checked_mul-Returns _ _ _ o.fits) λ exact e.
        Returns->>= (round_up-Returns exact amount (rw e f) (rw e o.fits)) λ rounded c.
          let same : rounded ≡ d =
            omega (arith, c.above, c.previous, o.is_debt.above, o.is_debt.previous) in
          Returns-map (narrow-Returns _ _ (rw same o.small)) λ x n. n ∙ same)

-- `current_borrowed_amount` returns `d` exactly when `d` is the principal times the index over the
-- fixed point, rounded up, the product fits a `u128` and `d` a `u64`.
pub current_borrowed_amount_iff :
    (r : Reserve) (d : ℕ) → (current_borrowed_amount r ≡ ok d) ↔ IsOwed r d
current_borrowed_amount_iff r d =
    (Ensures-ok (current_borrowed_amount-Ensures r), current_borrowed_amount-Returns r d)
