-- ===== src/Pool/Rate.antt =====
-- The exchange rate of a reserve's share token, compared across a step.
use aera_v.Common.{ℕ, ◌+◌, ◌*◌, ◌<◌, ◌≤◌, ◌≡◌, max, arith}
use native.Mathlib.Nat.{mul-le-mul, mul-le-mul_right}
use aera_v.Constants.{fixed_point_scale}
use aera_v.Math.Rounds.{IsCeil}
use aera_v.Reserve.{Reserve}
use aera_v.Reserve.Debt.{IsDebt, IsClaim}

-- A share is worth no less after a step than before: `total / supply` does not fall, stated without
-- the division, while any share is out.
abbrev pub NotDiluted : Reserve → Reserve → Type 0
NotDiluted r r' =
    (t t' : ℕ)
    → 0 < r.share_mint_supply
    → IsClaim r t
    → IsClaim r' t'
    → t * r'.share_mint_supply ≤ t' * r.share_mint_supply

-- The shares are untouched, and the claim behind them has not shrunk.
pub record IsKept (r r' : Reserve) : Type 0 where
  pub supply : r'.share_mint_supply ≡ r.share_mint_supply
  pub config : r'.config ≡ r.config
  pub claim : (t t' : ℕ) → IsClaim r t → IsClaim r' t' → t ≤ t'

-- A share is worth no less, under the same configuration.
pub record IsFair (r r' : Reserve) : Type 0 where
  pub config : r'.config ≡ r.config
  pub worth : NotDiluted r r'

pub IsKept-IsFair : (r r' : Reserve) → IsKept r r' → IsFair r r'
IsKept-IsFair r r' k = record {
  config = k.config;
  worth = λ t t' out a b. rw (k.supply) (mul-le-mul_right r.share_mint_supply (k.claim t t' a b));
}

-- A deposit of `amount` for `shares`, and a redemption, at no better than the rate.
pub dilution_buy :
    (t s amount shares : ℕ) → shares * max t 1 ≤ amount * s → t * (s + shares) ≤ (t + amount) * s
dilution_buy t s amount shares h =
    let k =
      mul-le-mul {n₁ = shares} {m₁ = t} {n₂ = shares} {m₂ = max t 1} (omega arith) (omega arith) in
    omega (arith, k)

pub dilution_sell :
    (t' rest amount shares : ℕ)
    → amount * max (rest + shares) 1 ≤ shares * (t' + amount)
    → (t' + amount) * rest ≤ t' * (rest + shares)
dilution_sell t' rest amount shares h =
    let k =
      mul-le-mul {n₁ = amount} {m₁ = rest + shares} {n₂ = amount} {m₂ = max (rest + shares) 1}
        (omega arith) (omega arith) in
    omega (arith, k)

-- The debt when principal is added for an amount drawn, or removed for an amount repaid.
pub debt_drawn :
    (p added i amount d d' : ℕ)
    → IsDebt p i d
    → IsDebt (p + added) i d'
    → IsCeil (amount * fixed_point_scale) i added
    → d + amount ≤ d'
debt_drawn p added i amount d d' before after c =
    omega (arith, before.previous, after.above, c.above)

pub debt_repaid :
    (left removed i amount d d' : ℕ)
    → IsDebt (left + removed) i d
    → IsDebt left i d'
    → removed * i ≤ amount * fixed_point_scale
    → d ≤ d' + amount
debt_repaid left removed i amount d d' before after c =
    omega (arith, before.previous, after.above, c)

-- A debt does not fall when its index rises.
pub debt_grown : (p i i' d d' : ℕ) → i ≤ i' → IsDebt p i d → IsDebt p i' d' → d ≤ d'
debt_grown p i i' d d' h before after =
    let k = mul-le-mul {n₁ = p} {m₁ = i} {n₂ = p} {m₂ = i'} (omega arith) h in
    omega (arith, k, before.previous, after.above)

-- A debt is determined by its principal and its index.
pub debt_unique : (p i d d' : ℕ) → IsDebt p i d → IsDebt p i d' → d ≡ d'
debt_unique p i d d' a b = omega (arith, a.previous, a.above, b.previous, b.above)

-- A reserve whose debt is untouched owes the same.
pub same_debt :
    (r r' : Reserve) (t t' : ℕ)
    → r'.borrowed_principal ≡ r.borrowed_principal
    → r'.borrow_index ≡ r.borrow_index
    → (a : IsClaim r t) → (b : IsClaim r' t') → a.debt ≡ b.debt
same_debt r r' t t' p i a b =
    debt_unique r.borrowed_principal r.borrow_index a.debt b.debt a.is_debt
      (rw (p, i) at (b.is_debt))
