-- ===== src/Pool/RoundTrip.antt =====
-- A supply that is withdrawn at once, and a loss that is recognised.
use aera_v.Common.{
  ℕ, ◌+◌, ◌-◌, ◌*◌, ◌<◌, ◌≤◌, ◌≡◌, ap, max, arith, Clock, ok, Ensures-ok, sum_map, inl, inr,
}
use native.Mathlib.Nat.{mul-le-mul, le_of_mul-le-mul_right}
use aera_v.Math.Rounds.{IsFloor}
use aera_v.Reserve.{Reserve, total_liquidity}
use aera_v.Reserve.Debt.{IsClaim, total_liquidity-Ensures}
use aera_v.Tokens.{TokenProgram}
use aera_v.Instructions.Supply.{Supply, handle_supply}
use aera_v.Instructions.Withdraw.{Withdraw, handle_withdraw}
use aera_v.Instructions.AbsorbBadDebt.{AbsorbBadDebt, WriteOff, handle_absorb_bad_debt}
use aera_v.Pool.Rate.{same_debt}
use aera_v.Pool.Trades.{Supplied, Withdrawn, handle_supply-Supplied, handle_withdraw-Withdrawn}
use aera_v.Pool.Interest.{handle_absorb_bad_debt-WrittenOff, WrittenOff-loss}

round_trip_rate :
    (t s amount shares back : ℕ)
    → 0 < s
    → shares * max t 1 ≤ amount * s
    → back * max (s + shares) 1 ≤ shares * (t + amount)
    → back ≤ amount
round_trip_rate t s amount shares back out buy sell =
    let x =
      mul-le-mul {n₁ = shares} {m₁ = t} {n₂ = shares} {m₂ = max t 1} (omega arith) (omega arith) in
    let y =
      mul-le-mul {n₁ = back} {m₁ = s + shares} {n₂ = back} {m₂ = max (s + shares) 1} (omega arith)
        (omega arith) in
    le_of_mul-le-mul_right {k = s + shares} (omega (arith, x, y)) (omega arith)

withdraws_less :
    (c c' : Supply) (w w' : Withdraw) (amount shares back : ℕ)
    → 0 < c.reserve.share_mint_supply
    → Supplied c amount c' shares
    → w.reserve ≡ c'.reserve
    → Withdrawn w shares w' back
    → back ≤ amount
withdraws_less c c' w w' amount shares back out s same x = elim (s.bought) [
  | inl (empty, _) ↦ absurd (omega arith)
  | inr (t, claim, _, f) ↦
      let claim' : IsClaim c'.reserve x.total = rw (same) at (x.claim) in
      let redeemed : IsFloor (shares * x.total) (max c'.reserve.share_mint_supply 1) back =
        rw (same) at (x.redeemed) in
      let d = same_debt c.reserve c'.reserve t x.total s.principal s.index claim claim' in
      let grown : x.total ≡ t + amount =
        omega (arith, claim.balance, claim'.balance, d, s.available, s.fees) in
      let sold : back * max (c.reserve.share_mint_supply + shares) 1 ≤ shares * (t + amount) =
        rw (← s.supply, ← grown) redeemed.below in
      round_trip_rate t c.reserve.share_mint_supply amount shares back out f.below sold
]

-- Whoever supplies to a reserve with shares out and withdraws the minted shares from the reserve
-- that the supply left does not get more than was supplied: the liquidity of the reserve is at
-- least what it was before.
pub supply_then_withdraw :
    {L : Type 0} (tokens : TokenProgram L) (clock clock' : Clock) (c c' : Supply) (w w' : Withdraw)
    (amount : ℕ) (l l₁ l₂ l₃ : L)
    → 0 < c.reserve.share_mint_supply
    → handle_supply tokens clock c amount l ≡ ok (c', l₁)
    → w.reserve ≡ c'.reserve
    → handle_withdraw tokens clock' w
        (c'.reserve.share_mint_supply - c.reserve.share_mint_supply)
        l₂
      ≡ ok (w', l₃)
    → c.reserve.available_liquidity ≤ w'.reserve.available_liquidity
supply_then_withdraw tokens clock clock' c c' w w' amount l l₁ l₂ l₃ out e same e' =
    let (shares, s) = Ensures-ok (handle_supply-Supplied tokens clock c amount l) e in
    let (back, x) = Ensures-ok (handle_withdraw-Withdrawn tokens clock' w _ l₂) e' in
    let all : c'.reserve.share_mint_supply - c.reserve.share_mint_supply ≡ shares =
      omega (arith, s.supply) in
    let less = withdraws_less c c' w w' amount shares back out s same (rw (all) at x) in
    let start = ap (λ (r : Reserve). r.available_liquidity) same in
    omega (arith, less, start, x.available, s.available)

-- A write-off takes from the suppliers' claim, where it is computed before and after, what its event
-- reports, or one base unit less, and only from an obligation that holds no collateral shares.
pub handle_absorb_bad_debt-loss :
    (clock : Clock) (c c' : AbsorbBadDebt) (event : WriteOff) (t t' : ℕ)
    → handle_absorb_bad_debt clock c ≡ ok (c', event)
    → total_liquidity c.reserve ≡ ok t
    → total_liquidity c'.reserve ≡ ok t'
    → (sum_map (λ d. d.deposited_shares) c.obligation.deposits ≡ 0)
      × (t ≤ t' + event.amount)
      × (t' + event.amount ≤ t + 1)
handle_absorb_bad_debt-loss clock c c' event t t' e a b =
    let w = Ensures-ok (handle_absorb_bad_debt-WrittenOff clock c) e in
    let (low, high) =
      WrittenOff-loss c c'.reserve event t t' w (Ensures-ok (total_liquidity-Ensures _) a)
        (Ensures-ok (total_liquidity-Ensures _) b) in
    (w.no_collateral, low, high)
