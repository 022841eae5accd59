-- ===== src/Safety/PoolPrice.antt =====
-- The price that `read_pool` of instructions/refresh_market_oracle.rs takes from a pool.
use native.Mathlib.Nat.{mul-le-mul_right, pow-suc}
use aera_v.Common.{
  ℕ, zero, suc, ◌+◌, ◌-◌, ◌*◌, ◌^◌, ◌<◌, ◌≤◌, ◌≡◌, inl, inr, leb, ok, arith, Bool-cases, Ensures,
  Ensures->>=, Ensures-ok, Ensures-map, checked_mul-Ensures,
}
use aera_v.Math.Rounds.{IsFloor, mul_div_floor-Ensures, ten_pow-Ensures}
use aera_v.Instructions.RefreshMarket.{pool_price}

pow_split : (a b : ℕ) → 10 ^ (a + b) ≡ 10 ^ a * 10 ^ b
pow_split a zero = let e : a + 0 ≡ a = omega arith in rw e (omega arith)
pow_split a (suc b) =
    let h = pow_split a b in
    let e : a + suc b ≡ suc (a + b) = omega arith in
    rw (e, pow-suc 10 (a + b), pow-suc 10 b) (grind arith)

pow_positive : (a : ℕ) → 0 < 10 ^ a
pow_positive zero = omega arith
pow_positive (suc a) = let h = pow_positive a in rw (pow-suc 10 a) (omega arith)

IsFloor-scale : {n d q : ℕ} (k : ℕ) → 0 < k → IsFloor n d q → IsFloor (n * k) (d * k) q
IsFloor-scale {n} {d} {q} k p f =
    let low : q * d * k ≤ n * k = mul-le-mul_right k (f.below) in
    let high : suc n * k ≤ (q * d + d) * k = mul-le-mul_right k (f.next) in
    let one : 1 * k ≤ d * k = mul-le-mul_right k (f.positive) in
    let e : q * (d * k) ≡ q * d * k = grind arith in
    let g : (q * d + d) * k ≡ q * d * k + d * k = grind arith in
    let s : suc n * k ≡ n * k + k = grind arith in
    record { positive = omega arith; below = rw e low; next = rw e (omega arith) }

pool_price-Ensures :
    (cd qd c q : ℕ)
    → Ensures
        (IsFloor (q * 10 ^ cd * 1_000_000_000_000_000_000) (c * 10 ^ qd))
        (pool_price cd qd c q)
unfolding pool_price
pool_price-Ensures cd qd c q = Ensures->>= (checked_mul-Ensures _ _ _) λ n (e, _).
    elim (Bool-cases (leb qd cd)) [
      | inl h ↦ rw h (
          Ensures->>= (ten_pow-Ensures _) λ power t.
            Ensures->>= (checked_mul-Ensures _ _ _) λ scaled (s, _).
              Ensures-map (mul_div_floor-Ensures _ _ _) λ p f.
                let apart : cd ≡ (cd - qd) + qd = ground arith in
                let split = pow_split (cd - qd) qd in
                let k = IsFloor-scale (10 ^ qd) (pow_positive qd) f in
                let same : scaled * 1 * 10 ^ qd ≡ q * 10 ^ cd * 1_000_000_000_000_000_000 =
                  rw (s, e, t, apart, split) (grind arith) in
                rw (← same) k)
      | inr h ↦ rw h (
          Ensures->>= (ten_pow-Ensures _) λ power t.
            Ensures->>= (checked_mul-Ensures _ _ _) λ scaled (s, _).
              Ensures-map (mul_div_floor-Ensures _ _ _) λ p f.
                let apart : qd ≡ (qd - cd) + cd = ground arith in
                let split = pow_split (qd - cd) cd in
                let k = IsFloor-scale (10 ^ cd) (pow_positive cd) f in
                let over : n * 1 * 10 ^ cd ≡ q * 10 ^ cd * 1_000_000_000_000_000_000 =
                  rw e (grind arith) in
                let under : scaled * 10 ^ cd ≡ c * 10 ^ qd =
                  rw (s, t, apart, split) (grind arith) in
                rw (← over, ← under) k)
    ]

-- Where a pool's price is found, it is the one of the formula that is not cancelled: the quote
-- reserve times 10 to the collateral's decimals times 10 ^ 18, over the collateral reserve times 10
-- to the quote's decimals, rounded down.
pub pool_price-IsFloor :
    (collateral_decimals quote_decimals collateral_reserve quote_reserve price : ℕ)
    → pool_price collateral_decimals quote_decimals collateral_reserve quote_reserve ≡ ok price
    → IsFloor
        (quote_reserve * 10 ^ collateral_decimals * 1_000_000_000_000_000_000)
        (collateral_reserve * 10 ^ quote_decimals)
        price
pool_price-IsFloor cd qd c q price = Ensures-ok (pool_price-Ensures cd qd c q)
