-- ===== src/Math/Rounds.antt =====
-- What the divisions of math.rs return, as the two facts that pin a rounded quotient.
use native.Mathlib.Nat.{lt_of_mul-lt-mul_right}
use aera_v.Common.{
  ℕ, suc, ◌+◌, ◌-◌, ◌*◌, ◌/◌, ◌^◌, ◌<◌, ◌≤◌, ◌≡◌, refl, false, ◌==◌, require-Ensures,
  require-Returns, u64_bound, u128_bound, checked_mul-Ensures, checked_mul-Returns,
  checked_add-Ensures, checked_sub-Ensures, checked_sub-Returns, checked_add-Returns, Ensures-map,
  narrow-Ensures, Ensures, Ensures->>=, Ensures-if, Ensures-unless, Returns, Returns->>=,
  Returns-map, Returns-unless, lt→ltb, ltb→lt, arith,
}
use aera_v.Math.{
  ten_pow, checked_div, mul_div_floor, mul_div_ceil, mul_div, Rounding, down, up, market_value,
  value_to_amount,
}

-- `q` is `n / d` rounded down.
pub record IsFloor (n d q : ℕ) : Type 0 where
  pub positive : 0 < d
  pub below : q * d ≤ n
  pub next : n < q * d + d

-- `q` is `n / d` rounded up.
pub record IsCeil (n d q : ℕ) : Type 0 where
  pub positive : 0 < d
  pub above : n ≤ q * d
  pub previous : q * d < n + d

pub IsFloor-div : (n d : ℕ) → 0 < d → IsFloor n d (n / d)
IsFloor-div n d h = omega arith

pub IsCeil-div : (n d : ℕ) → 0 < d → IsCeil n d ((n + (d - 1)) / d)
IsCeil-div n d h = omega arith

-- Comparing a rounded quotient with a number.
module _ {n d q : ℕ} where
  pub le-floor : (x : ℕ) → IsFloor n d q → x * d ≤ n → x ≤ q
  le-floor x f h =
      omega (arith, lt_of_mul-lt-mul_right d {m = x} {n = suc q} (omega (arith, f.next)))

  pub floor-lt : (x : ℕ) → IsFloor n d q → n < x * d → q < x
  floor-lt x f h = lt_of_mul-lt-mul_right d {m = q} {n = x} (omega (arith, f.below))

  pub ceil-le : (x : ℕ) → IsCeil n d q → n ≤ x * d → q ≤ x
  ceil-le x c h =
      omega (arith, lt_of_mul-lt-mul_right d {m = q} {n = suc x} (omega (arith, c.previous)))

  pub lt-ceil : (x : ℕ) → IsCeil n d q → x * d < n → x < q
  lt-ceil x c h = lt_of_mul-lt-mul_right d {m = x} {n = q} (omega (arith, c.above))

pub floor_mono : {n m d q r : ℕ} → IsFloor n d q → IsFloor m d r → n ≤ m → q ≤ r
floor_mono {q = q} f g h = le-floor q g (omega (arith, f.below))

pub ceil_mono : {n m d q r : ℕ} → IsCeil n d q → IsCeil m d r → n ≤ m → q ≤ r
ceil_mono {r = r} f g h = ceil-le r f (omega (arith, g.above))

pub floor-le-ceil : {n d q r : ℕ} → IsFloor n d q → IsCeil n d r → q ≤ r
floor-le-ceil {q = q} {r = r} f c =
    omega (arith, floor-lt (suc r) f (omega (arith, c.above, c.positive)))

positive : (d : ℕ) → (d == 0) ≡ false → 0 < d
positive d h = ground arith

checked_div-Ensures : (n d : ℕ) → Ensures (λ q. (q ≡ n / d) × (0 < d)) (checked_div n d)
unfolding checked_div
checked_div-Ensures n d = Ensures-unless _ _ _ (λ e. (refl, positive d e))

checked_div-Returns : (n d : ℕ) → 0 < d → Returns (λ q. q ≡ n / d) (checked_div n d)
unfolding checked_div
checked_div-Returns n d h = Returns-unless _ _ (ground arith) refl

-- A floor division that returns gives the quotient rounded down.
pub mul_div_floor-Ensures : (a b d : ℕ) → Ensures (IsFloor (a * b) d) (mul_div_floor a b d)
unfolding mul_div_floor
mul_div_floor-Ensures a b d = Ensures->>= (require-Ensures _ _) λ _ pos.
    Ensures->>= (checked_mul-Ensures _ _ _) λ product (e, _).
      Ensures-map (checked_div-Ensures _ _) λ q (f, _). rw (f, e) (IsFloor-div _ _ (ltb→lt _ _ pos))

-- It returns whenever the product fits.
pub mul_div_floor-Returns :
    (a b d : ℕ) → 0 < d → a * b < u128_bound → Returns (IsFloor (a * b) d) (mul_div_floor a b d)
unfolding mul_div_floor
mul_div_floor-Returns a b d pos small = Returns->>= (require-Returns _ (lt→ltb _ _ pos)) λ _ _.
    Returns->>= (checked_mul-Returns _ _ _ small)
      λ product e. Returns-map (checked_div-Returns _ _ pos) λ q f. rw (f, e) (IsFloor-div _ _ pos)

pub mul_div_ceil-Ensures : (a b d : ℕ) → Ensures (IsCeil (a * b) d) (mul_div_ceil a b d)
unfolding mul_div_ceil
mul_div_ceil-Ensures a b d = Ensures->>= (require-Ensures _ _) λ _ pos.
    Ensures->>= (checked_mul-Ensures _ _ _) λ product (e, _).
      Ensures->>= (checked_sub-Ensures _ _) λ rounding (r, _).
        Ensures->>= (checked_add-Ensures _ _ _) λ total (t, _).
          Ensures-map (checked_div-Ensures _ _)
            λ q (f, _). rw (f, t, e, r) (IsCeil-div _ _ (ltb→lt _ _ pos))

pub mul_div_ceil-Returns :
    (a b d : ℕ)
    → 0 < d
    → a * b + (d - 1) < u128_bound
    → Returns (IsCeil (a * b) d) (mul_div_ceil a b d)
unfolding mul_div_ceil
mul_div_ceil-Returns a b d pos small = Returns->>= (require-Returns _ (lt→ltb _ _ pos)) λ _ _.
    Returns->>= (checked_mul-Returns _ _ _ (omega arith)) λ product e.
      Returns->>= (checked_sub-Returns _ _ pos) λ rounding r.
        Returns->>= (checked_add-Returns _ _ _ (rw (e, r) small)) λ total t.
          Returns-map (checked_div-Returns _ _ pos) λ q f. rw (f, t, e, r) (IsCeil-div _ _ pos)

-- `ten_pow` is the power of ten.
pub ten_pow-Ensures : (exponent : ℕ) → Ensures (λ r. r ≡ 10 ^ exponent) (ten_pow exponent)
unfolding ten_pow
ten_pow-Ensures exponent = Ensures-if _ _ _ (λ _. refl)

-- A quotient rounded the way that is asked for.
abbrev pub IsRounded : Rounding → ℕ → ℕ → ℕ → Type 0
IsRounded down = IsFloor
IsRounded up = IsCeil

pub mul_div-Ensures : (a b d : ℕ) (r : Rounding) → Ensures (IsRounded r (a * b) d) (mul_div a b d r)
unfolding mul_div
mul_div-Ensures a b d down = mul_div_floor-Ensures a b d
mul_div-Ensures a b d up = mul_div_ceil-Ensures a b d

-- A market value is `amount * price / 10 ^ decimals`, rounded as asked.
pub market_value-Ensures :
    (amount decimals price : ℕ) (r : Rounding)
    → Ensures (IsRounded r (amount * price) (10 ^ decimals)) (market_value amount decimals price r)
unfolding market_value
market_value-Ensures amount decimals price r =
    Ensures->>= (ten_pow-Ensures _) λ divisor e. rw (← e) (mul_div-Ensures _ _ _ _)

-- An amount is `value * 10 ^ decimals / price`, rounded as asked, and fits a `u64`.
pub value_to_amount-Ensures :
    (value decimals price : ℕ) (r : Rounding)
    → Ensures
        (λ amount. IsRounded r (value * 10 ^ decimals) price amount × (amount < u64_bound))
        (value_to_amount value decimals price r)
unfolding value_to_amount
value_to_amount-Ensures value decimals price r = Ensures->>= (ten_pow-Ensures _) λ multiplier e.
    Ensures->>= (mul_div-Ensures _ _ _ _) λ wide f.
      Ensures-map (narrow-Ensures _ _) λ amount (g, small). rw (← e, g) (f, rw (← g) (omega arith))
