-- ===== src/Oracle/MarketRise.antt =====
-- How far oracle/market_breaker.rs lets the price of a market rise.
use native.Mathlib.Nat.{mul-le-mul_right}
use aera_v.Common.{
  ℕ, ◌+◌, ◌-◌, ◌*◌, ◌/◌, ◌<◌, ◌≤◌, ◌≡◌, refl, min, Bool, true, false, some, ltb, leb, leb→le, arith,
  Bool-cases, inl, inr, ◌⊎◌, u128_bound, ◌==◌,
}
use aera_v.Common.Int.{ℤ}
use aera_v.Math.Rounds.{IsFloor-div, le-floor}
use aera_v.Oracle.MarketOracle.{MarketOracleConfig}
use aera_v.Oracle.MarketBreaker.{
  Degradation, is_degraded, MarketVerdict, moved_bps_from, rise_bound, judge_fall, judge_rise,
  evaluate_market, saturating_mul_u128,
}

-- A capped rise gains at least the limit's part of the reference, rounded down.
unfoldable pub gain : (current limit : ℕ) → ℕ
gain current limit = current * limit / 10_000

pub rise_bound-gain :
    (current limit : ℕ)
    → current * (10_000 + limit) < u128_bound
    → current + gain current limit ≤ rise_bound current limit
unfolding rise_bound gain
rise_bound-gain current limit h =
    let g = IsFloor-div (current * limit) 10_000 (omega arith) in
    let b = IsFloor-div (saturating_mul_u128 current (10_000 + limit)) 10_000 (omega arith) in
    let below = g.below in
    let fits : saturating_mul_u128 current (10_000 + limit) ≡ current * (10_000 + limit) =
      ground arith in
    let spread : current * (10_000 + limit) ≡ current * 10_000 + current * limit = omega arith in
    le-floor (current + current * limit / 10_000) b (omega arith)

-- A movement within the limit is a price within the limit, and one basis point.
pub moved_bps_from-within :
    (current twap limit : ℕ)
    → 0 < current
    → current < twap
    → twap * 10_000 < u128_bound
    → moved_bps_from current twap ≤ limit
    → twap * 10_000 ≤ current * (10_000 + limit + 1)
unfolding moved_bps_from
moved_bps_from-within current twap limit p lt fits h =
    let z : (current == 0) ≡ false = ground arith in
    let h' = rw z at h in
    let f = IsFloor-div (saturating_mul_u128 (twap - current) 10_000) current p in
    let next = f.next in
    let q = saturating_mul_u128 (twap - current) 10_000 / current in
    let exact : saturating_mul_u128 (twap - current) 10_000 ≡ (twap - current) * 10_000 =
      ground arith in
    let d : leb current twap ≡ true = ground arith in
    let h2 : q ≤ limit = rw d at h' in
    let m : q * current ≤ limit * current = mul-le-mul_right current h2 in
    let spread : current * (10_000 + limit + 1) ≡ current * 10_000 + limit * current + current =
      grind arith in
    omega arith

pub rise_bound-le :
    (current limit : ℕ) → rise_bound current limit * 10_000 ≤ current * (10_000 + limit)
unfolding rise_bound
rise_bound-le current limit =
    let f = IsFloor-div (saturating_mul_u128 current (10_000 + limit)) 10_000 (omega arith) in
    let b = f.below in
    let c : saturating_mul_u128 current (10_000 + limit) ≤ current * (10_000 + limit) =
      ground arith in
    omega arith

module _ (current twap : ℕ) (bootstrapped : Bool) (age : ℤ) (d : Degradation)
    (c : MarketOracleConfig) where
  abbrev verdict : MarketVerdict
  verdict = evaluate_market (some current) twap bootstrapped age d c

  pub fall-accepted : twap ≤ current → verdict.accepted_price ≡ twap
  unfolding evaluate_market judge_fall
  fall-accepted h = let e : ltb current twap ≡ false = ground arith in rw e refl

  pub degraded-held : current < twap → is_degraded d ≡ true → verdict.accepted_price ≡ current
  unfolding evaluate_market judge_rise
  degraded-held h g = let e : ltb current twap ≡ true = ground arith in rw (e, g) refl

  pub rise-cases :
      current < twap
      → is_degraded d ≡ false
      → ((moved_bps_from current twap ≤ c.max_rise_bps_per_window)
          × (verdict.accepted_price ≡ twap))
        ⊎ (verdict.accepted_price ≡ min (rise_bound current c.max_rise_bps_per_window) twap)
  unfolding evaluate_market judge_rise
  rise-cases h g =
      let e : ltb current twap ≡ true = ground arith in
      elim (Bool-cases (leb (moved_bps_from current twap) c.max_rise_bps_per_window)) [
        | inl m ↦ rw (e, g, m) (inl (leb→le _ _ m, refl))
        | inr m ↦ rw (e, g, m) (inr refl)
      ]

abbrev pub no_degradation : Degradation
no_degradation = record { pools_disagree = false; shallow = false }

rise_bound-ge :
    (current limit twap : ℕ)
    → current < twap
    → twap * 10_000 < u128_bound
    → current ≤ rise_bound current limit
unfolding rise_bound
rise_bound-ge current limit twap lt h =
    let b = IsFloor-div (saturating_mul_u128 current (10_000 + limit)) 10_000 (omega arith) in
    let spread : current * (10_000 + limit) ≡ current * 10_000 + current * limit = omega arith in
    let fits : current * 10_000 ≤ saturating_mul_u128 current (10_000 + limit) = ground arith in
    le-floor current b fits

pub sound-ge :
    (current twap : ℕ) (b : Bool) (age : ℤ) (d : Degradation) (c : MarketOracleConfig)
    → current < twap
    → is_degraded d ≡ false
    → twap * 10_000 < u128_bound
    → current ≤ (evaluate_market (some current) twap b age d c).accepted_price
sound-ge current twap b age d c lt g h = elim (rise-cases current twap b age d c lt g) [
  | inl (_, e) ↦ rw e (omega arith)
  | inr e ↦ let k = rise_bound-ge current c.max_rise_bps_per_window twap lt h in rw e (ground arith)
]

-- A price that has risen and that the pools vouch for.
pub record IsLimitedRise (current twap limit : ℕ) (v : MarketVerdict) : Type 0 where
  pub kept : current ≤ v.accepted_price
  pub below_twap : v.accepted_price ≤ twap
  pub limited : v.accepted_price * 10_000 ≤ current * (10_000 + limit + 1)

pub rise-limited :
    (current twap : ℕ) (b : Bool) (age : ℤ) (d : Degradation) (c : MarketOracleConfig)
    → 0 < current
    → current < twap
    → is_degraded d ≡ false
    → twap * 10_000 < u128_bound
    → IsLimitedRise current twap c.max_rise_bps_per_window
        (evaluate_market (some current) twap b age d c)
rise-limited current twap b age d c p lt g h =
    let limit = c.max_rise_bps_per_window in
    let kept = sound-ge current twap b age d c lt g h in
    elim (rise-cases current twap b age d c lt g) [
      | inl (m, e) ↦
          let bound = moved_bps_from-within current twap limit p lt h m in
          record { kept = kept; below_twap = rw e (omega arith); limited = rw e bound }
      | inr e ↦
          let bound = rise_bound-le current limit in
          let more : current * (10_000 + limit + 1) ≡ current * (10_000 + limit) + current =
            omega arith in
          record { kept = kept; below_twap = rw e (ground arith); limited = rw e (ground arith) }
    ]
