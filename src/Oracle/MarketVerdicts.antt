-- ===== src/Oracle/MarketVerdicts.antt =====
-- What a verdict of oracle/market_breaker.rs accepts.
use aera_v.Common.{
  ℕ, ◌*◌, ◌<◌, ◌≤◌, ◌≡◌, refl, Bool, true, false, Option, none, some, ltb, ltb→lt, arith,
  Bool-cases, inl, inr, ◌⊎◌, u128_bound,
}
use aera_v.Common.Int.{ℤ}
use aera_v.Oracle.Health.{RiskAction, permits}
use aera_v.Oracle.MarketOracle.{MarketOracleConfig}
use aera_v.Oracle.MarketBreaker.{Degradation, is_degraded, judge_rise, evaluate_market}
use aera_v.Oracle.MarketRise.{
  fall-accepted, degraded-held, no_degradation, sound-ge, rise-limited, IsLimitedRise,
}
use aera_v.Oracle.MarketGate.{permits_frozen}

-- Against a reference above 0 and for a price below a 10000th of the u128 range, the breaker takes
-- a price that is not above the reference as it is; where the pools disagree or are shallow it
-- keeps the reference against a higher price and permits no borrow; and of any other rise it takes
-- no less than the reference, no more than the price, and no more than the limit and one basis
-- point.
pub evaluate_market-IsCautious :
    (current twap : ℕ) (b : Bool) (age : ℤ) (d : Degradation) (c : MarketOracleConfig)
    → 0 < current
    → twap * 10_000 < u128_bound
    → ((twap ≤ current) × ((evaluate_market (some current) twap b age d c).accepted_price ≡ twap))
      ⊎ ((current < twap)
          × (is_degraded d ≡ true)
          × ((evaluate_market (some current) twap b age d c).accepted_price ≡ current)
          × (permits (evaluate_market (some current) twap b age d c).health RiskAction.borrow
              ≡ false))
      ⊎ ((current < twap)
          × (is_degraded d ≡ false)
          × IsLimitedRise current twap c.max_rise_bps_per_window
              (evaluate_market (some current) twap b age d c))
unfolding evaluate_market judge_rise
evaluate_market-IsCautious current twap b age d c p h = elim (Bool-cases (ltb current twap)) [
  | inl e ↦ elim (Bool-cases (is_degraded d)) [
    | inl g ↦
        let held = degraded-held current twap b age d c (ltb→lt _ _ e) g in
        inr (inl (ltb→lt _ _ e, g, held, rw (e, g) (permits_frozen _)))
    | inr g ↦ inr (inr (ltb→lt _ _ e, g, rise-limited current twap b age d c p (ltb→lt _ _ e) g h))
  ]
  | inr e ↦
      let le : twap ≤ current = ground arith in inl (le, fall-accepted current twap b age d c le)
]

undegraded :
    (current twap : ℕ) (b : Bool) (age : ℤ) (d : Degradation) (c : MarketOracleConfig)
    → current < twap
    → is_degraded d ≡ false
    → evaluate_market (some current) twap b age d c
      ≡ evaluate_market (some current) twap b age no_degradation c
unfolding evaluate_market judge_rise is_degraded
undegraded current twap b age d c h g =
    let e : ltb current twap ≡ true = ground arith in rw (e, g) refl

some-degraded :
    (current twap : ℕ) (b : Bool) (age : ℤ) (d : Degradation) (c : MarketOracleConfig)
    → twap * 10_000 < u128_bound
    → (evaluate_market (some current) twap b age d c).accepted_price
      ≤ (evaluate_market (some current) twap b age no_degradation c).accepted_price
unfolding is_degraded
some-degraded current twap b age d c h = elim (Bool-cases (ltb current twap)) [
  | inl e ↦ elim (Bool-cases (is_degraded d)) [
    | inl g ↦
        let kept = sound-ge current twap b age no_degradation c (ltb→lt _ _ e) refl h in
        rw (degraded-held current twap b age d c (ltb→lt _ _ e) g) kept
    | inr g ↦ rw (undegraded current twap b age d c (ltb→lt _ _ e) g) (omega arith)
  ]
  | inr e ↦
      let le : twap ≤ current = ground arith in
      rw
        (
          fall-accepted current twap b age d c le,
          fall-accepted current twap b age no_degradation c le,
        )
        (omega arith)
]

-- Worse information never raises the price: what the breaker accepts when the pools disagree or
-- are shallow is at most what it accepts when neither holds, for a price below a 10000th of the
-- u128 range.
pub evaluate_market-degraded :
    (current : Option ℕ) (twap : ℕ) (b : Bool) (age : ℤ) (d : Degradation) (c : MarketOracleConfig)
    → twap * 10_000 < u128_bound
    → (evaluate_market current twap b age d c).accepted_price
      ≤ (evaluate_market current twap b age no_degradation c).accepted_price
unfolding evaluate_market
evaluate_market-degraded none twap b age d c h = omega arith
evaluate_market-degraded (some current) twap b age d c h = some-degraded current twap b age d c h
