-- ===== src/Oracle/MarketCatchup.antt =====
-- A price that lasts is accepted in the end by oracle/market_breaker.rs.
use native.Mathlib.Nat.{mul-le-mul_left, mul-le-mul_right}
use aera_v.Common.{
  ℕ, zero, suc, ◌+◌, ◌*◌, ◌<◌, ◌≤◌, ◌≡◌, refl, true, some, ltb, ltb→lt, arith, Bool-cases, inl, inr,
  ◌⊎◌, u128_bound,
}
use aera_v.Common.Int.{pos}
use aera_v.Math.Rounds.{IsFloor-div, floor_mono}
use aera_v.Oracle.MarketOracle.{MarketOracleConfig}
use aera_v.Oracle.MarketBreaker.{is_degraded, rise_bound, evaluate_market}
use aera_v.Oracle.MarketRise.{gain, rise_bound-gain, fall-accepted, rise-cases, no_degradation}

-- What the breaker has accepted after a number of readings of the same price, the pools in
-- agreement and deep enough.
pub follow : (readings current twap : ℕ) → MarketOracleConfig → ℕ
follow zero current twap c = current
follow (suc n) current twap c =
    follow n ((evaluate_market (some current) twap true (pos 0) no_degradation c).accepted_price)
      twap c

gain_mono : (a b limit : ℕ) → a ≤ b → gain a limit ≤ gain b limit
unfolding gain
gain_mono a b limit h =
    floor_mono (IsFloor-div (a * limit) 10_000 (omega arith))
      (IsFloor-div (b * limit) 10_000 (omega arith)) (mul-le-mul_right limit h)

follow-reached : (n twap : ℕ) (c : MarketOracleConfig) → follow n twap twap c ≡ twap
unfolding follow
follow-reached zero twap c = refl
follow-reached (suc n) twap c =
    rw (fall-accepted twap twap true (pos 0) no_degradation c (omega arith))
      (follow-reached n twap c)

next_reading :
    (current twap : ℕ) (c : MarketOracleConfig)
    → current < twap
    → twap * (10_000 + c.max_rise_bps_per_window) < u128_bound
    → ((evaluate_market (some current) twap true (pos 0) no_degradation c).accepted_price ≡ twap)
      ⊎ (((evaluate_market (some current) twap true (pos 0) no_degradation c).accepted_price < twap)
          × (current + gain current c.max_rise_bps_per_window
              ≤ (evaluate_market (some current) twap true (pos 0) no_degradation c).accepted_price))
unfolding is_degraded
next_reading current twap c lt h =
    let limit = c.max_rise_bps_per_window in
    elim (rise-cases current twap true (pos 0) no_degradation c lt refl) [
      | inl (_, e) ↦ inl e
      | inr e ↦
          let m : current * (10_000 + limit) ≤ twap * (10_000 + limit) =
            mul-le-mul_right (10_000 + limit) (omega arith) in
          let g = rise_bound-gain current limit (omega arith) in
          elim (Bool-cases (ltb (rise_bound current limit) twap)) [
            | inl f ↦ inr (rw e (ground arith))
            | inr f ↦ inl (rw e (ground arith))
          ]
    ]

-- A price that stays where it is, at or above the reference, is accepted in full after enough
-- readings, with the pools in agreement and deep enough: as many as make up the distance when each
-- gains the rise limit's part of the first reference, rounded down. The price times the limit's
-- multiplier stays within a u128.
pub follow-converges :
    (readings current twap : ℕ) (c : MarketOracleConfig)
    → current ≤ twap
    → twap * (10_000 + c.max_rise_bps_per_window) < u128_bound
    → twap ≤ current + readings * gain current c.max_rise_bps_per_window
    → follow readings current twap c ≡ twap
unfolding follow
follow-converges zero current twap c le h k = omega arith
follow-converges (suc n) current twap c le h k = elim (Bool-cases (ltb current twap)) [
  | inl e ↦
      let limit = c.max_rise_bps_per_window in
      let next =
        (evaluate_market (some current) twap true (pos 0) no_degradation c).accepted_price in
      elim (next_reading current twap c (ltb→lt _ _ e) h) [
        | inl r ↦ rw r (follow-reached n twap c)
        | inr (below, gained) ↦
            let m : n * gain current limit ≤ n * gain next limit =
              mul-le-mul_left n (gain_mono current next limit (omega arith)) in
            let k' : twap ≤ current + (gain current limit + n * gain current limit) = omega arith in
            follow-converges n next twap c (omega arith) h (omega arith)
      ]
  | inr e ↦
      let same : current ≡ twap = ground arith in
      rw (fall-accepted current twap true (pos 0) no_degradation c (omega arith))
        (follow-reached n twap c)
]
