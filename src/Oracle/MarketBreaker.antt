-- ===== src/Oracle/MarketBreaker.antt =====
-- programs/aera/src/oracle/market_breaker.rs: the breaker of a market price.
use aera_v.Common.{
  ℕ, ◌+◌, ◌-◌, ◌*◌, ◌/◌, min, Bool, true, false, ◌||◌, Option, none, some, u128_bound, ltb, leb,
  ◌==◌, if◌then◌else◌,
}
use aera_v.Common.Int.{ℤ, pos, leb_ℤ}
use aera_v.Constants.{bps_denominator}
use aera_v.Math.{abs_diff}
use aera_v.Oracle.Health.{
  OracleHealth, healthy, rate_warning, borrow_frozen, bootstrapping, health_to_u8,
}
use aera_v.Oracle.MarketOracle.{MarketOracleConfig}

pub record Degradation : Type 0 where
  pub pools_disagree : Bool
  pub shallow : Bool

-- `Degradation::any`
unfoldable pub is_degraded : Degradation → Bool
is_degraded d = d.pools_disagree || d.shallow

pub record MarketVerdict : Type 0 where
  pub accepted_price : ℕ
  pub health : OracleHealth
  pub moved_bps : ℕ
  pub rose : Bool
  pub rise_capped : Bool

-- `u128::saturating_mul`
abbrev pub saturating_mul_u128 : ℕ → ℕ → ℕ
saturating_mul_u128 a b = min (a * b) (u128_bound - 1)

-- `moved_bps`
unfoldable pub moved_bps_from : (previous next : ℕ) → ℕ
moved_bps_from previous next =
    if previous == 0
    then 0
    else saturating_mul_u128 (abs_diff previous next) bps_denominator / previous

-- `worse`
unfoldable pub worse : OracleHealth → OracleHealth → OracleHealth
worse a b = if leb (health_to_u8 b) (health_to_u8 a) then a else b

-- The restriction that the age of the newest observation asks for.
unfoldable pub health_of_age : ℤ → MarketOracleConfig → OracleHealth
health_of_age age c =
    if leb_ℤ (pos c.max_observation_age_seconds) age
    then borrow_frozen
    else if leb_ℤ (pos c.warn_age_seconds) age
    then rate_warning
    else healthy

-- The furthest that a rise is admitted.
unfoldable pub rise_bound : (current limit : ℕ) → ℕ
rise_bound current limit = saturating_mul_u128 current (bps_denominator + limit) / bps_denominator

-- `evaluate_market` where a reference is held and the price has not risen
unfoldable pub judge_fall :
    (movement twap : ℕ) (age_health floor : OracleHealth) → Degradation → MarketVerdict
judge_fall movement twap age_health floor d = record {
  accepted_price = twap;
  health = worse (if is_degraded d then worse age_health borrow_frozen else age_health) floor;
  moved_bps = movement;
  rose = false;
  rise_capped = false;
}

-- `evaluate_market` where a reference is held and the price has risen
unfoldable pub judge_rise :
    (movement current twap limit : ℕ) (age_health floor : OracleHealth)
    → Degradation
    → MarketVerdict
judge_rise movement current twap limit age_health floor d =
    if is_degraded d
    then record {
      accepted_price = current;
      health = worse borrow_frozen floor;
      moved_bps = movement;
      rose = true;
      rise_capped = true;
    }
    else if leb movement limit
    then record {
      accepted_price = twap;
      health = worse age_health floor;
      moved_bps = movement;
      rose = true;
      rise_capped = false;
    }
    else record {
      accepted_price = min (rise_bound current limit) twap;
      health = worse borrow_frozen floor;
      moved_bps = movement;
      rose = true;
      rise_capped = true;
    }

abbrev floor_of : Bool → OracleHealth
floor_of bootstrapped = if bootstrapped then healthy else bootstrapping

unfoldable pub evaluate_market :
    (current : Option ℕ) (twap : ℕ) (bootstrapped : Bool) (age_seconds : ℤ)
    → Degradation
    → MarketOracleConfig
    → MarketVerdict
evaluate_market none twap bootstrapped age d c = record {
  accepted_price = twap;
  health = bootstrapping;
  moved_bps = 0;
  rose = false;
  rise_capped = false;
}
evaluate_market (some current) twap bootstrapped age d c =
    let movement = moved_bps_from current twap in
    let age_health = health_of_age age c in
    let floor = floor_of bootstrapped in
    if ltb current twap
    then judge_rise movement current twap c.max_rise_bps_per_window age_health floor d
    else judge_fall movement twap age_health floor d
