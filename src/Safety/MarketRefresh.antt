-- ===== src/Safety/MarketRefresh.antt =====
-- What a refresh of a market oracle, instructions/refresh_market_oracle.rs, does to its reference.
use aera_v.Common.{
  ℕ, ◌+◌, ◌*◌, ◌<◌, ◌≤◌, ◌≡◌, inl, inr, refl, Bool, true, false, Option, none, some, ok, ltb→lt,
  if◌then◌else◌, Clock, Ensures, Ensures->>=, Ensures-ok, Ensures-itself, Ensures-skip, returns,
  arith, u128_bound, set,
}
use aera_v.Common.Int.{ℤ}
use aera_v.Oracle.Breaker.{is_set}
use aera_v.Oracle.State.{OracleState}
use aera_v.Oracle.MarketOracle.{MarketOracle, MarketOracleConfig, Observation, latest, twap}
use aera_v.Oracle.MarketBreaker.{Degradation, evaluate_market}
use aera_v.Oracle.MarketVerdicts.{evaluate_market-IsCautious}
use aera_v.Oracle.Twap.{Within, twap-between}
use aera_v.Instructions.RefreshMarket.{
  MarketReading, RefreshMarketOracle, is_recorded, age_of, reference_of, clamp, write_reference,
  push_observation, take_reading, handle_refresh_market_oracle,
}

abbrev pub observed : Clock → MarketReading → Observation
observed clock r = record {
  price = r.price;
  slot = clock.slot;
  unix_timestamp = clock.unix_timestamp;
  quote_depth = r.quote_depth;
}

-- How a refresh comes to its result.
pub record IsTaken (clock : Clock) (s : OracleState) (m : MarketOracle) (s' : OracleState)
    (m' : MarketOracle) : Type 0 where
  pub reading : MarketReading
  pub history : m' ≡ (
      if is_recorded m.config (latest m) clock.unix_timestamp
      then push_observation (observed clock reading) m
      else m)
  pub average : ℕ
  pub averaged : twap m' clock.unix_timestamp ≡ ok average
  pub bootstrapped : Bool
  pub price :
      s'.reference.effective_rate
      ≡ clamp
          (is_recorded m.config (latest m) clock.unix_timestamp)
          (reference_of s)
          (evaluate_market
            (reference_of s)
            average
            bootstrapped
            (age_of (latest m) clock.unix_timestamp)
            reading.degradation
            m.config).accepted_price

take_reading-IsTaken :
    (clock : Clock) (r : MarketReading) (s : OracleState) (m : MarketOracle)
    → Ensures (λ (s', m'). IsTaken clock s m s' m') (take_reading clock r s m)
unfolding take_reading write_reference
take_reading-IsTaken clock r s m = Ensures-skip _ λ _.
    Ensures->>= (Ensures-itself _) λ average averaged.
      Ensures->>= (Ensures-itself _) λ bootstrapped _. returns (record {
        reading = r;
        history = refl;
        average = average;
        averaged = averaged;
        bootstrapped = bootstrapped;
        price = refl;
      })

pub handle_refresh_market_oracle-IsTaken :
    (clock : Clock) (a : RefreshMarketOracle) (s : OracleState) (m : MarketOracle)
    → Ensures (λ (s', m'). IsTaken clock s m s' m') (handle_refresh_market_oracle clock a s m)
unfolding handle_refresh_market_oracle
handle_refresh_market_oracle-IsTaken clock a s m = Ensures-skip _ λ _. Ensures-skip _ λ kind.
    Ensures-skip _ λ _. Ensures-skip _ λ _. Ensures-skip _ λ reading_a.
      Ensures-skip _ λ reading_b. Ensures-skip _ λ reading. take_reading-IsTaken clock reading s m

reference_of-set :
    (s : OracleState) → is_set s.reference ≡ true → reference_of s ≡ some s.reference.effective_rate
reference_of-set s h = rw h refl

-- A refresh inside the spacing window, of an oracle with a reference, records nothing and does not
-- raise the reference.
pub handle_refresh_market_oracle-unrecorded :
    (clock : Clock) (a : RefreshMarketOracle) (s s' : OracleState) (m m' : MarketOracle)
    → is_set s.reference ≡ true
    → is_recorded m.config (latest m) clock.unix_timestamp ≡ false
    → handle_refresh_market_oracle clock a s m ≡ ok (s', m')
    → (m' ≡ m) × (s'.reference.effective_rate ≤ s.reference.effective_rate)
unfolding clamp
handle_refresh_market_oracle-unrecorded clock a s s' m m' set quiet e =
    let t = Ensures-ok (handle_refresh_market_oracle-IsTaken clock a s m) e in
    let h = t.history in
    let p = t.price in
    let p' = rw (quiet, reference_of-set s set) at p in (rw quiet at h, rw p' (ground arith))

clamp-le : (b : Bool) (current : Option ℕ) (price : ℕ) → clamp b current price ≤ price
unfolding clamp
clamp-le true current price = omega arith
clamp-le false none price = omega arith
clamp-le false (some current) price = ground arith

accepted-limited :
    (current twap : ℕ) (b : Bool) (age : ℤ) (d : Degradation) (c : MarketOracleConfig)
    → 0 < current
    → twap * 10_000 < u128_bound
    → (evaluate_market (some current) twap b age d c).accepted_price * 10_000
      ≤ current * (10_000 + c.max_rise_bps_per_window + 1)
accepted-limited current twap b age d c p h =
    let spread : current * (10_000 + c.max_rise_bps_per_window + 1)
        ≡ current * 10_000 + current * c.max_rise_bps_per_window + current =
      grind arith in
    elim (evaluate_market-IsCautious current twap b age d c p h) [
      | inl (le, e) ↦ rw e (omega arith)
      | inr (inl (lt, _, e, _)) ↦ rw e (omega arith)
      | inr (inr (_, _, l)) ↦ l.limited
    ]

-- A refresh that goes through on an oracle with a reference raises the reference by no more than
-- the rise limit and one basis point, when every price of the history it leaves is at most a bound
-- below a 10000th of the u128 range.
pub handle_refresh_market_oracle-limited :
    (clock : Clock) (a : RefreshMarketOracle) (s s' : OracleState) (m m' : MarketOracle) (high : ℕ)
    → is_set s.reference ≡ true
    → high * 10_000 < u128_bound
    → Within 0 high m'.observations
    → handle_refresh_market_oracle clock a s m ≡ ok (s', m')
    → s'.reference.effective_rate * 10_000
      ≤ s.reference.effective_rate * (10_000 + m.config.max_rise_bps_per_window + 1)
handle_refresh_market_oracle-limited clock a s s' m m' high set small within e =
    let t = Ensures-ok (handle_refresh_market_oracle-IsTaken clock a s m) e in
    let (_, below) = twap-between 0 high m' clock.unix_timestamp t.average within t.averaged in
    let positive : 0 < s.reference.effective_rate = unfold is_set in ltb→lt _ _ set in
    let bound =
      accepted-limited s.reference.effective_rate t.average t.bootstrapped
        (age_of (latest m) clock.unix_timestamp) t.reading.degradation m.config positive
        (omega arith) in
    let p = rw (reference_of-set s set) at t.price in
    let c =
      clamp-le (is_recorded m.config (latest m) clock.unix_timestamp)
        (some s.reference.effective_rate)
        (evaluate_market (some s.reference.effective_rate) t.average t.bootstrapped
          (age_of (latest m) clock.unix_timestamp) t.reading.degradation m.config).accepted_price in
    rw p (omega arith)
