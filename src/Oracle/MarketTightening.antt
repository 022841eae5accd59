-- ===== src/Oracle/MarketTightening.antt =====
-- What `is_tightening_from` of state/market_oracle.rs promises of the breaker.
use aera_v.Common.{
  ℕ, ◌+◌, ◌*◌, ◌≤◌, ◌≡◌, refl, Bool, true, false, Option, none, some, ltb, leb, arith, Bool-cases,
  inl, inr, ◌⊎◌,
}
use native.Mathlib.Nat.{mul-le-mul_left}
use aera_v.Common.Int.{ℤ, pos, leb_ℤ}
use aera_v.Math.Rounds.{IsFloor-div, floor_mono}
use aera_v.Oracle.Health.{OracleHealth, borrow_frozen, RiskAction, permits}
use aera_v.Oracle.MarketOracle.{MarketOracleConfig, market_is_tightening_from}
use aera_v.Oracle.MarketBreaker.{
  Degradation, is_degraded, worse, health_of_age, rise_bound, saturating_mul_u128, judge_rise,
  judge_fall, evaluate_market,
}
use aera_v.Oracle.MarketGate.{permits-worse, worse-permits, permits_frozen, age_permits}

-- What of a tighter configuration the breaker reads.
record IsTighter (c next : MarketOracleConfig) : Type 0 where
  age : next.max_observation_age_seconds ≤ c.max_observation_age_seconds
  rise : next.max_rise_bps_per_window ≤ c.max_rise_bps_per_window

tightening-IsTighter :
    (c next : MarketOracleConfig) → market_is_tightening_from c next ≡ true → IsTighter c next
unfolding market_is_tightening_from
tightening-IsTighter c next h = record { age = ground arith; rise = ground arith }

rise_bound_mono : (current a b : ℕ) → a ≤ b → rise_bound current a ≤ rise_bound current b
unfolding rise_bound
rise_bound_mono current a b h =
    let m : current * (10_000 + a) ≤ current * (10_000 + b) =
      mul-le-mul_left current (omega arith) in
    let less : saturating_mul_u128 current (10_000 + a) ≤ saturating_mul_u128 current (10_000 + b) =
      omega (arith, m) in
    floor_mono (IsFloor-div (saturating_mul_u128 current (10_000 + a)) 10_000 (omega arith))
      (IsFloor-div (saturating_mul_u128 current (10_000 + b)) 10_000 (omega arith)) less

young_permits :
    (age : ℤ) (c : MarketOracleConfig)
    → leb_ℤ (pos c.max_observation_age_seconds) age ≡ false
    → permits (health_of_age age c) RiskAction.borrow ≡ true
unfolding health_of_age permits
young_permits age c young = elim (Bool-cases (leb_ℤ (pos c.warn_age_seconds) age)) [
  | inl e ↦ rw (young, e) refl
  | inr e ↦ rw (young, e) refl
]

age_permits_looser :
    (age : ℤ) (c next : MarketOracleConfig)
    → IsTighter c next
    → permits (health_of_age age next) RiskAction.borrow ≡ true
    → permits (health_of_age age c) RiskAction.borrow ≡ true
age_permits_looser age c next t h =
    let young = age_permits age next h in
    let less = t.age in
    let young' : leb_ℤ (pos c.max_observation_age_seconds) age ≡ false = ground arith in
    young_permits age c young'

module _ (movement current twap : ℕ) (age : ℤ) (floor : OracleHealth) (d : Degradation)
    (c next : MarketOracleConfig) (t : IsTighter c next) where
  fall_permits_looser :
      permits (judge_fall movement twap (health_of_age age next) floor d).health RiskAction.borrow
        ≡ true
      → permits (judge_fall movement twap (health_of_age age c) floor d).health RiskAction.borrow
        ≡ true
  unfolding judge_fall
  fall_permits_looser h = elim (Bool-cases (is_degraded d)) [
    | inl g ↦
        let (state, ready) = permits-worse _ _ (rw g at h) in
        let (young, frozen) = permits-worse _ _ state in absurd (unfold permits in cc)
    | inr g ↦
        let (young, ready) = permits-worse _ _ (rw g at h) in
        rw g (worse-permits _ _ (age_permits_looser age c next t young) ready)
  ]

  rise_permits_looser :
      permits
          (judge_rise movement current twap next.max_rise_bps_per_window
            (health_of_age age next)
            floor
            d).health
          RiskAction.borrow
        ≡ true
      → permits
          (judge_rise movement current twap c.max_rise_bps_per_window
            (health_of_age age c)
            floor
            d).health
          RiskAction.borrow
        ≡ true
  unfolding judge_rise
  rise_permits_looser h = elim (Bool-cases (is_degraded d)) [
    | inl g ↦
        let k : permits (worse borrow_frozen floor) RiskAction.borrow ≡ true = rw g at h in
        let n = permits_frozen floor in absurd cc
    | inr g ↦ elim (Bool-cases (leb movement next.max_rise_bps_per_window)) [
      | inl m ↦
          let less = t.rise in
          let m' : leb movement c.max_rise_bps_per_window ≡ true = ground arith in
          let (young, ready) = permits-worse _ _ (rw (g, m) at h) in
          rw (g, m') (worse-permits _ _ (age_permits_looser age c next t young) ready)
      | inr m ↦
          let k : permits (worse borrow_frozen floor) RiskAction.borrow ≡ true = rw (g, m) at h in
          let n = permits_frozen floor in absurd cc
    ]
  ]

  rise_no_higher :
      (judge_rise movement current twap next.max_rise_bps_per_window
        (health_of_age age next)
        floor
        d).accepted_price
      ≤ (judge_rise movement current twap c.max_rise_bps_per_window
          (health_of_age age c)
          floor
          d).accepted_price
  unfolding judge_rise
  rise_no_higher =
      let b =
        rise_bound_mono current next.max_rise_bps_per_window c.max_rise_bps_per_window t.rise in
      let less = t.rise in
      elim (Bool-cases (is_degraded d)) [
        | inl g ↦ rw g (omega arith)
        | inr g ↦ elim (Bool-cases (leb movement next.max_rise_bps_per_window)) [
          | inl m ↦
              let m' : leb movement c.max_rise_bps_per_window ≡ true = ground arith in
              rw (g, m, m') (omega arith)
          | inr m ↦ elim (Bool-cases (leb movement c.max_rise_bps_per_window)) [
            | inl n ↦ rw (g, m, n) (omega arith)
            | inr n ↦ rw (g, m, n) (omega arith)
          ]
        ]
      ]

some-permits_looser :
    (current twap : ℕ) (b : Bool) (age : ℤ) (d : Degradation) (c next : MarketOracleConfig)
    → IsTighter c next
    → permits (evaluate_market (some current) twap b age d next).health RiskAction.borrow ≡ true
    → permits (evaluate_market (some current) twap b age d c).health RiskAction.borrow ≡ true
unfolding evaluate_market
some-permits_looser current twap b age d c next t h = elim (Bool-cases (ltb current twap)) [
  | inl e ↦ rw e (rise_permits_looser _ current twap age _ d c next t (rw e at h))
  | inr e ↦ rw e (fall_permits_looser _ current twap age _ d c next t (rw e at h))
]

some_no_higher :
    (current twap : ℕ) (b : Bool) (age : ℤ) (d : Degradation) (c next : MarketOracleConfig)
    → IsTighter c next
    → (evaluate_market (some current) twap b age d next).accepted_price
      ≤ (evaluate_market (some current) twap b age d c).accepted_price
unfolding evaluate_market judge_fall
some_no_higher current twap b age d c next t = elim (Bool-cases (ltb current twap)) [
  | inl e ↦ rw e (rise_no_higher _ current twap age _ d c next t)
  | inr e ↦ rw e (omega arith)
]

-- A configuration that counts as a tightening lets nothing more through: of the same reading, with
-- the same reference, age, bootstrapping and faults of the pools, the breaker accepts no higher a
-- price than under the one before, and permits a borrow only where that one does.
pub market_is_tightening_from-evaluate_market :
    (c next : MarketOracleConfig) (current : Option ℕ) (twap : ℕ) (b : Bool) (age : ℤ)
    (d : Degradation)
    → market_is_tightening_from c next ≡ true
    → ((evaluate_market current twap b age d next).accepted_price
        ≤ (evaluate_market current twap b age d c).accepted_price)
      × ((permits (evaluate_market current twap b age d next).health RiskAction.borrow ≡ false)
          ⊎ (permits (evaluate_market current twap b age d c).health RiskAction.borrow ≡ true))
unfolding evaluate_market
market_is_tightening_from-evaluate_market c next none twap b age d h =
    (omega arith, inl (unfold permits in refl))
market_is_tightening_from-evaluate_market c next (some current) twap b age d h =
    let t = tightening-IsTighter c next h in
    (
      some_no_higher current twap b age d c next t,
      elim (Bool-cases
          (permits (evaluate_market (some current) twap b age d next).health RiskAction.borrow)) [
            | inl e ↦ inr (some-permits_looser current twap b age d c next t e)
            | inr e ↦ inl e
          ],
    )
