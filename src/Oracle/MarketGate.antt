-- ===== src/Oracle/MarketGate.antt =====
-- When oracle/market_breaker.rs lets a borrow through.
use aera_v.Common.{
  ℕ, ◌≡◌, refl, Bool, true, false, Option, none, some, ltb, leb, arith, Bool-cases, inl, inr,
  if◌then◌else◌,
}
use aera_v.Common.Int.{ℤ, pos, leb_ℤ}
use aera_v.Oracle.Health.{
  OracleHealth, healthy, rate_warning, borrow_frozen, emergency, bootstrapping, RiskAction, permits,
  health_to_u8,
}
use aera_v.Oracle.MarketOracle.{MarketOracleConfig}
use aera_v.Oracle.MarketBreaker.{
  Degradation, is_degraded, MarketVerdict, worse, health_of_age, judge_fall, judge_rise,
  evaluate_market,
}

permits_rank : (a : OracleHealth) → permits a RiskAction.borrow ≡ ltb (health_to_u8 a) 2
unfolding permits health_to_u8
permits_rank healthy = refl
permits_rank rate_warning = refl
permits_rank borrow_frozen = refl
permits_rank emergency = refl
permits_rank bootstrapping = refl

pub permits-worse :
    (a b : OracleHealth)
    → permits (worse a b) RiskAction.borrow ≡ true
    → (permits a RiskAction.borrow ≡ true) × (permits b RiskAction.borrow ≡ true)
unfolding worse
permits-worse a b h = elim (Bool-cases (leb (health_to_u8 b) (health_to_u8 a))) [
  | inl e ↦
      let rank : ltb (health_to_u8 a) 2 ≡ true = rw (e, permits_rank a) at h in
      rw (permits_rank a, permits_rank b) (rank, ground arith)
  | inr e ↦
      let rank : ltb (health_to_u8 b) 2 ≡ true = rw (e, permits_rank b) at h in
      rw (permits_rank a, permits_rank b) (ground arith, rank)
]

-- The worse of two states that let a borrow through does so as well.
pub worse-permits :
    (a b : OracleHealth)
    → permits a RiskAction.borrow ≡ true
    → permits b RiskAction.borrow ≡ true
    → permits (worse a b) RiskAction.borrow ≡ true
unfolding worse
worse-permits a b h k = elim (Bool-cases (leb (health_to_u8 b) (health_to_u8 a))) [
  | inl e ↦ rw e h
  | inr e ↦ rw e k
]

pub permits_frozen : (a : OracleHealth) → permits (worse borrow_frozen a) RiskAction.borrow ≡ false
permits_frozen a = elim (Bool-cases (permits (worse borrow_frozen a) RiskAction.borrow)) [
  | inl e ↦ absurd (let (h, _) = permits-worse borrow_frozen a e in unfold permits in cc)
  | inr e ↦ e
]

pub age_permits :
    (age : ℤ) (c : MarketOracleConfig)
    → permits (health_of_age age c) RiskAction.borrow ≡ true
    → leb_ℤ (pos c.max_observation_age_seconds) age ≡ false
unfolding health_of_age permits
age_permits age c h = elim (Bool-cases (leb_ℤ (pos c.max_observation_age_seconds) age)) [
  | inl e ↦ absurd (let k : false ≡ true = rw e at h in cc)
  | inr e ↦ e
]

-- What has to hold for a verdict to let a borrow through.
pub record IsOpen (current : Option ℕ) (twap : ℕ) (bootstrapped : Bool) (age : ℤ) (d : Degradation)
    (c : MarketOracleConfig) (v : MarketVerdict) : Type 0 where
  referenced : (r : ℕ) × (current ≡ some r)
  ready : bootstrapped ≡ true
  undegraded : is_degraded d ≡ false
  young : leb_ℤ (pos c.max_observation_age_seconds) age ≡ false
  whole : v.accepted_price ≡ twap

floor_permits :
    (b : Bool) → permits (if b then healthy else bootstrapping) RiskAction.borrow ≡ true → b ≡ true
unfolding permits
floor_permits true h = refl
floor_permits false h = cc

fall-opens :
    (r movement twap : ℕ) (b : Bool) (age : ℤ) (d : Degradation) (c : MarketOracleConfig)
    → permits
        (judge_fall movement twap
          (health_of_age age c)
          (if b then healthy else bootstrapping)
          d).health
        RiskAction.borrow
      ≡ true
    → IsOpen
        (some r)
        twap
        b
        age
        d
        c
        (judge_fall movement twap (health_of_age age c) (if b then healthy else bootstrapping) d)
unfolding judge_fall
fall-opens r movement twap b age d c h =
    let (state, floor) = permits-worse _ _ h in
    elim (Bool-cases (is_degraded d)) [
      | inl g ↦ absurd (
          let (_, x) = permits-worse (health_of_age age c) borrow_frozen (rw g at state) in
          unfold permits in cc)
      | inr g ↦ record {
        referenced = (r, refl);
        ready = floor_permits b floor;
        undegraded = g;
        young = age_permits age c (rw g at state);
        whole = refl;
      }
    ]

rise-opens :
    (r movement twap : ℕ) (b : Bool) (age : ℤ) (d : Degradation) (c : MarketOracleConfig)
    → permits
        (judge_rise movement r twap c.max_rise_bps_per_window
          (health_of_age age c)
          (if b then healthy else bootstrapping)
          d).health
        RiskAction.borrow
      ≡ true
    → IsOpen (some r) twap b age d c (
        judge_rise movement r twap c.max_rise_bps_per_window
          (health_of_age age c)
          (if b then healthy else bootstrapping)
          d)
unfolding judge_rise
rise-opens r movement twap b age d c h = elim (Bool-cases (is_degraded d)) [
  | inl g ↦ absurd (
      let k : permits (worse borrow_frozen (if b then healthy else bootstrapping)) RiskAction.borrow
          ≡ true =
        rw g at h in
      let n = permits_frozen (if b then healthy else bootstrapping) in cc)
  | inr g ↦ elim (Bool-cases (leb movement c.max_rise_bps_per_window)) [
    | inl m ↦
        let (state, floor) =
          permits-worse (health_of_age age c) (if b then healthy else bootstrapping)
            (rw (g, m) at h) in
        rw (g, m)
          (record {
            referenced = (r, refl);
            ready = floor_permits b floor;
            undegraded = g;
            young = age_permits age c state;
            whole = refl;
          })
    | inr m ↦ absurd (
        let k : permits (worse borrow_frozen (if b then healthy else bootstrapping))
              RiskAction.borrow
            ≡ true =
          rw (g, m) at h in
        let n = permits_frozen (if b then healthy else bootstrapping) in cc)
  ]
]

-- A verdict that permits a borrow has a reference to compare with, a bootstrapped history, pools
-- that agree and are deep enough, a newest observation younger than the maximum age, and accepts
-- the price in full.
pub evaluate_market-opens :
    (current : Option ℕ) (twap : ℕ) (b : Bool) (age : ℤ) (d : Degradation) (c : MarketOracleConfig)
    → permits (evaluate_market current twap b age d c).health RiskAction.borrow ≡ true
    → IsOpen current twap b age d c (evaluate_market current twap b age d c)
unfolding evaluate_market
evaluate_market-opens none twap b age d c h = absurd (unfold permits in cc)
evaluate_market-opens (some r) twap b age d c h = elim (Bool-cases (ltb r twap)) [
  | inl e ↦ rw e (rise-opens r _ twap b age d c (rw e at h))
  | inr e ↦ rw e (fall-opens r _ twap b age d c (rw e at h))
]
