-- ===== src/Reserve/Curve.antt =====
-- The kinked rate curve of state/reserve.rs.
use aera_v.Common.{
  ℕ, ◌+◌, ◌-◌, ◌*◌, ◌<◌, ◌≤◌, ◌≡◌, arith, ok, leb, leb→le, Bool-cases, inl, inr, ◌⊎◌, Ensures,
  Ensures->>=, Ensures-map, Ensures-ok, checked_add-Ensures, checked_sub-Ensures,
}
use native.Mathlib.Nat.{mul-le-mul, le_of_mul-le-mul_right}
use aera_v.Constants.{bps_denominator}
use aera_v.Math.Rounds.{IsFloor, mul_div_floor-Ensures, floor_mono}
use aera_v.Reserve.Types.{ReserveConfig}
use aera_v.Reserve.Interest.{curve_bps}
use aera_v.Reserve.Limits.{IsSound}

-- The rate on the lower piece, and on the upper.
record IsLow (c : ReserveConfig) (u rate : ℕ) : Type 0 where
  below : u ≤ c.optimal_utilization_bps
  climbed : ℕ
  slope :
      IsFloor
        ((c.optimal_borrow_rate_bps - c.min_borrow_rate_bps) * u)
        c.optimal_utilization_bps
        climbed
  sum : rate ≡ c.min_borrow_rate_bps + climbed

record IsHigh (c : ReserveConfig) (u rate : ℕ) : Type 0 where
  above : c.optimal_utilization_bps < u
  climbed : ℕ
  slope :
      IsFloor
        ((c.max_borrow_rate_bps - c.optimal_borrow_rate_bps) * (u - c.optimal_utilization_bps))
        (bps_denominator - c.optimal_utilization_bps)
        climbed
  sum : rate ≡ c.optimal_borrow_rate_bps + climbed

curve_bps-Ensures :
    (c : ReserveConfig) (u : ℕ) → Ensures (λ rate. IsLow c u rate ⊎ IsHigh c u rate) (curve_bps c u)
unfolding curve_bps
curve_bps-Ensures c u = elim (Bool-cases (leb u c.optimal_utilization_bps)) [
  | inl e ↦ rw e (
      Ensures->>= (checked_sub-Ensures _ _) λ span (s, _).
        Ensures->>= (mul_div_floor-Ensures _ _ _) λ climbed f.
          Ensures-map (checked_add-Ensures _ _ _) λ rate (sum, _).
            inl (record { below = leb→le _ _ e; climbed = climbed; slope = rw s at f; sum = sum }))
  | inr e ↦ rw e (
      Ensures->>= (checked_sub-Ensures _ _) λ span (s, _).
        Ensures->>= (checked_sub-Ensures _ _) λ over (o, _).
          Ensures->>= (checked_sub-Ensures _ _) λ range (r, _).
            Ensures->>= (mul_div_floor-Ensures _ _ _) λ climbed f.
              Ensures-map (checked_add-Ensures _ _ _) λ rate (sum, _). inr (record {
                above = ground arith;
                climbed = climbed;
                slope = rw (s, o, r) at f;
                sum = sum;
              }))
]

-- A climb over a part of the range is at most the whole span.
climb-le :
    (span part range climbed : ℕ)
    → part ≤ range
    → IsFloor (span * part) range climbed
    → climbed ≤ span
climb-le span part range climbed h f =
    let k = mul-le-mul {n₁ = span} {m₁ = part} {n₂ = span} {m₂ = range} (omega arith) h in
    le_of_mul-le-mul_right {k = range} (omega (arith, k, f.below)) f.positive

-- Within the hard limits and up to full utilization, the borrow rate lies between the minimum and
-- the maximum, and on the kink's side of the optimal rate.
pub curve_bps-bounds :
    (c : ReserveConfig) (u rate : ℕ)
    → IsSound c
    → u ≤ bps_denominator
    → curve_bps c u ≡ ok rate
    → (c.min_borrow_rate_bps ≤ rate) × (rate ≤ c.max_borrow_rate_bps)
curve_bps-bounds c u rate sound full e = elim (Ensures-ok (curve_bps-Ensures c u) e) [
  | inl low ↦
      let k = climb-le _ u c.optimal_utilization_bps low.climbed low.below low.slope in
      (omega (arith, low.sum), omega (arith, k, low.sum, sound.rates_low, sound.rates_high))
  | inr high ↦
      let k = climb-le _ _ _ high.climbed (omega (arith, full)) high.slope in
      (omega (arith, high.sum, sound.rates_low), omega (arith, k, high.sum, sound.rates_high))
]

climb_mono :
    (span part part' range climbed climbed' : ℕ)
    → part ≤ part'
    → IsFloor (span * part) range climbed
    → IsFloor (span * part') range climbed'
    → climbed ≤ climbed'
climb_mono span part part' range climbed climbed' h f f' =
    floor_mono f f' (mul-le-mul {n₁ = span} {m₁ = part} {n₂ = span} {m₂ = part'} (omega arith) h)

-- Within the hard limits, a higher utilization does not lower the borrow rate.
pub curve_bps_mono :
    (c : ReserveConfig) (u u' rate rate' : ℕ)
    → IsSound c
    → u ≤ u'
    → curve_bps c u ≡ ok rate
    → curve_bps c u' ≡ ok rate'
    → rate ≤ rate'
curve_bps_mono c u u' rate rate' sound h e e' =
    go (Ensures-ok (curve_bps-Ensures c u) e) (Ensures-ok (curve_bps-Ensures c u') e')
  where
    go : IsLow c u rate ⊎ IsHigh c u rate → IsLow c u' rate' ⊎ IsHigh c u' rate' → rate ≤ rate'
    go (inl a) (inl b) =
        let k = climb_mono _ u u' _ a.climbed b.climbed h a.slope b.slope in
        omega (arith, k, a.sum, b.sum)
    go (inl a) (inr b) =
        let k = climb-le _ u c.optimal_utilization_bps a.climbed a.below a.slope in
        omega (arith, k, a.sum, b.sum, sound.rates_low)
    go (inr a) (inl b) = absurd (omega (arith, a.above, b.below, h))
    go (inr a) (inr b) =
        let k =
          climb_mono _ (u - c.optimal_utilization_bps) (u' - c.optimal_utilization_bps) _ a.climbed
            b.climbed (omega arith) a.slope b.slope in
        omega (arith, k, a.sum, b.sum)
