-- ===== src/Oracle/TwapReturns.antt =====
-- The time-weighted average of state/market_oracle.rs is found for every history that is not empty.
use native.Mathlib.Nat.{mul-le-mul, mul-le-mul_right, mul-le-mul_left}
use aera_v.Common.{
  ℕ, ◌+◌, ◌*◌, ◌^◌, ◌<◌, ◌≤◌, ◌≡◌, refl, List, [], ◌∷◌, ok, lt→ltb, arith, Bool-cases, inl, inr,
  ◌==◌, require-Returns, length, u128_bound, Returns, Returns->>=, Returns-eq, done,
  checked_mul-Returns, checked_add-Returns,
}
use aera_v.Common.Int.{ℤ, pos, leb_ℤ, saturating_sub_i64}
use aera_v.Oracle.Bootstrap.{length-sort_observations}
use aera_v.Oracle.MarketOracle.{
  Observation, MarketOracle, insert_observation, sort_observations, ordered, add_reading, weigh,
  twap,
}
use aera_v.Oracle.Weights.{IsWindow, IsTaken, reading_weight-last, reading_weight-Returns}

-- Sums that stay within a `u128`: a total weight up to a budget, of prices up to a bound.
module _ (high budget : ℕ) (fits : high * budget < u128_bound) (small : budget < u128_bound) where
  add_reading-Returns :
      (weighted total price weight : ℕ)
      → price ≤ high
      → weighted ≤ high * total
      → total + weight ≤ budget
      → Returns
          (λ (w, t). (w ≤ high * t) × (t ≡ total + weight))
          (add_reading weighted total price weight)
  unfolding add_reading
  add_reading-Returns weighted total price weight p s b = elim (Bool-cases (weight == 0)) [
    | inl e ↦ rw e (done (s, ground arith))
    | inr e ↦
        let m : price * weight ≤ high * weight = mul-le-mul_right weight p in
        let all : high * (total + weight) ≤ high * budget = mul-le-mul_left high b in
        let spread : high * (total + weight) ≡ high * total + high * weight = grind arith in
        rw e (
          Returns->>= (checked_mul-Returns u128_bound price weight (omega arith)) λ product x.
            Returns->>= (checked_add-Returns u128_bound weighted product (rw x (omega arith)))
              λ w y.
                Returns->>= (checked_add-Returns u128_bound total weight (omega arith))
                  λ t z. done (rw (y, x, z) (omega arith), z))
  ]

-- Readings that were taken by a time, at prices up to a bound.
abbrev pub AllTaken : (now : ℤ) (high : ℕ) → List Observation → Type 0
AllTaken now high [] = Unit {0}
AllTaken now high (o ∷ os) = IsTaken now o × (o.price ≤ high) × AllTaken now high os

module _ (now cutoff : ℤ) (span : ℕ) (v : IsWindow now cutoff span) (high budget : ℕ)
    (fits : high * budget < u128_bound) (small : budget < u128_bound) where
  weigh-Returns :
      (o : Observation) (os : List Observation) (weighted total : ℕ)
      → AllTaken now high (o ∷ os)
      → weighted ≤ high * total
      → total + length (o ∷ os) * span ≤ budget
      → Returns (λ (_, t). 0 < t) (weigh now cutoff (o ∷ os) weighted total)
  unfolding weigh
  weigh-Returns o [] weighted total (t, p, _) s b =
      Returns->>= (reading_weight-last now cutoff span v o t) λ weight (positive, within).
        Returns->>=
          (add_reading-Returns high budget fits small weighted total o.price weight p s
            (omega arith))
          λ (w, t') (_, sum). done (omega arith)
  weigh-Returns o (x ∷ os) weighted total (t, p, (u, q, rest)) s b =
      let spread : length (o ∷ x ∷ os) * span ≡ span + length (x ∷ os) * span = grind arith in
      Returns->>= (reading_weight-Returns now cutoff span v o x os t u) λ weight within.
        Returns->>=
          (add_reading-Returns high budget fits small weighted total o.price weight p s
            (omega arith))
          λ (w, t') (bounded, sum). weigh-Returns x os w t' (u, q, rest) bounded (omega arith)

insert_observation-AllTaken :
    (now : ℤ) (high : ℕ) (o : Observation) (os : List Observation)
    → AllTaken now high (o ∷ os)
    → AllTaken now high (insert_observation o os)
unfolding insert_observation
insert_observation-AllTaken now high o [] h = h
insert_observation-AllTaken now high o (x ∷ xs) (t, p, (u, q, rest)) =
    elim (Bool-cases (leb_ℤ o.unix_timestamp x.unix_timestamp)) [
      | inl e ↦ rw e (t, p, (u, q, rest))
      | inr e ↦ rw e (u, q, insert_observation-AllTaken now high o xs (t, p, rest))
    ]

sort_observations-AllTaken :
    (now : ℤ) (high : ℕ) (os : List Observation)
    → AllTaken now high os
    → AllTaken now high (sort_observations os)
unfolding sort_observations
sort_observations-AllTaken now high [] h = tt
sort_observations-AllTaken now high (o ∷ os) (t, p, rest) =
    insert_observation-AllTaken now high o (sort_observations os)
      (t, p, sort_observations-AllTaken now high os rest)

window :
    (n seconds : ℕ)
    → n < 2 ^ 61
    → seconds < 2 ^ 32
    → IsWindow (pos n) (saturating_sub_i64 (pos n) (pos seconds)) (seconds + 1)
unfolding saturating_sub_i64
window n seconds h k = record {
  now_time = ground arith;
  cutoff_time = ground arith;
  opens = ground arith;
  closes = ground arith;
}

average-Returns :
    (n high : ℕ) (m : MarketOracle) (os : List Observation)
    → n < 2 ^ 61
    → m.config.twap_window_seconds < 2 ^ 32
    → 0 < length os
    → length os ≤ 32
    → high * 2 ^ 38 < u128_bound
    → AllTaken (pos n) high os
    → ordered m ≡ os
    → Returns (λ p. Unit {0}) (twap m (pos n))
unfolding twap
average-Returns n high m [] h k some many fits taken e = absurd (omega arith)
average-Returns n high m (o ∷ os) h k some many fits taken e =
    let all : length (o ∷ os) * (m.config.twap_window_seconds + 1) ≤ 32 * 2 ^ 32 =
      (let w : m.config.twap_window_seconds + 1 ≤ 2 ^ 32 = omega arith in mul-le-mul many w) in
    rw e (
      Returns->>= (require-Returns _ refl) λ _ _.
        Returns->>=
          (weigh-Returns (pos n) (saturating_sub_i64 (pos n) (pos m.config.twap_window_seconds))
            (m.config.twap_window_seconds + 1) (window n m.config.twap_window_seconds h k) high
            (2 ^ 38) fits (omega arith) o os 0 0 taken (omega arith) (omega arith))
          λ (w, t) positive. Returns->>= (require-Returns _ (lt→ltb _ _ positive)) λ _ _. done tt)

-- The average is found for every history that is not empty: of at most 32 observations, taken by
-- now, within 61 bits of time, at prices up to a bound below 2 ^ 90, and for a window that is a
-- `u32`.
pub twap-Returns :
    (n high : ℕ) (m : MarketOracle)
    → n < 2 ^ 61
    → m.config.twap_window_seconds < 2 ^ 32
    → 0 < length m.observations
    → length m.observations ≤ 32
    → high * 2 ^ 38 < u128_bound
    → AllTaken (pos n) high m.observations
    → (p : ℕ) × (twap m (pos n) ≡ ok p)
unfolding ordered
twap-Returns n high m h k some many fits taken =
    let l = length-sort_observations m.observations in
    let (p, e, _) = Returns-eq (
      average-Returns n high m (sort_observations m.observations) h k (omega arith) (omega arith)
        fits (sort_observations-AllTaken (pos n) high m.observations taken) refl) in
    (p, e)
