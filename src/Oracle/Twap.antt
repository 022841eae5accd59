-- ===== src/Oracle/Twap.antt =====
-- The time-weighted average of state/market_oracle.rs lies between the readings it averages.
use native.Mathlib.Nat.{mul-le-mul_right}
use aera_v.Common.{
  ℕ, ◌+◌, ◌*◌, ◌<◌, ◌≤◌, ◌≡◌, List, [], ◌∷◌, ok, ltb→lt, arith, Bool-cases, inl, inr, ◌==◌,
  require-Ensures, Ensures, Ensures->>=, Ensures-skip, Ensures-ok, returns, checked_mul-Ensures,
  checked_add-Ensures,
}
use aera_v.Common.Int.{ℤ, leb_ℤ}
use aera_v.Math.Rounds.{IsFloor-div, le-floor, floor-lt}
use aera_v.Oracle.MarketOracle.{
  Observation, MarketOracle, insert_observation, sort_observations, ordered, add_reading, weigh,
  twap,
}

-- Every price lies between two bounds.
abbrev pub Within : (low high : ℕ) → List Observation → Type 0
Within low high [] = Unit {0}
Within low high (o ∷ os) = (low ≤ o.price) × (o.price ≤ high) × Within low high os

module _ (low high : ℕ) where
  insert_observation-Within :
      (o : Observation) (os : List Observation)
      → (low ≤ o.price) × (o.price ≤ high)
      → Within low high os
      → Within low high (insert_observation o os)
  unfolding insert_observation
  insert_observation-Within o [] (a, b) h = (a, b, tt)
  insert_observation-Within o (x ∷ xs) (a, b) (l, u, rest) =
      elim (Bool-cases (leb_ℤ o.unix_timestamp x.unix_timestamp)) [
        | inl e ↦ rw e (a, b, (l, u, rest))
        | inr e ↦ rw e (l, u, insert_observation-Within o xs (a, b) rest)
      ]

  sort_observations-Within :
      (os : List Observation) → Within low high os → Within low high (sort_observations os)
  unfolding sort_observations
  sort_observations-Within [] h = tt
  sort_observations-Within (o ∷ os) (a, b, rest) =
      insert_observation-Within o (sort_observations os) (a, b) (sort_observations-Within os rest)

  -- A weighted sum of readings between the bounds.
  record IsBetween (weighted total : ℕ) : Type 0 where
    above : low * total ≤ weighted
    below : weighted ≤ high * total

  add_reading-IsBetween :
      (weighted total price weight : ℕ)
      → (low ≤ price) × (price ≤ high)
      → IsBetween weighted total
      → Ensures (λ (w, t). IsBetween w t) (add_reading weighted total price weight)
  unfolding add_reading
  add_reading-IsBetween weighted total price weight (a, b) s = elim (Bool-cases (weight == 0)) [
    | inl e ↦ rw e (returns s)
    | inr e ↦ rw e (
        Ensures->>= (checked_mul-Ensures _ _ _) λ product (p, _).
          Ensures->>= (checked_add-Ensures _ _ _) λ w (q, _).
            Ensures->>= (checked_add-Ensures _ _ _) λ t (r, _).
              let l : low * weight ≤ price * weight = mul-le-mul_right weight a in
              let u : price * weight ≤ high * weight = mul-le-mul_right weight b in
              let x = s.above in
              let y = s.below in
              let lt : low * (total + weight) ≡ low * total + low * weight = grind arith in
              let ut : high * (total + weight) ≡ high * total + high * weight = grind arith in
              returns (record { above = rw r (omega arith); below = rw r (omega arith) }))
  ]

  weigh-IsBetween :
      (now cutoff : ℤ) (os : List Observation) (weighted total : ℕ)
      → Within low high os
      → IsBetween weighted total
      → Ensures (λ (w, t). IsBetween w t) (weigh now cutoff os weighted total)
  unfolding weigh
  weigh-IsBetween now cutoff [] weighted total h s = returns s
  weigh-IsBetween now cutoff (o ∷ os) weighted total (a, b, rest) s = Ensures-skip _ λ weight.
      Ensures->>= (add_reading-IsBetween weighted total o.price weight (a, b) s)
        λ (w, t) s'. weigh-IsBetween now cutoff os w t rest s'

  -- The average lies between any bounds of the recorded prices.
  pub twap-between :
      (m : MarketOracle) (now : ℤ) (p : ℕ)
      → Within low high m.observations
      → twap m now ≡ ok p
      → (low ≤ p) × (p ≤ high)
  unfolding twap ordered
  twap-between m now p h e =
      Ensures-ok {P = λ q. (low ≤ q) × (q ≤ high)}
        (Ensures-skip _ λ _.
          Ensures->>=
            (weigh-IsBetween now _ (sort_observations m.observations) 0 0
              (sort_observations-Within m.observations h)
              (record { above = omega arith; below = omega arith }))
            λ (w, t) s. Ensures->>= (require-Ensures _ _) λ _ positive.
              let pos : 0 < t = ltb→lt _ _ positive in
              let f = IsFloor-div w t pos in
              let x = s.above in
              let y = s.below in
              let up : w < (high + 1) * t = omega arith in
              let lt = floor-lt (high + 1) f up in returns (le-floor low f x, omega arith))
        e
