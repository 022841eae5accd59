-- ===== src/Risk/Split.antt =====
-- The division of a seizure between the protocol and the liquidator, `split_seized_shares` of
-- risk.rs.
use aera_v.Common.{
  Ensures, Ensures->>=, returns, checked_add-Ensures, narrow-Ensures, checked_sub-Ensures, ℕ, suc,
  ◌+◌, ◌*◌, ◌^◌, ◌<◌, ◌≤◌, ◌≡◌, min, ◌==◌, arith, Returns, Returns->>=, done, u64_bound, u128_bound,
  checked_add-Returns, checked_sub-Returns, narrow-Returns, Bool-cases, inl, inr,
}
use native.Mathlib.Nat.{mul-le-mul}
use aera_v.Constants.{bps_denominator}
use aera_v.Math.Rounds.{IsFloor, mul_div_floor-Returns, mul_div_floor-Ensures, floor-lt}
use aera_v.Risk.{split_seized_shares}

-- The split of a seizure: nothing is lost, and the protocol has its share rounded down.
pub record IsSplit (seized bonus share : ℕ) (parts : ℕ × ℕ) : Type 0 where
  pub conserved : parts.0 + parts.1 ≡ seized
  pub exact : IsFloor (seized * min share bonus) (bps_denominator + bonus) parts.0

zero_share-IsSplit :
    (seized bonus share : ℕ) → min share bonus ≡ 0 → IsSplit seized bonus share (0, seized)
zero_share-IsSplit seized bonus share e = record {
  conserved = omega arith;
  exact = rw e (omega arith);
}

product_fits :
    (seized bonus share : ℕ)
    → seized < u64_bound
    → bonus < 2 ^ 16
    → seized * min share bonus < u128_bound
product_fits seized bonus share fits small =
    let h =
      mul-le-mul {n₁ = seized} {m₁ = min share bonus} {n₂ = 2 ^ 64} {m₂ = 2 ^ 16} (omega arith)
        (omega arith) in
    omega (arith, h)

part-le :
    (seized bonus share q : ℕ)
    → IsFloor (seized * min share bonus) (bps_denominator + bonus) q
    → q ≤ seized
part-le seized bonus share q f =
    let h =
      mul-le-mul {n₁ = seized} {m₁ = min share bonus} {n₂ = seized} {m₂ = bonus} (omega arith)
        (omega arith) in
    omega (arith, floor-lt (suc seized) f (omega (arith, h)))

-- For a seizure that fits a `u64` and a bonus that fits a `u16` the split returns: the parts add up
-- to the seizure, and the protocol's is `seized * min(share, bonus) / (10000 + bonus)` rounded down.
pub split_seized_shares-IsSplit :
    (seized bonus share : ℕ)
    → seized < u64_bound
    → bonus < 2 ^ 16
    → Returns (IsSplit seized bonus share) (split_seized_shares seized bonus share)
unfolding split_seized_shares
split_seized_shares-IsSplit seized bonus share fits small =
    elim (Bool-cases (min share bonus == 0)) [
      | inl e ↦ rw e (done (zero_share-IsSplit seized bonus share (ground arith)))
      | inr e ↦ rw e (
          Returns->>= (checked_add-Returns _ _ _ (omega arith)) λ denominator d.
            Returns->>=
              (mul_div_floor-Returns _ _ _ (omega arith)
                (product_fits seized bonus share fits small))
              λ wide f.
                let f' : IsFloor (seized * min share bonus) (bps_denominator + bonus) wide =
                  rw d at f in
                let below = part-le seized bonus share wide f' in
                Returns->>= (narrow-Returns _ _ (omega arith)) λ protocol p.
                  Returns->>= (checked_sub-Returns _ _ (omega arith))
                    λ liquidator q. done (record { conserved = omega arith; exact = rw p f' }))
    ]

-- Whenever the split returns, its parts are right.
pub split_seized_shares-Ensures :
    (seized bonus share : ℕ)
    → Ensures (IsSplit seized bonus share) (split_seized_shares seized bonus share)
unfolding split_seized_shares
split_seized_shares-Ensures seized bonus share = elim (Bool-cases (min share bonus == 0)) [
  | inl e ↦ rw e (returns (zero_share-IsSplit seized bonus share (ground arith)))
  | inr e ↦ rw e (
      Ensures->>= (checked_add-Ensures _ _ _) λ denominator (d, _).
        Ensures->>= (mul_div_floor-Ensures _ _ _) λ wide f.
          Ensures->>= (narrow-Ensures _ _) λ protocol (p, _).
            Ensures->>= (checked_sub-Ensures _ _) λ liquidator (q, fits).
              returns (record { conserved = omega arith; exact = rw (p, ← d) f }))
]
