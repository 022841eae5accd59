-- ===== src/Oracle/Weights.antt =====
-- How long a reading of state/market_oracle.rs stands inside the window: found without an overflow.
use aera_v.Common.{
  ℕ, ◌-◌, ◌^◌, ◌<◌, ◌≤◌, ◌≡◌, refl, false, List, [], ◌∷◌, ok, arith, Bool-cases, inl, inr,
  if◌then◌else◌, ◌>>=◌, Returns, Returns->>=, Returns-if, done,
}
use aera_v.Common.Int.{
  ℤ, pos, negsuc, ◌≤ℤ◌, leb_ℤ, max_ℤ, gap_ℤ, panicking_add_i64, panicking_sub_i64, ◌+ℤ◌, ◌-ℤ◌,
}
use aera_v.Oracle.MarketOracle.{Observation, reading_weight}

-- A time within a 61-bit range around 0.
abbrev pub IsTime : ℤ → Type 0
IsTime t = (negsuc (2 ^ 61 - 1) ≤ℤ t) × (t ≤ℤ pos (2 ^ 61 - 1))

max_ℤ-IsTime : (a b : ℤ) → IsTime a → IsTime b → IsTime (max_ℤ a b)
max_ℤ-IsTime a b h k = elim (Bool-cases (leb_ℤ a b)) [ inl e ↦ rw e k | inr e ↦ rw e h ]

right-max_ℤ : (a b : ℤ) → b ≤ℤ max_ℤ a b
right-max_ℤ a b = elim (Bool-cases (leb_ℤ a b)) [
  | inl e ↦ rw e (omega arith)
  | inr e ↦ rw e (ground arith)
]

max_ℤ-le : (a b c : ℤ) → a ≤ℤ c → b ≤ℤ c → max_ℤ a b ≤ℤ c
max_ℤ-le a b c h k = elim (Bool-cases (leb_ℤ a b)) [ inl e ↦ rw e k | inr e ↦ rw e h ]

panicking_add_i64-one :
    (z : ℤ) → IsTime z → Returns (λ r. r ≡ z +ℤ pos 1) (panicking_add_i64 z (pos 1))
unfolding panicking_add_i64
panicking_add_i64-one z (a, b) = Returns-if _ _ (ground arith) refl

panicking_sub_i64-Returns :
    (a b : ℤ)
    → b ≤ℤ a
    → negsuc (2 ^ 61 - 1) ≤ℤ b
    → a ≤ℤ pos (2 ^ 62)
    → Returns (λ r. r ≡ a -ℤ b) (panicking_sub_i64 a b)
unfolding panicking_sub_i64
panicking_sub_i64-Returns a b h k l = Returns-if _ _ (ground arith) refl

-- The end of `reading_weight`, with the interval at hand.
module _ (from to cutoff : ℤ) (span : ℕ) (low : negsuc (2 ^ 61 - 1) ≤ℤ from)
    (high : to ≤ℤ pos (2 ^ 62)) (after : cutoff ≤ℤ from) (before : to ≤ℤ cutoff +ℤ pos span) where
  weight_between :
      Returns
        (λ w. w ≤ span)
        (if leb_ℤ to from then ok 0 else (panicking_sub_i64 to from >>= λ _. ok (gap_ℤ from to)))
  weight_between = elim (Bool-cases (leb_ℤ to from)) [
    | inl e ↦ rw e (done (omega arith))
    | inr e ↦ rw e (
        Returns->>= (panicking_sub_i64-Returns to from (ground arith) low high)
          λ _ _. done (ground arith))
  ]

  weight_after :
      from +ℤ pos 1 ≤ℤ to
      → Returns
          (λ w. (0 < w) × (w ≤ span))
          (if leb_ℤ to from then ok 0 else (panicking_sub_i64 to from >>= λ _. ok (gap_ℤ from to)))
  weight_after c =
      let e : leb_ℤ to from ≡ false = ground arith in
      rw e (
        Returns->>= (panicking_sub_i64-Returns to from (ground arith) low high)
          λ _ _. done (ground arith, ground arith))

-- The window up to a time, and a reading that was taken by then.
pub record IsWindow (now cutoff : ℤ) (span : ℕ) : Type 0 where
  pub now_time : IsTime now
  pub cutoff_time : IsTime cutoff
  pub opens : cutoff ≤ℤ now
  pub closes : now +ℤ pos 1 ≤ℤ cutoff +ℤ pos span

abbrev pub IsTaken : ℤ → Observation → Type 0
IsTaken now o = IsTime o.unix_timestamp × (o.unix_timestamp ≤ℤ now)

module _ (now cutoff : ℤ) (span : ℕ) (w : IsWindow now cutoff span) where
  pub reading_weight-last :
      (o : Observation)
      → IsTaken now o
      → Returns (λ w. (0 < w) × (w ≤ span)) (reading_weight now cutoff o [])
  unfolding reading_weight
  reading_weight-last o (t, past) =
      let from = max_ℤ o.unix_timestamp cutoff in
      let n = w.now_time in
      let c = w.cutoff_time in
      let opens = w.opens in
      let closes = w.closes in
      let (low, high) = max_ℤ-IsTime o.unix_timestamp cutoff t c in
      let (_, top) = max_ℤ-IsTime now cutoff n c in
      let reached = max_ℤ-le o.unix_timestamp cutoff now past opens in
      let one : from +ℤ pos 1 ≤ℤ pos (2 ^ 62) = ground arith in
      let limit : from +ℤ pos 1 ≤ℤ cutoff +ℤ pos span = ground arith in
      let limit' : max_ℤ now cutoff ≤ℤ cutoff +ℤ pos span =
        max_ℤ-le now cutoff (cutoff +ℤ pos span) (ground arith) (ground arith) in
      Returns->>=
        {P = λ to. (from +ℤ pos 1 ≤ℤ to) × (to ≤ℤ pos (2 ^ 62)) × (to ≤ℤ cutoff +ℤ pos span)}
        (Returns->>= (panicking_add_i64-one from (low, high)) λ next e. done (
          rw e (
            right-max_ℤ (max_ℤ now cutoff) (from +ℤ pos 1),
            max_ℤ-le (max_ℤ now cutoff) (from +ℤ pos 1) (pos (2 ^ 62)) (omega arith) one,
            max_ℤ-le (max_ℤ now cutoff) (from +ℤ pos 1) (cutoff +ℤ pos span) limit' limit,
          )))
        λ to (above, below, within).
          weight_after from to cutoff span low below (right-max_ℤ o.unix_timestamp cutoff) within
            above

  pub reading_weight-Returns :
      (o x : Observation) (os : List Observation)
      → IsTaken now o
      → IsTaken now x
      → Returns (λ w. w ≤ span) (reading_weight now cutoff o (x ∷ os))
  unfolding reading_weight ◌>>=◌
  reading_weight-Returns o x os (t, _) (u, past) =
      let c = w.cutoff_time in
      let opens = w.opens in
      let closes = w.closes in
      let (low, high) = max_ℤ-IsTime o.unix_timestamp cutoff t c in
      let (_, top) = max_ℤ-IsTime x.unix_timestamp cutoff u c in
      let limit : max_ℤ x.unix_timestamp cutoff ≤ℤ cutoff +ℤ pos span =
        max_ℤ-le x.unix_timestamp cutoff (cutoff +ℤ pos span) (ground arith) (ground arith) in
      weight_between (max_ℤ o.unix_timestamp cutoff) (max_ℤ x.unix_timestamp cutoff) cutoff span low
        (omega arith) (right-max_ℤ o.unix_timestamp cutoff) limit
