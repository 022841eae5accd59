-- ===== src/Safety/Ring.antt =====
-- The history that instructions/refresh_market_oracle.rs keeps: how many observations, and how far
-- apart.
use aera_v.Common.{
  ℕ, zero, suc, ◌+◌, ◌%◌, ◌^◌, ◌<◌, ◌≤◌, ◌≡◌, ◌⊎◌, inl, inr, refl, true, ltb, List, ◌++◌, [], ◌∷◌,
  none, ok, Bool-cases, Option-cases, ltb→lt, Clock, Ensures-ok, arith, length, set,
}
use aera_v.Common.Int.{ℤ, pos, ◌+ℤ◌, ◌≤ℤ◌, leb_ℤ, saturating_sub_i64}
use aera_v.Oracle.State.{OracleState}
use aera_v.Oracle.MarketOracle.{MarketOracle, Observation, latest, last, ordered}
use aera_v.Oracle.History.{NoneAfter, latest-newest}
use aera_v.Oracle.Bootstrap.{length-sort_observations}
use aera_v.Instructions.RefreshMarket.{
  RefreshMarketOracle, is_recorded, push_observation, handle_refresh_market_oracle,
}
use aera_v.Safety.MarketRefresh.{observed, handle_refresh_market_oracle-IsTaken}

-- Two observations that lie at least some seconds apart.
abbrev pub AreFar : ℕ → Observation → Observation → Type 0
AreFar gap a b =
    (a.unix_timestamp +ℤ pos gap ≤ℤ b.unix_timestamp)
    ⊎ (b.unix_timestamp +ℤ pos gap ≤ℤ a.unix_timestamp)

abbrev pub IsFarFrom : ℕ → Observation → List Observation → Type 0
IsFarFrom gap o [] = Unit {0}
IsFarFrom gap o (x ∷ xs) = AreFar gap o x × IsFarFrom gap o xs

-- Every two observations lie at least some seconds apart.
abbrev pub IsSpaced : ℕ → List Observation → Type 0
IsSpaced gap [] = Unit {0}
IsSpaced gap (x ∷ xs) = IsFarFrom gap x xs × IsSpaced gap xs

module _ (gap : ℕ) (o : Observation) where
  far_symm : (x : Observation) → AreFar gap o x → AreFar gap x o
  far_symm x (inl h) = inr h
  far_symm x (inr h) = inl h

  IsFarFrom-append_one :
      (x : Observation) (xs : List Observation)
      → AreFar gap x o
      → IsFarFrom gap x xs
      → IsFarFrom gap x (xs ++ (o ∷ []))
  IsFarFrom-append_one x [] h k = (h, tt)
  IsFarFrom-append_one x (y ∷ ys) h (a, k) = (a, IsFarFrom-append_one x ys h k)

  IsSpaced-append_one :
      (xs : List Observation) → IsFarFrom gap o xs → IsSpaced gap xs → IsSpaced gap (xs ++ (o ∷ []))
  IsSpaced-append_one [] h k = (tt, tt)
  IsSpaced-append_one (x ∷ xs) (a, h) (b, k) =
      (IsFarFrom-append_one x xs (far_symm x a) b, IsSpaced-append_one xs h k)

  IsFarFrom-set :
      (x : Observation) (xs : List Observation) (i : ℕ)
      → AreFar gap x o
      → IsFarFrom gap x xs
      → IsFarFrom gap x (set xs i o)
  IsFarFrom-set x [] i h k = tt
  IsFarFrom-set x (y ∷ ys) zero h (a, k) = (h, k)
  IsFarFrom-set x (y ∷ ys) (suc i) h (a, k) = (a, IsFarFrom-set x ys i h k)

  IsSpaced-set :
      (xs : List Observation) (i : ℕ)
      → IsFarFrom gap o xs
      → IsSpaced gap xs
      → IsSpaced gap (set xs i o)
  IsSpaced-set [] i h k = tt
  IsSpaced-set (x ∷ xs) zero (a, h) (b, k) = (h, k)
  IsSpaced-set (x ∷ xs) (suc i) (a, h) (b, k) =
      (IsFarFrom-set x xs i (far_symm x a) b, IsSpaced-set xs i h k)

module _ {ℓ} {A : Type ℓ} where
  pub length-append_one : (xs : List A) (a : A) → length (xs ++ (a ∷ [])) ≡ suc (length xs)
  length-append_one [] a = refl
  length-append_one (x ∷ xs) a = rw (length-append_one xs a) refl

  pub length-set : (xs : List A) (i : ℕ) (a : A) → length (set xs i a) ≡ length xs
  length-set [] i a = refl
  length-set (x ∷ xs) zero a = refl
  length-set (x ∷ xs) (suc i) a = rw (length-set xs i a) refl

saturating_sub_i64-ge :
    (a b : ℤ) (g : ℕ) → g < 2 ^ 63 → leb_ℤ (pos g) (saturating_sub_i64 a b) ≡ true → b +ℤ pos g ≤ℤ a
unfolding saturating_sub_i64
saturating_sub_i64-ge a b g small h = ground arith

NoneAfter-IsFarFrom :
    (gap : ℕ) (o : Observation) (t : ℤ) (xs : List Observation)
    → t +ℤ pos gap ≤ℤ o.unix_timestamp
    → NoneAfter t xs
    → IsFarFrom gap o xs
NoneAfter-IsFarFrom gap o t [] h k = tt
NoneAfter-IsFarFrom gap o t (x ∷ xs) h (a, k) =
    (inr (ground arith), NoneAfter-IsFarFrom gap o t xs h k)

last-none : (os : List Observation) → last os ≡ none → length os ≡ 0
unfolding last
last-none [] h = refl
last-none (x ∷ []) h = cc
last-none (x ∷ y ∷ os) h = absurd (omega (arith, last-none (y ∷ os) h))

empty-IsFarFrom :
    (gap : ℕ) (o : Observation) (os : List Observation) → length os ≡ 0 → IsFarFrom gap o os
empty-IsFarFrom gap o [] h = tt
empty-IsFarFrom gap o (x ∷ xs) h = absurd (omega arith)

recorded-IsFarFrom :
    (m : MarketOracle) (now : ℤ) (o : Observation)
    → m.config.min_spacing_seconds < 2 ^ 32
    → o.unix_timestamp ≡ now
    → is_recorded m.config (latest m) now ≡ true
    → IsFarFrom m.config.min_spacing_seconds o m.observations
unfolding is_recorded
recorded-IsFarFrom m now o small stamp h = elim (Option-cases (latest m)) [
  | inl e ↦
      let n : length (ordered m) ≡ 0 = unfold latest in last-none (ordered m) e in
      let k = length-sort_observations m.observations in
      empty-IsFarFrom _ o m.observations (unfold ordered in omega arith)
  | inr (l, e) ↦
      let (_, after) = latest-newest m l e in
      let gone : leb_ℤ (pos m.config.min_spacing_seconds) (saturating_sub_i64 now l.unix_timestamp)
          ≡ true =
        rw e at h in
      let far =
        saturating_sub_i64-ge now l.unix_timestamp m.config.min_spacing_seconds (omega arith)
          gone in
      NoneAfter-IsFarFrom m.config.min_spacing_seconds o l.unix_timestamp m.observations
        (rw stamp far) after
]

-- The history of an account: no more than 32 observations, the next index inside the ring, and every
-- two observations the configured spacing apart, which is a `u32`.
pub record IsRing (m : MarketOracle) : Type 0 where
  pub small : m.config.min_spacing_seconds < 2 ^ 32
  pub many : length m.observations ≤ 32
  pub index : m.next_index < 32
  pub spaced : IsSpaced m.config.min_spacing_seconds m.observations

push_observation-IsRing :
    (m : MarketOracle) (o : Observation)
    → IsRing m
    → IsFarFrom m.config.min_spacing_seconds o m.observations
    → IsRing (push_observation o m)
unfolding push_observation
push_observation-IsRing m o r far =
    let i : (m.next_index % 32 + 1) % 32 < 32 = omega arith in
    let spaced = r.spaced in
    let n = r.many in
    elim (Bool-cases (ltb (length m.observations) 32)) [
      | inl e ↦ rw e (record {
        small = r.small;
        many = rw (length-append_one m.observations o) (ltb→lt _ _ e);
        index = i;
        spaced = IsSpaced-append_one _ o m.observations far spaced;
      })
      | inr e ↦ rw e (record {
        small = r.small;
        many = rw (length-set m.observations (m.next_index % 32) o) n;
        index = i;
        spaced = IsSpaced-set _ o m.observations (m.next_index % 32) far spaced;
      })
    ]

-- A refresh that goes through keeps the history in order: at most 32 observations, the next index
-- inside the ring, and every two observations at least the configured spacing apart.
pub handle_refresh_market_oracle-IsRing :
    (clock : Clock) (a : RefreshMarketOracle) (s s' : OracleState) (m m' : MarketOracle)
    → IsRing m
    → handle_refresh_market_oracle clock a s m ≡ ok (s', m')
    → IsRing m'
handle_refresh_market_oracle-IsRing clock a s s' m m' r e =
    let t = Ensures-ok (handle_refresh_market_oracle-IsTaken clock a s m) e in
    let h = t.history in
    elim (Bool-cases (is_recorded m.config (latest m) clock.unix_timestamp)) [
      | inl b ↦
          let h' = rw b at h in
          rw h' (
            push_observation-IsRing m (observed clock t.reading) r (
              recorded-IsFarFrom m clock.unix_timestamp (observed clock t.reading) (r.small) refl
                b))
      | inr b ↦ let h' = rw b at h in rw h' r
    ]
