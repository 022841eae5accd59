-- ===== src/Oracle/Bootstrap.antt =====
-- When state/market_oracle.rs counts the history of a market as long enough to price against.
use mathlib.Core.List.{Memᴰ}
use aera_v.Common.{
  ℕ, suc, ◌≤◌, ◌≡◌, refl, true, List, [], ◌∷◌, ok, leb, leb→le, arith, Bool-cases, Option-cases,
  inl, inr, ◌⊎◌, length, Ensures, Ensures->>=, Ensures-ok, Ensures-map, Ensures-if, Ensures-skip,
  returns, require-Ensures,
}
use aera_v.Common.Int.{ℤ, pos, ◌≤ℤ◌, leb_ℤ, ◌+ℤ◌, ◌-ℤ◌, panicking_sub_i64}
use aera_v.Oracle.MarketOracle.{
  Observation, MarketOracle, MarketOracleConfig, validate_market_config, least_span_seconds,
  insert_observation, sort_observations, ordered, last, span_of, span_seconds, is_bootstrapped,
}
use aera_v.Oracle.History.{last-mem, sort_observations-mem}

length-insert_observation :
    (o : Observation) (os : List Observation) → length (insert_observation o os) ≡ suc (length os)
unfolding insert_observation
length-insert_observation o [] = refl
length-insert_observation o (x ∷ xs) = elim (Bool-cases (leb_ℤ o.unix_timestamp x.unix_timestamp)) [
  | inl e ↦ rw e refl
  | inr e ↦ rw (e, length-insert_observation o xs) refl
]

pub length-sort_observations : (os : List Observation) → length (sort_observations os) ≡ length os
unfolding sort_observations
length-sort_observations [] = refl
length-sort_observations (o ∷ os) =
    rw (length-insert_observation o (sort_observations os), length-sort_observations os) refl

add_sub_cancel_ℤ : (a b : ℤ) → a +ℤ (b -ℤ a) ≤ℤ b
add_sub_cancel_ℤ a b = ground arith

add_mono_ℤ : (a b c d : ℤ) → a +ℤ b ≤ℤ d → c ≤ℤ b → a +ℤ c ≤ℤ d
add_mono_ℤ a b c d h k = ground arith

-- Two observations of a list that lie some seconds apart.
pub record AreApart (seconds : ℤ) (os : List Observation) : Type 0 where
  pub first : Observation
  pub second : Observation
  pub first_recorded : Memᴰ first os
  pub second_recorded : Memᴰ second os
  pub apart : first.unix_timestamp +ℤ seconds ≤ℤ second.unix_timestamp

span_of-AreApart : (os : List Observation) → Ensures (λ s. (s ≡ pos 0) ⊎ AreApart s os) (span_of os)
unfolding span_of panicking_sub_i64
span_of-AreApart [] = returns (inl refl)
span_of-AreApart (o ∷ os) = elim (Option-cases (last (o ∷ os))) [
  | inl e ↦ rw e (returns (inl refl))
  | inr (n, e) ↦ rw e (
      Ensures-if _ _ _ λ _. inr (record {
        first = o;
        second = n;
        first_recorded = Memᴰ.head refl;
        second_recorded = last-mem (o ∷ os) n e;
        apart = add_sub_cancel_ℤ o.unix_timestamp n.unix_timestamp;
      }))
]

validate_market_config-Ensures :
    (c : MarketOracleConfig)
    → Ensures
        (λ (_ : Unit {0}). (least_span_seconds ≤ c.min_span_seconds) × (2 ≤ c.min_observations))
        (validate_market_config c)
unfolding validate_market_config
validate_market_config-Ensures c = Ensures-skip _ λ _. Ensures-skip _ λ _. Ensures-skip _ λ _.
    Ensures->>= (require-Ensures _ _) λ _ span. Ensures-skip _ λ _.
      Ensures->>= (require-Ensures _ _) λ _ count.
        Ensures-skip _ λ _. Ensures-map (require-Ensures _ _) λ _ _. (leb→le _ _ span, ground arith)

is_bootstrapped-Ensures :
    (m : MarketOracle)
    → Ensures
        (λ b.
          b ≡ true
          → (m.config.min_observations ≤ length m.observations)
            × ((s : ℤ) × (pos m.config.min_span_seconds ≤ℤ s)
                × ((s ≡ pos 0) ⊎ AreApart s (ordered m))))
        (is_bootstrapped m)
unfolding is_bootstrapped span_seconds ordered
is_bootstrapped-Ensures m =
    elim (Bool-cases (leb m.config.min_observations (length (sort_observations m.observations)))) [
      | inl e ↦ rw e (
          Ensures->>= (span_of-AreApart (sort_observations m.observations)) λ s h. returns λ long.
            let n = length-sort_observations m.observations in
            (ground arith, (s, leb→le _ _ long, h)))
      | inr e ↦ rw e (returns λ h. cc)
    ]

recorded :
    (s : ℤ) (k : ℕ) (m : MarketOracle)
    → pos k ≤ℤ s
    → AreApart s (ordered m)
    → AreApart (pos k) m.observations
unfolding ordered
recorded s k m h a = record {
  first = a.first;
  second = a.second;
  first_recorded = sort_observations-mem a.first m.observations a.first_recorded;
  second_recorded = sort_observations-mem a.second m.observations a.second_recorded;
  apart = add_mono_ℤ a.first.unix_timestamp s (pos k) a.second.unix_timestamp a.apart h;
}

-- With a configuration that passed its validation, a market counts as bootstrapped only when at
-- least the configured number of observations is recorded, two or more, and two of them lie the
-- configured span apart, which is at least 300 seconds.
pub is_bootstrapped-AreApart :
    (m : MarketOracle)
    → validate_market_config m.config ≡ ok tt
    → is_bootstrapped m ≡ ok true
    → (2 ≤ m.config.min_observations)
      × (m.config.min_observations ≤ length m.observations)
      × (300 ≤ m.config.min_span_seconds)
      × AreApart (pos m.config.min_span_seconds) m.observations
is_bootstrapped-AreApart m v e =
    let (span, count) = Ensures-ok (validate_market_config-Ensures m.config) v in
    let (many, (s, long, h)) = Ensures-ok (is_bootstrapped-Ensures m) e refl in
    elim h [
      | inl z ↦
          let long' : pos m.config.min_span_seconds ≤ℤ pos 0 = rw z at long in absurd (omega arith)
      | inr a ↦ (count, many, span, recorded s m.config.min_span_seconds m long a)
    ]
