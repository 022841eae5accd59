-- ===== src/Oracle/MarketOracle.antt =====
-- programs/aera/src/state/market_oracle.rs: the observation history of a market-priced asset. A
-- subtraction or an addition of timestamps that leaves an `i64` aborts the program.
use aera_v.Common.{
  ℕ, ◌-◌, ◌*◌, ◌^◌, min, Bool, true, false, ◌&&◌, Option, none, some, List, [], ◌∷◌, Outcome, ok,
  AeraError, ◌>>=◌, ◌>>◌, require, checked_add, checked_mul, u128_bound, ltb, leb, ◌==◌,
  if◌then◌else◌, Pubkey, length, ◌/◌,
}
use aera_v.Common.Int.{
  ℤ, pos, leb_ℤ, max_ℤ, gap_ℤ, saturating_sub_i64, panicking_add_i64, panicking_sub_i64,
}

-- `OBSERVATION_CAPACITY`
abbrev pub observation_capacity : ℕ
observation_capacity = 32

pub record Observation : Type 0 where
  pub price : ℕ
  pub slot : ℕ
  pub unix_timestamp : ℤ
  pub quote_depth : ℕ

pub record PoolRef : Type 0 where
  pub pool : Pubkey
  pub collateral_vault : Pubkey
  pub quote_vault : Pubkey

pub record MarketOracleConfig : Type 0 where
  pub amm_program : Pubkey
  pub amm_program_data : Pubkey
  pub expected_deploy_slot : ℕ
  pub twap_window_seconds : ℕ
  pub min_observations : ℕ
  pub min_span_seconds : ℕ
  pub min_spacing_seconds : ℕ
  pub max_observation_age_seconds : ℕ
  pub warn_age_seconds : ℕ
  pub max_cross_pool_deviation_bps : ℕ
  pub min_pool_quote_depth : ℕ
  pub max_rise_bps_per_window : ℕ

-- `MarketOracleConfig::MAX_DEVIATION_BPS` and the other ceilings
abbrev pub max_deviation_bps : ℕ
max_deviation_bps = 1_000

abbrev pub max_age_seconds : ℕ
max_age_seconds = 3_600

abbrev pub max_rise_bps : ℕ
max_rise_bps = 5_000

abbrev pub least_span_seconds : ℕ
least_span_seconds = 300

abbrev pub max_twap_window_seconds : ℕ
max_twap_window_seconds = 86_400

-- `u32::saturating_mul`
abbrev pub saturating_mul_u32 : ℕ → ℕ → ℕ
saturating_mul_u32 a b = min (a * b) (2 ^ 32 - 1)

-- `MarketOracleConfig::validate`
unfoldable pub validate_market_config : MarketOracleConfig → Outcome (Unit {0})
validate_market_config c = do
  require
      (ltb 0 c.max_cross_pool_deviation_bps && leb c.max_cross_pool_deviation_bps max_deviation_bps)
      AeraError.invalid_oracle_config
  require (ltb 0 c.max_observation_age_seconds && leb c.max_observation_age_seconds max_age_seconds)
      AeraError.invalid_oracle_config
  require (ltb 0 c.max_rise_bps_per_window && leb c.max_rise_bps_per_window max_rise_bps)
      AeraError.invalid_oracle_config
  require (leb least_span_seconds c.min_span_seconds) AeraError.invalid_oracle_config
  require (ltb 0 c.twap_window_seconds && leb c.twap_window_seconds max_twap_window_seconds)
      AeraError.invalid_oracle_config
  require (leb 2 c.min_observations && leb c.min_observations observation_capacity)
      AeraError.invalid_oracle_config
  require
      (ltb 0 c.min_spacing_seconds
        && leb (saturating_mul_u32 c.min_spacing_seconds (c.min_observations - 1))
            (saturating_mul_u32 c.min_span_seconds 4))
      AeraError.invalid_oracle_config
  require (ltb c.warn_age_seconds c.max_observation_age_seconds) AeraError.invalid_oracle_config

-- `current.is_tightening_from(&next)` of `MarketOracleConfig`
unfoldable pub market_is_tightening_from : MarketOracleConfig → MarketOracleConfig → Bool
market_is_tightening_from c next =
    c.amm_program == next.amm_program
    && c.amm_program_data == next.amm_program_data
    && c.expected_deploy_slot == next.expected_deploy_slot
    && leb next.max_cross_pool_deviation_bps c.max_cross_pool_deviation_bps
    && leb next.max_observation_age_seconds c.max_observation_age_seconds
    && leb next.max_rise_bps_per_window c.max_rise_bps_per_window
    && leb c.min_observations next.min_observations
    && leb c.min_span_seconds next.min_span_seconds
    && leb c.min_spacing_seconds next.min_spacing_seconds
    && leb c.min_pool_quote_depth next.min_pool_quote_depth
    && leb next.warn_age_seconds c.warn_age_seconds

-- `MarketOracle`; `pools[0]` and `pools[1]` are two fields.
pub record MarketOracle : Type 0 where
  pub oracle : Pubkey
  pub collateral_mint : Pubkey
  pub quote_mint : Pubkey
  pub collateral_decimals : ℕ
  pub quote_decimals : ℕ
  pub config : MarketOracleConfig
  pub pool_a : PoolRef
  pub pool_b : PoolRef
  pub observations : List Observation
  pub next_index : ℕ
  pub pending_config : MarketOracleConfig
  pub pending_eta : ℤ

-- Put an observation before the first that is newer: equal timestamps keep their order when the
-- list is sorted from its end.
unfoldable pub insert_observation : Observation → List Observation → List Observation
insert_observation o [] = o ∷ []
insert_observation o (x ∷ xs) =
    if leb_ℤ o.unix_timestamp x.unix_timestamp then o ∷ x ∷ xs else x ∷ insert_observation o xs

-- `sort_by_key(|o| o.unix_timestamp)`, which is stable
unfoldable pub sort_observations : List Observation → List Observation
sort_observations [] = []
sort_observations (o ∷ os) = insert_observation o (sort_observations os)

-- `MarketOracle::ordered`
unfoldable pub ordered : MarketOracle → List Observation
ordered m = sort_observations m.observations

unfoldable pub last : List Observation → Option Observation
last [] = none
last (o ∷ []) = some o
last (o ∷ x ∷ xs) = last (x ∷ xs)

-- `MarketOracle::latest`
unfoldable pub latest : MarketOracle → Option Observation
latest m = last (ordered m)

abbrev pub span_between : Observation → Option Observation → Outcome ℤ
span_between oldest none = ok (pos 0)
span_between oldest (some newest) = panicking_sub_i64 newest.unix_timestamp oldest.unix_timestamp

unfoldable pub span_of : List Observation → Outcome ℤ
span_of [] = ok (pos 0)
span_of (o ∷ os) = span_between o (last (o ∷ os))

-- `MarketOracle::span_seconds`
unfoldable pub span_seconds : MarketOracle → Outcome ℤ
span_seconds m = span_of (ordered m)

-- `MarketOracle::is_bootstrapped`
unfoldable pub is_bootstrapped : MarketOracle → Outcome Bool
is_bootstrapped m =
    if leb m.config.min_observations (length (ordered m))
    then (do span ← span_seconds m; ok (leb_ℤ (pos m.config.min_span_seconds) span))
    else ok false

-- How long a reading stood inside the window, given those after it: 0 is `continue`.
unfoldable pub reading_weight : (now cutoff : ℤ) → Observation → List Observation → Outcome ℕ
reading_weight now cutoff o rest = do
  let from = max_ℤ o.unix_timestamp cutoff
  to ← (elim rest [
    | [] ↦ do next ← panicking_add_i64 from (pos 1); ok (max_ℤ (max_ℤ now cutoff) next)
    | newer ∷ _ ↦ ok (max_ℤ newer.unix_timestamp cutoff)
  ])
  if leb_ℤ to from then ok 0 else do _ ← panicking_sub_i64 to from; ok (gap_ℤ from to)

-- The sums so far with one reading more.
unfoldable pub add_reading : (weighted total_weight price weight : ℕ) → Outcome (ℕ × ℕ)
add_reading weighted total_weight price weight =
    if weight == 0 then ok (weighted, total_weight) else do
      product ← checked_mul u128_bound price weight
      weighted' ← checked_add u128_bound weighted product
      total' ← checked_add u128_bound total_weight weight
      ok (weighted', total')

-- The loop of `twap`: the sums over the readings.
unfoldable pub weigh :
    (now cutoff : ℤ) → List Observation → (weighted total_weight : ℕ) → Outcome (ℕ × ℕ)
weigh now cutoff [] weighted total_weight = ok (weighted, total_weight)
weigh now cutoff (o ∷ os) weighted total_weight = do
  weight ← reading_weight now cutoff o os
  (weighted', total') ← add_reading weighted total_weight o.price weight
  weigh now cutoff os weighted' total'

abbrev pub is_nonempty : List Observation → Bool
is_nonempty [] = false
is_nonempty (_ ∷ _) = true

-- `MarketOracle::twap`
unfoldable pub twap : MarketOracle → ℤ → Outcome ℕ
twap m now = do
  require (is_nonempty (ordered m)) AeraError.invalid_oracle_price
  let cutoff = saturating_sub_i64 now (pos m.config.twap_window_seconds)
  (weighted, total_weight) ← weigh now cutoff (ordered m) 0 0
  require (ltb 0 total_weight) AeraError.invalid_oracle_price
  ok (weighted / total_weight)
