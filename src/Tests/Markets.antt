-- ===== src/Tests/Markets.antt =====
-- The theorems on a market oracle, at two concrete pools.
use mathlib.Core.List.{Memᴰ}
use aera_v.Common.{
  ℕ, ◌+◌, ◌≡◌, ◌<◌, ◌≤◌, ◌⊎◌, refl, [], ◌∷◌, ok, true, false, length, ◌>>=◌, require, checked_mul,
  checked_add, some, arith,
}
use aera_v.Common.Int.{pos, panicking_add_i64, panicking_sub_i64, saturating_sub_i64}
use aera_v.Oracle.Health.{RiskAction, permits, health_to_u8}
use aera_v.Oracle.MarketOracle.{
  MarketOracle, MarketOracleConfig, Observation, PoolRef, validate_market_config, latest, last,
  ordered, sort_observations, insert_observation, twap, weigh, reading_weight, add_reading,
  is_bootstrapped, span_seconds, span_of, market_is_tightening_from,
}
use aera_v.Oracle.MarketBreaker.{
  Degradation, is_degraded, evaluate_market, judge_rise, moved_bps_from, health_of_age, worse,
}
use aera_v.Oracle.MarketRise.{gain, no_degradation, IsLimitedRise}
use aera_v.Oracle.MarketGate.{IsOpen, evaluate_market-opens}
use aera_v.Oracle.MarketVerdicts.{evaluate_market-IsCautious, evaluate_market-degraded}
use aera_v.Oracle.MarketCatchup.{follow, follow-converges}
use aera_v.Oracle.Twap.{twap-between}
use aera_v.Oracle.MarketTightening.{market_is_tightening_from-evaluate_market}
use aera_v.Oracle.TwapReturns.{twap-Returns}
use aera_v.Oracle.History.{NoneAfter, latest-newest}
use aera_v.Oracle.Bootstrap.{AreApart, is_bootstrapped-AreApart}

abbrev pub market_config : MarketOracleConfig
market_config = record {
  amm_program = 40;
  amm_program_data = 41;
  expected_deploy_slot = 9;
  twap_window_seconds = 600;
  min_observations = 2;
  min_span_seconds = 300;
  min_spacing_seconds = 60;
  max_observation_age_seconds = 3600;
  warn_age_seconds = 1800;
  max_cross_pool_deviation_bps = 500;
  min_pool_quote_depth = 1000;
  max_rise_bps_per_window = 1000;
}

abbrev pub at_price : ℕ → ℕ → Observation
at_price price seconds = record {
  price = price;
  slot = 1;
  unix_timestamp = pos seconds;
  quote_depth = 5000;
}

abbrev pool_key : ℕ → PoolRef
pool_key k = record { pool = k; collateral_vault = k + 1; quote_vault = k + 2 }

-- The ring holds the newer observation first.
abbrev pub market : MarketOracle
market = record {
  oracle = 30;
  collateral_mint = 91;
  quote_mint = 92;
  collateral_decimals = 6;
  quote_decimals = 9;
  config = market_config;
  pool_a = pool_key 100;
  pool_b = pool_key 200;
  observations =
      at_price 1_100_000_000_000_000_000 4900 ∷ at_price 1_000_000_000_000_000_000 4000 ∷ [];
  next_index = 2;
  pending_config = market_config;
  pending_eta = pos 0;
}

abbrev no_fault : Degradation
no_fault = record { pools_disagree = false; shallow = false }

abbrev split : Degradation
split = record { pools_disagree = true; shallow = false }

evaluate_market-IsCautious_example :
    ((1_500 ≤ 1_000)
      × ((evaluate_market (some 1_000) 1_500 true (pos 60) no_fault market_config).accepted_price
          ≡ 1_500))
    ⊎ ((1_000 < 1_500)
        × (is_degraded no_fault ≡ true)
        × ((evaluate_market (some 1_000) 1_500 true (pos 60) no_fault market_config).accepted_price
            ≡ 1_000)
        × (permits
              (evaluate_market (some 1_000) 1_500 true (pos 60) no_fault market_config).health
              RiskAction.borrow
            ≡ false))
    ⊎ ((1_000 < 1_500)
        × (is_degraded no_fault ≡ false)
        × IsLimitedRise 1_000 1_500 1_000
            (evaluate_market (some 1_000) 1_500 true (pos 60) no_fault market_config))
evaluate_market-IsCautious_example =
    evaluate_market-IsCautious 1_000 1_500 true (pos 60) no_fault market_config (omega arith)
      (omega arith)

evaluate_market-degraded_example :
    (evaluate_market (some 1_000) 1_500 true (pos 60) split market_config).accepted_price
    ≤ (evaluate_market (some 1_000) 1_500 true (pos 60) no_degradation market_config).accepted_price
evaluate_market-degraded_example =
    evaluate_market-degraded (some 1_000) 1_500 true (pos 60) split market_config (omega arith)

follow-converges_example : follow 10 1_000 2_000 market_config ≡ 2_000
unfolding gain
follow-converges_example =
    follow-converges 10 1_000 2_000 market_config (omega arith) (omega arith) (omega arith)

small_rise_open :
    permits
      (evaluate_market (some 1_000) 1_050 true (pos 60) no_fault market_config).health
      RiskAction.borrow
    ≡ true
unfolding evaluate_market judge_rise moved_bps_from health_of_age worse is_degraded permits
    health_to_u8
small_rise_open = refl

evaluate_market-opens_example :
    IsOpen
      (some 1_000)
      1_050
      true
      (pos 60)
      no_fault
      market_config
      (evaluate_market (some 1_000) 1_050 true (pos 60) no_fault market_config)
evaluate_market-opens_example =
    evaluate_market-opens (some 1_000) 1_050 true (pos 60) no_fault market_config small_rise_open

-- The older price stood for 500 of the 600 seconds of the window.
market_averaged : twap market (pos 5000) ≡ ok 1_016_666_666_666_666_666
unfolding twap ordered sort_observations insert_observation weigh reading_weight add_reading ◌>>=◌
    require checked_mul checked_add saturating_sub_i64 panicking_add_i64 panicking_sub_i64
market_averaged = refl

twap-between_example :
    (1_000_000_000_000_000_000 ≤ 1_016_666_666_666_666_666)
    × (1_016_666_666_666_666_666 ≤ 1_100_000_000_000_000_000)
twap-between_example =
    twap-between 1_000_000_000_000_000_000 1_100_000_000_000_000_000 market (pos 5000)
      1_016_666_666_666_666_666 ((omega arith, omega arith, (omega arith, omega arith, tt)))
      market_averaged

-- A shorter averaging window counts as a tightening.
window_is_tightening :
    market_is_tightening_from market_config (record market_config { twap_window_seconds = 1 })
    ≡ true
unfolding market_is_tightening_from
window_is_tightening = refl

abbrev rise_halved : MarketOracleConfig
rise_halved = record market_config { max_rise_bps_per_window = 500 }

halving_is_tightening : market_is_tightening_from market_config rise_halved ≡ true
unfolding market_is_tightening_from
halving_is_tightening = refl

market_is_tightening_from-evaluate_market_example :
    ((evaluate_market (some 1_000) 1_090 true (pos 60) no_fault rise_halved).accepted_price
      ≤ (evaluate_market (some 1_000) 1_090 true (pos 60) no_fault market_config).accepted_price)
    × ((permits
            (evaluate_market (some 1_000) 1_090 true (pos 60) no_fault rise_halved).health
            RiskAction.borrow
          ≡ false)
        ⊎ (permits
              (evaluate_market (some 1_000) 1_090 true (pos 60) no_fault market_config).health
              RiskAction.borrow
            ≡ true))
market_is_tightening_from-evaluate_market_example =
    market_is_tightening_from-evaluate_market market_config rise_halved (some 1_000) 1_090 true
      (pos 60) no_fault halving_is_tightening

market_latest : latest market ≡ some (at_price 1_100_000_000_000_000_000 4900)
unfolding latest last ordered sort_observations insert_observation
market_latest = refl

latest-newest_example :
    Memᴰ (at_price 1_100_000_000_000_000_000 4900) market.observations
    × NoneAfter (pos 4900) market.observations
latest-newest_example = latest-newest market (at_price 1_100_000_000_000_000_000 4900) market_latest

market_valid : validate_market_config market.config ≡ ok tt
unfolding validate_market_config ◌>>=◌ require
market_valid = refl

market_bootstrapped : is_bootstrapped market ≡ ok true
unfolding is_bootstrapped span_seconds span_of last ordered sort_observations insert_observation
    panicking_sub_i64 ◌>>=◌
market_bootstrapped = refl

is_bootstrapped-AreApart_example :
    (2 ≤ 2)
    × (2 ≤ length market.observations)
    × (300 ≤ 300)
    × AreApart (pos 300) market.observations
is_bootstrapped-AreApart_example = is_bootstrapped-AreApart market market_valid market_bootstrapped

twap-Returns_example : (p : ℕ) × (twap market (pos 5000) ≡ ok p)
twap-Returns_example =
    twap-Returns 5000 1_100_000_000_000_000_000 market (omega arith) (omega arith) (omega arith)
      (omega arith) (omega arith)
      (
        ((omega arith, omega arith), omega arith),
        omega arith,
        (((omega arith, omega arith), omega arith), omega arith, tt),
      )
