-- ===== src/Tests/MarketRuns.antt =====
-- The theorems on the refresh of a market oracle, at two concrete pools.
use aera_v.Common.{
  ℕ, ◌+◌, ◌*◌, ◌^◌, ◌≡◌, ◌≤◌, refl, inr, [], ◌∷◌, ◌++◌, ok, true, false, RawAccount, ◌>>=◌, require,
  checked_mul, checked_add, take, drop, range_at, from_le_bytes, arith, Clock,
}
use aera_v.Common.Int.{pos, panicking_add_i64, panicking_sub_i64, saturating_sub_i64}
use aera_v.Constants.{fixed_point_scale}
use aera_v.Math.{mul_div_floor, ten_pow}
use aera_v.Math.Rounds.{IsFloor}
use aera_v.Oracle.Health.{kind_from_u8, health_to_u8}
use aera_v.Oracle.Breaker.{is_set}
use aera_v.Oracle.State.{OracleState}
use aera_v.Oracle.MarketOracle.{
  MarketOracle, latest, last, ordered, sort_observations, insert_observation, twap, weigh,
  reading_weight, add_reading, is_bootstrapped, span_seconds, span_of,
}
use aera_v.Oracle.MarketBreaker.{
  is_degraded, evaluate_market, judge_rise, judge_fall, moved_bps_from, health_of_age, worse,
  rise_bound,
}
use aera_v.Instructions.RefreshMarket.{
  Vault, RefreshMarketOracle, orient, pool_price, read_pool, deviation_bps, combine, is_recorded,
  age_of, clamp, push_observation, require_amm_deployment, write_reference, take_reading,
  handle_refresh_market_oracle,
}
use aera_v.Safety.PoolPrice.{pool_price-IsFloor}
use aera_v.Safety.MarketRefresh.{
  handle_refresh_market_oracle-unrecorded, handle_refresh_market_oracle-limited,
}
use aera_v.Safety.Ring.{IsRing, handle_refresh_market_oracle-IsRing}
use aera_v.Tests.Markets.{at_price, market}
use aera_v.Tests.{zeros, to_le_bytes, now, oracle_at}

pool_priced : pool_price 6 9 1_000_000 1_200_000_000 ≡ ok 1_200_000_000_000_000_000
unfolding pool_price mul_div_floor ten_pow ◌>>=◌ require checked_mul
pool_priced = refl

pool_price-IsFloor_example :
    IsFloor
      (1_200_000_000 * 10 ^ 6 * 1_000_000_000_000_000_000)
      (1_000_000 * 10 ^ 9)
      1_200_000_000_000_000_000
pool_price-IsFloor_example =
    pool_price-IsFloor 6 9 1_000_000 1_200_000_000 1_200_000_000_000_000_000 pool_priced

abbrev vault : ℕ → ℕ → ℕ → Vault
vault key mint amount = record { key = key; mint = mint; amount = amount }

abbrev pool_account : (key mint_a mint_b vault_a vault_b : ℕ) → RawAccount
pool_account key mint_a mint_b vault_a vault_b = record {
  key = key;
  owner = 40;
  is_writable = false;
  lamports = 1;
  bytes =
      zeros 168
      ++ (to_le_bytes 32 mint_a
          ++ (to_le_bytes 32 mint_b
              ++ (to_le_bytes 32 vault_a ++ (to_le_bytes 32 vault_b ++ zeros 816))));
}

-- Two pools, the second the other way round and a little dearer.
abbrev accounts : RefreshMarketOracle
accounts = record {
  oracle_key = 30;
  pool_a = record {
    pool = pool_account 100 91 92 101 102;
    collateral_vault = vault 101 91 1_000_000;
    quote_vault = vault 102 92 1_200_000_000;
  };
  pool_b = record {
    pool = pool_account 200 92 91 202 201;
    collateral_vault = vault 201 91 1_000_000;
    quote_vault = vault 202 92 1_210_000_000;
  };
  amm_program_data = record {
    key = 41;
    owner = 50;
    is_writable = false;
    lamports = 1;
    bytes = zeros 4 ++ to_le_bytes 8 9;
  };
}

abbrev priced : OracleState
priced = record (oracle_at fixed_point_scale) { source_kind = 2 }

abbrev accepted_at : ℕ → ℕ → Clock → OracleState
accepted_at price moved clock = record priced {
  last_refresh_slot = clock.slot;
  last_moved_bps = moved;
  health = 0;
  reference = record {
    gross_rate = price;
    effective_rate = price;
    withdrawal_fee_bps = 0;
    source_epoch = 0;
    slot = clock.slot;
    unix_timestamp = clock.unix_timestamp;
  };
}

abbrev recorded : MarketOracle
recorded = record market {
  observations =
      at_price 1_100_000_000_000_000_000 4900
      ∷ at_price 1_000_000_000_000_000_000 4000
      ∷ record {
        price = 1_200_000_000_000_000_000;
        slot = 10;
        unix_timestamp = pos 5000;
        quote_depth = 2_410_000_000;
      }
      ∷ [];
  next_index = 3;
}

-- Ten seconds after the newest observation.
abbrev soon : Clock
soon = record { slot = 9; unix_timestamp = pos 4910 }

market_refreshed :
    handle_refresh_market_oracle now accounts priced market
    ≡ ok (accepted_at 1_016_971_713_810_316_139 169 now, recorded)
unfolding handle_refresh_market_oracle kind_from_u8 require_amm_deployment read_pool orient
    pool_price deviation_bps combine take_reading latest last is_recorded push_observation age_of
    clamp write_reference is_set health_to_u8 evaluate_market judge_rise judge_fall moved_bps_from
    health_of_age worse rise_bound is_degraded twap ordered sort_observations insert_observation
    weigh reading_weight add_reading is_bootstrapped span_seconds span_of saturating_sub_i64
    panicking_add_i64 panicking_sub_i64 mul_div_floor ten_pow take drop range_at from_le_bytes ◌>>=◌
    require checked_mul checked_add
market_refreshed = refl

market_repriced :
    handle_refresh_market_oracle soon accounts priced market
    ≡ ok (accepted_at 1_000_000_000_000_000_000 16 soon, market)
unfolding handle_refresh_market_oracle kind_from_u8 require_amm_deployment read_pool orient
    pool_price deviation_bps combine take_reading latest last is_recorded push_observation age_of
    clamp write_reference is_set health_to_u8 evaluate_market judge_rise judge_fall moved_bps_from
    health_of_age worse rise_bound is_degraded twap ordered sort_observations insert_observation
    weigh reading_weight add_reading is_bootstrapped span_seconds span_of saturating_sub_i64
    panicking_add_i64 panicking_sub_i64 mul_div_floor ten_pow take drop range_at from_le_bytes ◌>>=◌
    require checked_mul checked_add
market_repriced = refl

priced_is_set : is_set priced.reference ≡ true
unfolding is_set
priced_is_set = refl

too_soon : is_recorded market.config (latest market) soon.unix_timestamp ≡ false
unfolding is_recorded latest last ordered sort_observations insert_observation saturating_sub_i64
too_soon = refl

handle_refresh_market_oracle-unrecorded_example :
    (market ≡ market) × (1_000_000_000_000_000_000 ≤ 1_000_000_000_000_000_000)
handle_refresh_market_oracle-unrecorded_example =
    handle_refresh_market_oracle-unrecorded soon accounts priced
      (accepted_at 1_000_000_000_000_000_000 16 soon) market market priced_is_set too_soon
      market_repriced

handle_refresh_market_oracle-limited_example :
    1_016_971_713_810_316_139 * 10_000 ≤ 1_000_000_000_000_000_000 * (10_000 + 1_000 + 1)
handle_refresh_market_oracle-limited_example =
    handle_refresh_market_oracle-limited now accounts priced
      (accepted_at 1_016_971_713_810_316_139 169 now) market recorded 1_200_000_000_000_000_000
      priced_is_set (omega arith)
      ((omega arith, omega arith, (omega arith, omega arith, (omega arith, omega arith, tt))))
      market_refreshed

market-IsRing : IsRing market
market-IsRing = record {
  small = omega arith;
  many = omega arith;
  index = omega arith;
  spaced = ((inr (omega arith), tt), (tt, tt));
}

handle_refresh_market_oracle-IsRing_example : IsRing recorded
handle_refresh_market_oracle-IsRing_example =
    handle_refresh_market_oracle-IsRing now accounts priced
      (accepted_at 1_016_971_713_810_316_139 169 now) market recorded market-IsRing market_refreshed
