-- ===== src/Tests/MarketSetup.antt =====
-- A market oracle that is created and then configured anew, and the theorem on such runs.
use aera_v.Common.{◌≡◌, refl, [], ok, ◌>>=◌, require}
use aera_v.Common.Int.{pos, checked_add_i64}
use aera_v.Constants.{fixed_point_scale}
use aera_v.Oracle.Health.{kind_from_u8}
use aera_v.Oracle.MarketOracle.{
  MarketOracle, MarketOracleConfig, validate_market_config, market_is_tightening_from,
}
use aera_v.Instructions.MarketConfig.{
  InitMarketOracle, handle_init_market_oracle, handle_set_market_oracle_config,
  handle_apply_pending_market_oracle_config,
}
use aera_v.Safety.MarketRun.{IsMarketSound, MarketRun, MarketRun-IsMarketSound}
use aera_v.Tests.{now, later, global, oracle_at}
use aera_v.Tests.Markets.{market, market_config}

abbrev setup : InitMarketOracle
setup = record {
  global = global;
  admin = 1;
  oracle_key = 30;
  oracle = record (oracle_at fixed_point_scale) { source_kind = 2 };
  collateral_mint = 91;
  quote_mint = 92;
  collateral_decimals = 6;
  quote_decimals = 9;
  pool_a = market.pool_a;
  pool_b = market.pool_b;
}

abbrev zero_config : MarketOracleConfig
zero_config = record {
  amm_program = 0;
  amm_program_data = 0;
  expected_deploy_slot = 0;
  twap_window_seconds = 0;
  min_observations = 0;
  min_span_seconds = 0;
  min_spacing_seconds = 0;
  max_observation_age_seconds = 0;
  warn_age_seconds = 0;
  max_cross_pool_deviation_bps = 0;
  min_pool_quote_depth = 0;
  max_rise_bps_per_window = 0;
}

abbrev fresh : MarketOracle
fresh = record market { observations = []; next_index = 0; pending_config = zero_config }

abbrev looser : MarketOracleConfig
looser = record market_config { max_rise_bps_per_window = 1_500 }

abbrev queued : MarketOracle
queued = record fresh { pending_config = looser; pending_eta = pos 8600 }

fresh_created : handle_init_market_oracle setup market_config ≡ ok fresh
unfolding handle_init_market_oracle validate_market_config kind_from_u8 ◌>>=◌ require
fresh_created = refl

looser_waits : handle_set_market_oracle_config now global 1 looser fresh ≡ ok queued
unfolding handle_set_market_oracle_config validate_market_config market_is_tightening_from
    checked_add_i64 ◌>>=◌ require
looser_waits = refl

looser_applied :
    handle_apply_pending_market_oracle_config later queued
    ≡ ok (record queued { config = looser; pending_eta = pos 0 })
unfolding handle_apply_pending_market_oracle_config ◌>>=◌ require
looser_applied = refl

MarketRun-IsMarketSound_example :
    IsMarketSound (record queued { config = looser; pending_eta = pos 0 })
MarketRun-IsMarketSound_example =
    MarketRun-IsMarketSound (record queued { config = looser; pending_eta = pos 0 })
      (MarketRun.applied later looser_applied (
        MarketRun.configured now global 1 looser looser_waits
          (MarketRun.created setup market_config fresh_created)))
