-- ===== src/Instructions/MarketConfig.antt =====
-- programs/aera/src/instructions/admin/init_market_oracle.rs
use aera_v.Common.{
  ℕ, not, [], Outcome, ok, AeraError, ◌>>=◌, ◌>>◌, require, ◌==◌, if◌then◌else◌, Pubkey, Clock,
}
use aera_v.Common.Int.{pos, eq_ℤ, leb_ℤ, checked_add_i64}
use aera_v.Global.{Global}
use aera_v.Oracle.Health.{kind_from_u8}
use aera_v.Oracle.State.{OracleState}
use aera_v.Oracle.MarketOracle.{
  PoolRef, MarketOracle, MarketOracleConfig, validate_market_config, market_is_tightening_from,
}
use aera_v.Instructions.Constraints.{has_one}
use aera_v.Instructions.RefreshMarket.{is_market_twap}

-- The accounts and the arguments of `InitMarketOracle`. The account is created zeroed, so the
-- pending configuration that the handler leaves alone is all zeros.
pub record InitMarketOracle : Type 0 where
  pub global : Global
  pub admin : Pubkey
  pub oracle_key : Pubkey
  pub oracle : OracleState
  pub collateral_mint : Pubkey
  pub quote_mint : Pubkey
  pub collateral_decimals : ℕ
  pub quote_decimals : ℕ
  pub pool_a : PoolRef
  pub pool_b : PoolRef

abbrev zero_market_config : MarketOracleConfig
zero_market_config = record {
  amm_program = 0;
  amm_program_data = 0;
  expected_deploy_slot = 0;
  twap_window_seconds = 0;
  min_observations = 0;
  min_span_seconds = 0;
  min_spacing_seconds = 0;
  max_observation_age_seconds = 0;
  warn_age_seconds = 0;
  max_cross_pool_deviation_bps = 0;
  min_pool_quote_depth = 0;
  max_rise_bps_per_window = 0;
}

unfoldable pub handle_init_market_oracle :
    InitMarketOracle → MarketOracleConfig → Outcome MarketOracle
handle_init_market_oracle a config = do
  has_one a.global.admin a.admin
  validate_market_config config
  kind ← kind_from_u8 a.oracle.source_kind
  require (is_market_twap kind) AeraError.unknown_oracle_source
  require (not (a.pool_a.pool == a.pool_b.pool)) AeraError.invalid_oracle_config
  require (not (a.collateral_mint == a.quote_mint)) AeraError.invalid_oracle_config
  ok (record {
    oracle = a.oracle_key;
    collateral_mint = a.collateral_mint;
    quote_mint = a.quote_mint;
    collateral_decimals = a.collateral_decimals;
    quote_decimals = a.quote_decimals;
    config = config;
    pool_a = a.pool_a;
    pool_b = a.pool_b;
    observations = [];
    next_index = 0;
    pending_config = zero_market_config;
    pending_eta = pos 0;
  })

unfoldable pub handle_set_market_oracle_config :
    Clock → Global → (admin : Pubkey) → MarketOracleConfig → MarketOracle → Outcome MarketOracle
handle_set_market_oracle_config clock g admin config m = do
  has_one g.admin admin
  validate_market_config config
  if market_is_tightening_from m.config config
      then ok (record m { config = config; pending_eta = pos 0 })
      else do
        eta ← checked_add_i64 clock.unix_timestamp g.param_timelock_seconds
        ok (record m { pending_config = config; pending_eta = eta })

-- Anyone may apply a configuration whose wait is over.
unfoldable pub handle_apply_pending_market_oracle_config :
    Clock → MarketOracle → Outcome MarketOracle
handle_apply_pending_market_oracle_config clock m = do
  require (not (eq_ℤ m.pending_eta (pos 0))) AeraError.no_pending_config
  require (leb_ℤ m.pending_eta clock.unix_timestamp) AeraError.timelock_not_elapsed
  ok (record m { config = m.pending_config; pending_eta = pos 0 })
