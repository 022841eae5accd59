-- ===== src/Instructions/SetOracle.antt =====
-- programs/aera/src/instructions/admin/init_oracle.rs
use aera_v.Common.{
  ℕ, ◌-◌, not, ◌||◌, Outcome, ok, AeraError, ◌>>◌, require, u128_bound, ◌==◌, if◌then◌else◌, Pubkey,
  default_pubkey,
}
use aera_v.Common.Int.{pos}
use aera_v.Constants.{
  fixed_point_scale, default_max_up_bps_per_epoch, default_max_down_bps_per_epoch,
  default_emergency_deviation_bps, default_max_epoch_allowance,
}
use aera_v.Global.{Global}
use aera_v.Oracle.Health.{borrow_frozen, health_to_u8}
use aera_v.Oracle.Breaker.{BreakerConfig, Reference}
use aera_v.Oracle.State.{OracleState, validate_config}

pub record OracleConfig : Type 0 where
  pub source_kind : ℕ
  pub source_program : Pubkey
  pub source_account : Pubkey
  pub max_withdrawal_fee_bps : ℕ
  pub rate_floor : ℕ
  pub rate_ceiling : ℕ
  pub expected_deploy_slot : ℕ
  pub expected_upgrade_authority : Pubkey
  pub breaker : BreakerConfig

-- `OracleConfig::native`
abbrev pub native_config :
    (source_program source_account : Pubkey)
    (max_withdrawal_fee_bps rate_floor rate_ceiling expected_deploy_slot : ℕ)
    (expected_upgrade_authority : Pubkey)
    → OracleConfig
native_config program account fee floor ceiling slot authority = record {
  source_kind = 1;
  source_program = program;
  source_account = account;
  max_withdrawal_fee_bps = fee;
  rate_floor = floor;
  rate_ceiling = ceiling;
  expected_deploy_slot = slot;
  expected_upgrade_authority = authority;
  breaker = record {
    max_up_bps_per_epoch = default_max_up_bps_per_epoch;
    max_down_bps_per_epoch = default_max_down_bps_per_epoch;
    emergency_deviation_bps = default_emergency_deviation_bps;
    max_epoch_allowance = default_max_epoch_allowance;
  };
}

abbrev still_breaker : BreakerConfig
still_breaker = record {
  max_up_bps_per_epoch = 0;
  max_down_bps_per_epoch = 0;
  emergency_deviation_bps = 1;
  max_epoch_allowance = 1;
}

-- `OracleConfig::unit_of_account`
abbrev pub unit_config : OracleConfig
unit_config = record {
  source_kind = 0;
  source_program = default_pubkey;
  source_account = default_pubkey;
  max_withdrawal_fee_bps = 0;
  rate_floor = fixed_point_scale;
  rate_ceiling = fixed_point_scale;
  expected_deploy_slot = 0;
  expected_upgrade_authority = default_pubkey;
  breaker = still_breaker;
}

-- `OracleConfig::market_twap`
abbrev pub market_twap_config : OracleConfig
market_twap_config = record {
  source_kind = 2;
  source_program = default_pubkey;
  source_account = default_pubkey;
  max_withdrawal_fee_bps = 0;
  rate_floor = 1;
  rate_ceiling = u128_bound - 1;
  expected_deploy_slot = 0;
  expected_upgrade_authority = default_pubkey;
  breaker = still_breaker;
}

-- The accounts of `SetOracle`, without the oracle; `market_global` is what the market records.
pub record SetOracle : Type 0 where
  pub global : Global
  pub global_key : Pubkey
  pub market : Pubkey
  pub market_global : Pubkey
  pub mint : Pubkey
  pub admin : Pubkey

-- `Reference::default()`
abbrev pub default_reference : Reference
default_reference = record {
  gross_rate = 0;
  effective_rate = 0;
  withdrawal_fee_bps = 0;
  source_epoch = 0;
  slot = 0;
  unix_timestamp = pos 0;
}

unfoldable pub configure : OracleConfig → (market mint : Pubkey) → OracleState → OracleState
configure c market mint s = record s {
  market = market;
  mint = mint;
  source_kind = c.source_kind;
  source_program = c.source_program;
  source_account = c.source_account;
  max_withdrawal_fee_bps = c.max_withdrawal_fee_bps;
  rate_floor = c.rate_floor;
  rate_ceiling = c.rate_ceiling;
  expected_deploy_slot = c.expected_deploy_slot;
  expected_upgrade_authority = c.expected_upgrade_authority;
  breaker = c.breaker;
}

-- `OracleState::validate_config` on the fields of a configuration.
unfoldable pub validate_oracle_config : OracleConfig → Outcome (Unit {0})
validate_oracle_config c =
    validate_config c.source_kind c.source_program c.source_account c.max_withdrawal_fee_bps
      c.rate_floor c.rate_ceiling c.breaker

unfoldable pub handle_set_oracle : SetOracle → OracleConfig → OracleState → Outcome OracleState
handle_set_oracle a c s = do
  require (a.global.admin == a.admin) AeraError.not_admin
  require (a.market_global == a.global_key) AeraError.global_mismatch
  validate_oracle_config c
  let source_changed =
      not (s.source_account == c.source_account)
      || not (s.source_program == c.source_program)
      || not (s.source_kind == c.source_kind)
      || not (s.expected_deploy_slot == c.expected_deploy_slot)
      || not (s.expected_upgrade_authority == c.expected_upgrade_authority)
  let configured = configure c a.market a.mint s
  let anchored =
      if source_changed
      then record configured {
        reference = default_reference;
        last_moved_bps = 0;
        last_source_epoch = 0;
      }
      else configured
  ok (record anchored { health = health_to_u8 borrow_frozen; last_refresh_slot = 0 })
