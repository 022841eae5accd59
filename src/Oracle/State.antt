-- ===== src/Oracle/State.antt =====
-- programs/aera/src/state/oracle.rs: the protocol's memory of an asset's rate.
use aera_v.Common.{
  ℕ, ◌-◌, Bool, ◌&&◌, not, Outcome, ok, AeraError, ◌>>=◌, ◌>>◌, require, u64_bound, ltb, leb, ◌==◌,
  if◌then◌else◌, Pubkey, default_pubkey, some,
}
use aera_v.Common.Int.{ℤ}
use aera_v.Constants.{bps_denominator, fixed_point_scale}
use aera_v.Oracle.Health.{
  bootstrapping, RiskAction, OracleSourceKind, unit_of_account, native_exchange_rate, market_twap,
  health_from_u8, health_to_u8, permits, refusal, kind_from_u8,
}
use aera_v.Oracle.Breaker.{
  BreakerConfig, validate_breaker, Reference, is_set, PriceObservation, Verdict,
}

pub record OracleState : Type 0 where
  pub market : Pubkey
  pub mint : Pubkey
  pub source_kind : ℕ
  pub source_program : Pubkey
  pub source_account : Pubkey
  pub max_withdrawal_fee_bps : ℕ
  pub rate_floor : ℕ
  pub rate_ceiling : ℕ
  pub expected_deploy_slot : ℕ
  pub expected_upgrade_authority : Pubkey
  pub breaker : BreakerConfig
  pub reference : Reference
  pub health : ℕ
  pub last_moved_bps : ℕ
  pub last_refresh_slot : ℕ
  pub last_source_epoch : ℕ

-- `OracleState::effective_rate`
unfoldable pub effective_rate : OracleState → Outcome ℕ
effective_rate s = do
  require (is_set s.reference) AeraError.invalid_oracle_price
  ok s.reference.effective_rate

-- `OracleState::require_permits`
unfoldable pub require_permits : OracleState → RiskAction → Outcome (Unit {0})
require_permits s action = do
  health ← health_from_u8 s.health
  require (permits health action) (refusal health)

-- `OracleState::require_fresh`
unfoldable pub require_fresh : OracleState → ℕ → Outcome (Unit {0})
require_fresh s current_slot = require (s.last_refresh_slot == current_slot) AeraError.oracle_stale

-- `OracleState::is_bootstrapping`
unfoldable pub is_bootstrapping : OracleState → Outcome Bool
is_bootstrapping s = do
  health ← health_from_u8 s.health
  ok (health_to_u8 health == health_to_u8 bootstrapping)

abbrev to_reference : PriceObservation → Reference
to_reference o = record {
  gross_rate = o.gross_rate;
  effective_rate = o.effective_rate;
  withdrawal_fee_bps = o.withdrawal_fee_bps;
  source_epoch = o.source_epoch;
  slot = o.slot;
  unix_timestamp = o.unix_timestamp;
}

-- `OracleState::record`
unfoldable pub record_observation : OracleState → PriceObservation → Verdict → ℕ → OracleState
record_observation s o v current_slot = record s {
  last_refresh_slot = current_slot;
  last_source_epoch = o.source_epoch;
  last_moved_bps = if ltb v.moved_bps u64_bound then v.moved_bps else u64_bound - 1;
  health = health_to_u8 v.health;
  reference = if v.accept then to_reference o else s.reference;
}

-- `OracleState::validate_config`, the part that depends on the kind of source
unfoldable pub validate_source :
    OracleSourceKind
    → (source_program source_account : Pubkey) → (rate_floor rate_ceiling : ℕ) → Outcome (Unit {0})
validate_source market_twap program account floor ceiling =
    require (program == default_pubkey && account == default_pubkey) AeraError.invalid_oracle_config
validate_source unit_of_account program account floor ceiling = do
  require (program == default_pubkey && account == default_pubkey) AeraError.invalid_oracle_config
  require (leb floor fixed_point_scale && leb fixed_point_scale ceiling)
      AeraError.invalid_oracle_config
validate_source native_exchange_rate program account floor ceiling =
    require (not (program == default_pubkey) && not (account == default_pubkey))
      AeraError.invalid_oracle_config

-- `OracleState::validate_config`
unfoldable pub validate_config :
    (source_kind : ℕ) (source_program source_account : Pubkey)
    (max_withdrawal_fee_bps rate_floor rate_ceiling : ℕ)
    → BreakerConfig
    → Outcome (Unit {0})
unfolding validate_source
validate_config source_kind program account fee floor ceiling breaker = do
  kind ← kind_from_u8 source_kind
  require (ltb fee bps_denominator) AeraError.invalid_oracle_config
  require (ltb 0 floor) AeraError.invalid_oracle_config
  require (leb floor ceiling) AeraError.invalid_oracle_config
  validate_breaker breaker
  validate_source kind program account floor ceiling

-- `unit_observation`
unfoldable pub unit_observation : ℕ → ℤ → PriceObservation
unit_observation slot unix_timestamp = record {
  gross_rate = fixed_point_scale;
  withdrawal_fee_bps = 0;
  effective_rate = fixed_point_scale;
  source_epoch = 0;
  slot = slot;
  unix_timestamp = unix_timestamp;
  source = unit_of_account;
  previous_epoch_rate = some fixed_point_scale;
}
