-- ===== src/Oracle/Native.antt =====
-- programs/aera/src/oracle/native_bcook.rs: `observe`, the whole of the native source, with
-- `apply_withdrawal_fee` of oracle/mod.rs and `native_bounds` of state/oracle.rs.
use aera_v.Common.{
  ℕ, ltb, leb, ◌==◌, Outcome, ok, AeraError, ◌>>=◌, ◌>>◌, require, Pubkey, RawAccount, checked_sub,
}
use aera_v.Common.Int.{ℤ}
use aera_v.Constants.{bps_denominator}
use aera_v.Math.{mul_div_floor}
use aera_v.Oracle.Health.{native_exchange_rate}
use aera_v.Oracle.Breaker.{PriceObservation}
use aera_v.Oracle.State.{OracleState}
use aera_v.Oracle.Deployment.{Loader, read_deployment, verify_matches_pin}
use aera_v.Oracle.StakePool.{
  parse_stake_pool, withdrawal_fee_of, gross_rate_of, previous_epoch_rate,
}

unfoldable pub apply_withdrawal_fee : (gross_rate withdrawal_fee_bps : ℕ) → Outcome ℕ
apply_withdrawal_fee gross_rate withdrawal_fee_bps = do
  keep ← checked_sub bps_denominator withdrawal_fee_bps
  mul_div_floor gross_rate keep bps_denominator

pub record NativeOracleBounds : Type 0 where
  pub expected_program : Pubkey
  pub expected_pool : Pubkey
  pub expected_pool_mint : Pubkey
  pub max_withdrawal_fee_bps : ℕ
  pub rate_floor : ℕ
  pub rate_ceiling : ℕ
  pub expected_deploy_slot : ℕ
  pub expected_upgrade_authority : Pubkey

-- `OracleState::native_bounds`
unfoldable pub native_bounds : OracleState → Pubkey → NativeOracleBounds
native_bounds s expected_pool_mint = record {
  expected_program = s.source_program;
  expected_pool = s.source_account;
  expected_pool_mint = expected_pool_mint;
  max_withdrawal_fee_bps = s.max_withdrawal_fee_bps;
  rate_floor = s.rate_floor;
  rate_ceiling = s.rate_ceiling;
  expected_deploy_slot = s.expected_deploy_slot;
  expected_upgrade_authority = s.expected_upgrade_authority;
}

unfoldable pub observe :
    Loader
    → (account program_data : RawAccount) → NativeOracleBounds
    → (slot : ℕ) (unix_timestamp : ℤ) → Outcome PriceObservation
observe loader account program_data bounds slot unix_timestamp = do
  observed ← read_deployment loader program_data bounds.expected_program
  verify_matches_pin observed bounds.expected_deploy_slot bounds.expected_upgrade_authority
  require (account.key == bounds.expected_pool) AeraError.oracle_account_mismatch
  require (account.owner == bounds.expected_program) AeraError.oracle_owner_mismatch
  view ← parse_stake_pool account.bytes
  require (view.pool_mint == bounds.expected_pool_mint) AeraError.oracle_mint_mismatch
  let withdrawal_fee_bps = withdrawal_fee_of view
  require (leb withdrawal_fee_bps bounds.max_withdrawal_fee_bps)
      AeraError.oracle_withdrawal_fee_too_high
  gross ← gross_rate_of view
  effective ← apply_withdrawal_fee gross withdrawal_fee_bps
  require (leb bounds.rate_floor gross) AeraError.oracle_rate_below_floor
  require (leb gross bounds.rate_ceiling) AeraError.oracle_rate_above_ceiling
  require (ltb 0 effective) AeraError.invalid_oracle_price
  previous ← previous_epoch_rate view
  ok (record {
    gross_rate = gross;
    withdrawal_fee_bps = withdrawal_fee_bps;
    effective_rate = effective;
    source_epoch = view.last_update_epoch;
    slot = slot;
    unix_timestamp = unix_timestamp;
    source = native_exchange_rate;
    previous_epoch_rate = previous;
  })
