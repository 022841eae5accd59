-- ===== src/Tests/Migrations.antt =====
-- The theorems on the migrations, at a concrete reserve and `Global`.
use aera_v.Common.{
  ◌+◌, ◌≡◌, refl, [], ◌∷◌, ◌++◌, ok, true, RawAccount, ◌>>=◌, require, narrow, checked_mul,
  checked_sub, checked_add, take, drop, range_at, get_range, from_le_bytes,
}
use aera_v.Math.{mul_div_floor, mul_div_ceil, move_bps}
use aera_v.Reserve.{Reserve}
use aera_v.Oracle.Health.{native_exchange_rate, kind_from_u8, bootstrapping}
use aera_v.Oracle.Breaker.{needs_bootstrap, bootstrap_verdict, validate_breaker}
use aera_v.Oracle.State.{record_observation, validate_config, validate_source}
use aera_v.Oracle.Deployment.{
  program_data_address, read_authority, read_deployment, is_immutable, verify_matches_pin,
}
use aera_v.Oracle.Validation.{require_configured_account, require_read_only, require_alive}
use aera_v.Oracle.StakePool.{
  read_u8, read_u64, read_pubkey, read_fee_bps, skip_tagged, skip_future_fee, skip_option_pubkey,
  parse_stake_pool, withdrawal_fee_of, gross_rate_of, previous_epoch_rate,
}
use aera_v.Oracle.Native.{apply_withdrawal_fee, observe}
use aera_v.Instructions.SetOracle.{OracleConfig, configure, validate_oracle_config}
use aera_v.Instructions.Migrate.{
  Runtime, MigrateReserveToV2, Migrated, same_bytes, require_discriminator, require_stored_admin,
  snapshot_of, same_snapshot, migrate_reserve_constraints, require_migratable, bounds_of,
  bootstrap_observation, migration_verdict, close_feed, handle_migrate_reserve_to_v2, top_up,
  handle_migrate_global_to_v2, legacy_price_feed_discriminator,
}
use aera_v.Safety.Migration.{
  IsCarriedOver, handle_migrate_reserve_to_v2-IsCarriedOver, IsStamped,
  handle_migrate_global_to_v2-IsStamped,
}
use aera_v.Tests.{zeros, to_le_bytes, now, usdc, breaker}
use aera_v.Tests.Sources.{loader, pool_account, program_data, seen, unset}

abbrev runtime : Runtime
runtime = record {
  id = 900;
  price_feed_address = λ market mint. market + mint + 1000;
  oracle_address = λ market mint. market + mint + 2000;
  global_discriminator = 1 ∷ 2 ∷ 3 ∷ 4 ∷ 5 ∷ 6 ∷ 7 ∷ 8 ∷ [];
  minimum_balance = λ n. n;
  transfer = λ amount from to. checked_sub from amount >>= λ left. ok (left, to + amount);
}

-- A `Global` of the first version, of the admin 1.
abbrev old_global : RawAccount
old_global = record {
  key = 4;
  owner = 900;
  is_writable = true;
  lamports = 83;
  bytes = (1 ∷ 2 ∷ 3 ∷ 4 ∷ 5 ∷ 6 ∷ 7 ∷ 8 ∷ []) ++ (to_le_bytes 32 1 ++ zeros 43);
}

abbrev new_global : RawAccount
new_global = record old_global { lamports = 84; bytes = old_global.bytes ++ (2 ∷ []) }

global_migrated : handle_migrate_global_to_v2 runtime 1 500 old_global ≡ ok (new_global, 499)
unfolding handle_migrate_global_to_v2 require_discriminator require_stored_admin same_bytes top_up
    ◌>>=◌ require checked_sub take drop get_range from_le_bytes
global_migrated = refl

handle_migrate_global_to_v2-IsStamped_example : IsStamped runtime 1 700 old_global new_global
handle_migrate_global_to_v2-IsStamped_example =
    handle_migrate_global_to_v2-IsStamped runtime 1 500 499 700 old_global new_global
      global_migrated

abbrev feed : RawAccount
feed = record {
  key = 1074;
  owner = 900;
  is_writable = true;
  lamports = 30;
  bytes = legacy_price_feed_discriminator ++ zeros 8;
}

abbrev legacy_reserve : Reserve
legacy_reserve = record usdc { oracle = 1074 }

abbrev staked_config : OracleConfig
staked_config = record {
  source_kind = 1;
  source_program = 60;
  source_account = 61;
  max_withdrawal_fee_bps = 300;
  rate_floor = 1;
  rate_ceiling = 10_000_000_000_000_000_000;
  expected_deploy_slot = 9;
  expected_upgrade_authority = 44;
  breaker = breaker;
}

abbrev migration : MigrateReserveToV2
migration = record {
  global = old_global;
  market = 3;
  market_global = 4;
  legacy_price_feed = feed;
  liquidity_mint = 71;
  oracle_key = 2074;
  oracle = unset;
  admin = 1;
  admin_lamports = 500;
  remaining = pool_account ∷ program_data ∷ [];
}

abbrev migrated : Migrated
migrated = record {
  reserve = record legacy_reserve { oracle = 2074 };
  oracle =
      record_observation (configure staked_config 3 71 unset) seen
        (record { accept = true; health = bootstrapping; moved_bps = 45 }) 10;
  legacy_price_feed = close_feed feed;
  admin_lamports = 530;
}

reserve_migrated :
    handle_migrate_reserve_to_v2 runtime loader now migration staked_config legacy_reserve
    ≡ ok migrated
unfolding handle_migrate_reserve_to_v2 migrate_reserve_constraints require_migratable
    require_discriminator require_stored_admin same_bytes validate_oracle_config validate_config
    validate_breaker validate_source kind_from_u8 bootstrap_observation bounds_of migration_verdict
    needs_bootstrap bootstrap_verdict move_bps snapshot_of same_snapshot require_configured_account
    require_read_only require_alive observe read_deployment read_authority program_data_address
    verify_matches_pin is_immutable parse_stake_pool read_u8 read_u64 read_pubkey read_fee_bps
    skip_tagged skip_future_fee skip_option_pubkey withdrawal_fee_of gross_rate_of
    previous_epoch_rate apply_withdrawal_fee mul_div_floor mul_div_ceil ◌>>=◌ require narrow
    checked_mul checked_sub checked_add take drop range_at get_range from_le_bytes
reserve_migrated = refl

config_is_native : kind_from_u8 staked_config.source_kind ≡ ok native_exchange_rate
unfolding kind_from_u8
config_is_native = refl

handle_migrate_reserve_to_v2-IsCarriedOver_example :
    IsCarriedOver runtime migration legacy_reserve migrated
handle_migrate_reserve_to_v2-IsCarriedOver_example =
    handle_migrate_reserve_to_v2-IsCarriedOver runtime loader now migration staked_config
      legacy_reserve migrated config_is_native reserve_migrated
