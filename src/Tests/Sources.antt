-- ===== src/Tests/Sources.antt =====
-- The theorems on the native source of a rate, at a concrete stake pool.
use aera_v.Common.{
  arith, ◌+◌, ◌≡◌, ◌↔◌, ◌⊎◌, refl, [], ◌∷◌, ◌++◌, ok, true, false, RawAccount, Bytes, ◌>>=◌,
  require, narrow, checked_mul, checked_sub, checked_add, take, drop, range_at, get_range,
  from_le_bytes, some,
}
use aera_v.Common.Int.{pos}
use aera_v.Math.{mul_div_floor, mul_div_ceil, move_bps}
use aera_v.Oracle.Health.{
  native_exchange_rate, kind_from_u8, health_from_u8, health_to_u8, bootstrapping, healthy,
}
use aera_v.Oracle.Breaker.{
  PriceObservation, evaluate, judge, is_set, needs_bootstrap, bootstrap_verdict,
}
use aera_v.Oracle.State.{OracleState, record_observation, is_bootstrapping}
use aera_v.Oracle.Deployment.{
  Loader, program_data_address, read_authority, read_deployment, is_immutable, verify_matches_pin,
}
use aera_v.Oracle.Validation.{require_configured_account, require_read_only, require_alive}
use aera_v.Oracle.StakePool.{
  read_u8, read_u64, read_pubkey, read_fee_bps, skip_tagged, skip_future_fee, skip_option_pubkey,
  parse_stake_pool, withdrawal_fee_of, gross_rate_of, previous_epoch_rate,
}
use aera_v.Oracle.Native.{native_bounds, apply_withdrawal_fee, observe}
use aera_v.Oracle.Sources.{IsPinned, verify_matches_pin_iff, IsVerified, observe-IsVerified}
use aera_v.Instructions.RefreshOracle.{
  identify_source, judge_observation, accept_observation, enter_emergency, accept_or_freeze,
  refresh_kind, handle_refresh_oracle,
}
use aera_v.Safety.Refresh.{
  IsUnread, IsRead, IsConfigured, handle_refresh_oracle-freezes, IsWithinBreaker,
  handle_refresh_oracle-bounded,
}
use aera_v.Safety.Bootstrap.{IsClosed, handle_refresh_oracle-IsClosed}
use aera_v.Tests.{zeros, to_le_bytes, now, oracle_at, rate_at}

-- The pool of mint 71, with 110 tokens behind 100 and a fee of two per cent.
abbrev pool_bytes : Bytes
pool_bytes =
    (1 ∷ zeros 161)
    ++ (to_le_bytes 32 71
        ++ (zeros 64
            ++ (to_le_bytes 8 110_000_000_000
                ++ (to_le_bytes 8 100_000_000_000
                    ++ (to_le_bytes 8 2
                        ++ (zeros 67
                            ++ (zeros 16
                                ++ (to_le_bytes 8 100
                                    ++ (to_le_bytes 8 2
                                        ++ (zeros 21
                                            ++ (to_le_bytes 8 100
                                                ++ (to_le_bytes 8 2
                                                    ++ (zeros 1
                                                        ++ (to_le_bytes 8 100_000_000_000
                                                            ++ (to_le_bytes 8 109_500_000_000
                                                            ++ zeros 176)))))))))))))))

abbrev pub loader : Loader
loader = record {
  bpf_loader_upgradeable = 50;
  find_program_address = λ seed program. seed + program;
}

abbrev pub pool_account : RawAccount
pool_account = record {
  key = 61;
  owner = 60;
  is_writable = false;
  lamports = 1;
  bytes = pool_bytes;
}

-- Deployed in slot 9, with authority 44.
abbrev pub program_data : RawAccount
program_data = record {
  key = 110;
  owner = 50;
  is_writable = false;
  lamports = 1;
  bytes = (3 ∷ zeros 3) ++ (to_le_bytes 8 9 ++ (1 ∷ (to_le_bytes 32 44 ++ zeros 10)));
}

abbrev pub staked : OracleState
staked = record (oracle_at 1_098_000_000_000_000_000) {
  source_kind = 1;
  source_program = 60;
  source_account = 61;
  max_withdrawal_fee_bps = 300;
  expected_deploy_slot = 9;
  expected_upgrade_authority = 44;
}

abbrev pub seen : PriceObservation
seen = record {
  gross_rate = 1_100_000_000_000_000_000;
  withdrawal_fee_bps = 200;
  effective_rate = 1_078_000_000_000_000_000;
  source_epoch = 2;
  slot = 10;
  unix_timestamp = pos 5000;
  source = native_exchange_rate;
  previous_epoch_rate = some 1_095_000_000_000_000_000;
}

pool_observed :
    observe loader pool_account program_data (native_bounds staked 71) 10 (pos 5000) ≡ ok seen
unfolding observe native_bounds read_deployment read_authority program_data_address
    verify_matches_pin is_immutable parse_stake_pool read_u8 read_u64 read_pubkey read_fee_bps
    skip_tagged skip_future_fee skip_option_pubkey withdrawal_fee_of gross_rate_of
    previous_epoch_rate apply_withdrawal_fee mul_div_floor mul_div_ceil ◌>>=◌ require narrow
    checked_mul checked_sub checked_add take drop range_at get_range from_le_bytes
pool_observed = refl

observe-IsVerified_example :
    IsVerified loader pool_account program_data (native_bounds staked 71) seen
observe-IsVerified_example =
    observe-IsVerified loader pool_account program_data (native_bounds staked 71) 10 (pos 5000) seen
      pool_observed

verify_matches_pin_iff_example :
    (verify_matches_pin (record { deploy_slot = 9; upgrade_authority = 0 }) 9 44 ≡ ok tt)
    ↔ IsPinned (record { deploy_slot = 9; upgrade_authority = 0 }) 9 44
verify_matches_pin_iff_example =
    verify_matches_pin_iff (record { deploy_slot = 9; upgrade_authority = 0 }) 9 44

pub staked_is_native : kind_from_u8 staked.source_kind ≡ ok native_exchange_rate
unfolding kind_from_u8
staked_is_native = refl

-- The same oracle after its program was redeployed in slot 12.
abbrev redeployed : RawAccount
redeployed = record program_data {
  bytes = (3 ∷ zeros 3) ++ (to_le_bytes 8 12 ++ (1 ∷ (to_le_bytes 32 44 ++ zeros 10)));
}

pool-IsConfigured : IsConfigured staked pool_account
pool-IsConfigured = record { key = refl; owner = refl; read_only = refl; alive = omega arith }

handle_refresh_oracle-freezes_example :
    IsUnread now staked
      (observe loader pool_account redeployed
        (native_bounds staked staked.mint)
        now.slot
        now.unix_timestamp)
      (handle_refresh_oracle loader now (pool_account ∷ redeployed ∷ []) staked)
    ⊎ IsRead loader now pool_account redeployed staked
        (observe loader pool_account redeployed
          (native_bounds staked staked.mint)
          now.slot
          now.unix_timestamp)
        (handle_refresh_oracle loader now (pool_account ∷ redeployed ∷ []) staked)
handle_refresh_oracle-freezes_example =
    handle_refresh_oracle-freezes loader now [] staked pool_account redeployed staked_is_native
      pool-IsConfigured

-- Another account in the place of the program's data puts the same oracle into an emergency.
stray_account_freezes :
    handle_refresh_oracle loader now (pool_account ∷ pool_account ∷ []) staked
    ≡ ok (enter_emergency now staked)
unfolding handle_refresh_oracle refresh_kind accept_or_freeze identify_source
    require_configured_account require_read_only require_alive kind_from_u8 observe native_bounds
    read_deployment program_data_address ◌>>=◌ require
stray_account_freezes = refl

-- What the refresh leaves: the observation as the reference.
abbrev refreshed : OracleState
refreshed =
    record_observation staked seen (record { accept = true; health = healthy; moved_bps = 18 }) 10

staked_runs :
    handle_refresh_oracle loader now (pool_account ∷ program_data ∷ []) staked ≡ ok refreshed
unfolding handle_refresh_oracle refresh_kind accept_or_freeze accept_observation judge_observation
    identify_source require_configured_account require_read_only require_alive kind_from_u8
    is_bootstrapping is_set needs_bootstrap evaluate judge move_bps health_from_u8 health_to_u8
    observe native_bounds read_deployment read_authority program_data_address verify_matches_pin
    is_immutable parse_stake_pool read_u8 read_u64 read_pubkey read_fee_bps skip_tagged
    skip_future_fee skip_option_pubkey withdrawal_fee_of gross_rate_of previous_epoch_rate
    apply_withdrawal_fee mul_div_floor mul_div_ceil ◌>>=◌ require narrow checked_mul checked_sub
    checked_add take drop range_at get_range from_le_bytes
staked_runs = refl

staked_is_set : is_set staked.reference ≡ true
unfolding is_set
staked_is_set = refl

handle_refresh_oracle-bounded_example :
    (refreshed.reference ≡ staked.reference)
    ⊎ IsWithinBreaker staked.breaker staked.reference refreshed.reference
handle_refresh_oracle-bounded_example =
    handle_refresh_oracle-bounded loader now (pool_account ∷ program_data ∷ []) staked refreshed
      staked_is_set staked_runs

-- An oracle that has not seen a rate.
abbrev pub unset : OracleState
unset = record staked { reference = rate_at 0; health = 4 }

abbrev first_seen : OracleState
first_seen =
    record_observation unset seen (record { accept = true; health = bootstrapping; moved_bps = 45 })
      10

unset_runs :
    handle_refresh_oracle loader now (pool_account ∷ program_data ∷ []) unset ≡ ok first_seen
unfolding handle_refresh_oracle refresh_kind accept_or_freeze accept_observation judge_observation
    identify_source require_configured_account require_read_only require_alive kind_from_u8
    is_bootstrapping is_set needs_bootstrap bootstrap_verdict move_bps health_from_u8 health_to_u8
    observe native_bounds read_deployment read_authority program_data_address verify_matches_pin
    is_immutable parse_stake_pool read_u8 read_u64 read_pubkey read_fee_bps skip_tagged
    skip_future_fee skip_option_pubkey withdrawal_fee_of gross_rate_of previous_epoch_rate
    apply_withdrawal_fee mul_div_floor mul_div_ceil ◌>>=◌ require narrow checked_mul checked_sub
    checked_add take drop range_at get_range from_le_bytes
unset_runs = refl

unset_is_unset : is_set unset.reference ≡ false
unfolding is_set
unset_is_unset = refl

handle_refresh_oracle-IsClosed_example : IsClosed first_seen
handle_refresh_oracle-IsClosed_example =
    handle_refresh_oracle-IsClosed loader now (pool_account ∷ program_data ∷ []) unset first_seen
      staked_is_native unset_is_unset unset_runs
