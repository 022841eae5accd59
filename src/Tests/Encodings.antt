-- ===== src/Tests/Encodings.antt =====
-- The stake pool account that is written out and read back.
use aera_v.Common.{
  ◌≡◌, refl, none, some, ok, arith, length, ◌>>=◌, require, checked_mul, checked_sub, checked_add,
}
use aera_v.Math.{mul_div_ceil}
use aera_v.Oracle.StakePool.{fee_bps_of, parse_stake_pool}
use aera_v.Oracle.Cursor.{to_le_bytes}
use aera_v.Oracle.Encoding.{FutureFee, StakePool, encode, IsWords}
use aera_v.Oracle.RoundTrip.{view_of, parse_stake_pool-encode}

abbrev pool : StakePool
pool = record {
  keys = 5;
  pool_mint = 71;
  manager_fee_account = 6;
  token_program = 7;
  total_lamports = 110_000_000_000;
  pool_token_supply = 100_000_000_000;
  last_update_epoch = 2;
  lockup_and_epoch_fee = 0;
  next_epoch_fee = FutureFee.one 9;
  preferred_deposit_vote = none;
  preferred_withdraw_vote = some 8;
  stake_deposit_fee = 0;
  stake_withdrawal_fee = record { denominator = 100; numerator = 2 };
  next_stake_withdrawal_fee = FutureFee.never;
  stake_referral_fee = 0;
  sol_deposit_authority = none;
  sol_deposit_and_referral_fee = 0;
  sol_withdraw_authority = none;
  sol_withdrawal_fee = record { denominator = 300; numerator = 7 };
  next_sol_withdrawal_fee = FutureFee.two 3;
  last_epoch_pool_token_supply = 100_000_000_000;
  last_epoch_total_lamports = 109_500_000_000;
  padding = 112;
}

pool_length : length (encode pool) ≡ 611
unfolding encode to_le_bytes
pool_length = refl

pool-IsWords : IsWords pool
pool-IsWords = record {
  mint = omega arith;
  program = omega arith;
  lamports = omega arith;
  supply = omega arith;
  epoch = omega arith;
  stake_denominator = omega arith;
  stake_numerator = omega arith;
  sol_denominator = omega arith;
  sol_numerator = omega arith;
  last_supply = omega arith;
  last_lamports = omega arith;
}

two_per_cent : fee_bps_of 100 2 ≡ ok 200
unfolding fee_bps_of mul_div_ceil ◌>>=◌ require checked_mul checked_sub checked_add
two_per_cent = refl

seven_of_300 : fee_bps_of 300 7 ≡ ok 234
unfolding fee_bps_of mul_div_ceil ◌>>=◌ require checked_mul checked_sub checked_add
seven_of_300 = refl

parse_stake_pool-encode_example : parse_stake_pool (encode pool) ≡ ok (view_of pool 200 234)
parse_stake_pool-encode_example =
    parse_stake_pool-encode pool 200 234 pool_length pool-IsWords two_per_cent seven_of_300
