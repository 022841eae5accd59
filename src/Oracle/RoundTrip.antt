-- ===== src/Oracle/RoundTrip.antt =====
-- What oracle/native_bcook.rs reads back from a stake pool that was written out.
use aera_v.Common.{ℕ, ◌+◌, ◌≡◌, refl, arith, ◌∷◌, ◌++◌, ok, ==_iff, ◌>>=◌, require, length, drop}
use aera_v.Oracle.StakePool.{fee_bps_of, StakePoolView, parse_stake_pool}
use aera_v.Oracle.Cursor.{
  to_le_bytes, IsAt, advance-to_le_bytes, read_u64-IsAt, read_pubkey-IsAt, read_u8-IsAt,
}
use aera_v.Oracle.Encoding.{
  StakePool, encode, IsWords, future_bytes, future_width, option_bytes, option_width, middle_bytes,
  skip_future_fee-IsAt, skip_option_pubkey-IsAt, read_fee_bps-IsAt,
}

-- The view of a pool, its two fees in basis points.
abbrev pub view_of : StakePool → (stake_bps sol_bps : ℕ) → StakePoolView
view_of p stake_bps sol_bps = record {
  pool_mint = p.pool_mint;
  token_program = p.token_program;
  total_lamports = p.total_lamports;
  pool_token_supply = p.pool_token_supply;
  last_update_epoch = p.last_update_epoch;
  stake_withdrawal_fee_bps = stake_bps;
  sol_withdrawal_fee_bps = sol_bps;
  last_epoch_total_lamports = p.last_epoch_total_lamports;
  last_epoch_pool_token_supply = p.last_epoch_pool_token_supply;
}

-- Where the keys that are not read end.
mint-IsAt :
    (p : StakePool)
    → IsAt (encode p) 162 (
        to_le_bytes 32 p.pool_mint
        ++ (to_le_bytes 32 p.manager_fee_account
            ++ (to_le_bytes 32 p.token_program
                ++ (to_le_bytes 8 p.total_lamports
                    ++ (to_le_bytes 8 p.pool_token_supply
                        ++ (to_le_bytes 8 p.last_update_epoch
                            ++ (to_le_bytes 64 p.lockup_and_epoch_fee
                                ++ (future_bytes p.next_epoch_fee
                                    ++ (option_bytes p.preferred_deposit_vote
                                        ++ (option_bytes p.preferred_withdraw_vote
                                            ++ (to_le_bytes 16 p.stake_deposit_fee
                                                ++ middle_bytes p)))))))))))
unfolding encode drop
mint-IsAt p = advance-to_le_bytes (encode p) 1 161 p.keys refl

account_type-IsAt : (p : StakePool) → IsAt (encode p) 0 (1 ∷ drop 1 (encode p))
unfolding encode drop
account_type-IsAt p = refl

-- A pool of 611 bytes that is written out is read back: its mint, its token program, its backing,
-- its supply and its epoch, the figures of the epoch before, and its two withdrawal fees as they
-- convert to basis points.
pub parse_stake_pool-encode :
    (p : StakePool) (stake_bps sol_bps : ℕ)
    → length (encode p) ≡ 611
    → IsWords p
    → fee_bps_of p.stake_withdrawal_fee.denominator p.stake_withdrawal_fee.numerator ≡ ok stake_bps
    → fee_bps_of p.sol_withdrawal_fee.denominator p.sol_withdrawal_fee.numerator ≡ ok sol_bps
    → parse_stake_pool (encode p) ≡ ok (view_of p stake_bps sol_bps)
unfolding parse_stake_pool ◌>>=◌ require
parse_stake_pool-encode p f g n w stake sol =
    let b = encode p in
    let mint = mint-IsAt p in
    let manager = advance-to_le_bytes b 162 32 p.pool_mint mint in
    let program = advance-to_le_bytes b 194 32 p.manager_fee_account manager in
    let lamports = advance-to_le_bytes b 226 32 p.token_program program in
    let supply = advance-to_le_bytes b 258 8 p.total_lamports lamports in
    let epoch = advance-to_le_bytes b 266 8 p.pool_token_supply supply in
    let lockup = advance-to_le_bytes b 274 8 p.last_update_epoch epoch in
    let variable = advance-to_le_bytes b 282 64 p.lockup_and_epoch_fee lockup in
    let a1 = 346 + 1 + future_width p.next_epoch_fee in
    let (s1, h1) = skip_future_fee-IsAt b 346 p.next_epoch_fee _ variable in
    let a2 = a1 + 1 + option_width p.preferred_deposit_vote in
    let (s2, h2) = skip_option_pubkey-IsAt b a1 p.preferred_deposit_vote _ h1 in
    let a3 = a2 + 1 + option_width p.preferred_withdraw_vote in
    let (s3, h3) = skip_option_pubkey-IsAt b a2 p.preferred_withdraw_vote _ h2 in
    let h4 = advance-to_le_bytes b a3 16 p.stake_deposit_fee h3 in
    let (s5, h5) =
      read_fee_bps-IsAt b (a3 + 16) p.stake_withdrawal_fee.denominator
        p.stake_withdrawal_fee.numerator f _ w.stake_denominator w.stake_numerator stake h4 in
    let (s6, h6) = skip_future_fee-IsAt b (a3 + 16 + 16) p.next_stake_withdrawal_fee _ h5 in
    let a6 = a3 + 16 + 16 + 1 + future_width p.next_stake_withdrawal_fee in
    let h7 = advance-to_le_bytes b a6 1 p.stake_referral_fee h6 in
    let (s8, h8) = skip_option_pubkey-IsAt b (a6 + 1) p.sol_deposit_authority _ h7 in
    let a8 = a6 + 1 + 1 + option_width p.sol_deposit_authority in
    let h9 = advance-to_le_bytes b a8 17 p.sol_deposit_and_referral_fee h8 in
    let (s10, h10) = skip_option_pubkey-IsAt b (a8 + 17) p.sol_withdraw_authority _ h9 in
    let a10 = a8 + 17 + 1 + option_width p.sol_withdraw_authority in
    let (s11, h11) =
      read_fee_bps-IsAt b a10 p.sol_withdrawal_fee.denominator p.sol_withdrawal_fee.numerator g _
        w.sol_denominator w.sol_numerator sol h10 in
    let (s12, h12) = skip_future_fee-IsAt b (a10 + 16) p.next_sol_withdrawal_fee _ h11 in
    let a12 = a10 + 16 + 1 + future_width p.next_sol_withdrawal_fee in
    let h13 = advance-to_le_bytes b a12 8 p.last_epoch_pool_token_supply h12 in
    let flat : a8 + 16 + 1 ≡ a8 + 17 = omega arith in
    rw
      (
        (==_iff _ _).1 n,
        read_u8-IsAt b 0 1 _ (account_type-IsAt p),
        read_pubkey-IsAt b 162 p.pool_mint _ w.mint mint,
        read_pubkey-IsAt b 226 p.token_program _ w.program program,
        read_u64-IsAt b 258 p.total_lamports _ w.lamports lamports,
        read_u64-IsAt b 266 p.pool_token_supply _ w.supply supply,
        read_u64-IsAt b 274 p.last_update_epoch _ w.epoch epoch,
        s1,
        s2,
        s3,
        s5,
        s6,
        s8,
        flat,
        s10,
        s11,
        s12,
        read_u64-IsAt b a12 p.last_epoch_pool_token_supply _ w.last_supply h12,
        read_u64-IsAt b (a12 + 8) p.last_epoch_total_lamports _ w.last_lamports h13,
      )
      refl
