-- ===== src/Oracle/StakePool.antt =====
-- programs/aera/src/oracle/native_bcook.rs: the stake pool account and the rate it yields, with
-- `apply_withdrawal_fee` of oracle/mod.rs.
use aera_v.Common.{
  ℕ, ◌+◌, max, ◌||◌, Option, none, some, List, [], ◌∷◌, Outcome, ok, err, AeraError, ◌>>=◌, ◌>>◌,
  require, ltb, leb, ◌==◌, if◌then◌else◌, Pubkey, length, get_elem?, Bytes, get_range,
  from_le_bytes, u16_bound,
}
use aera_v.Constants.{bps_denominator, fixed_point_scale}
use aera_v.Math.{mul_div_floor, mul_div_ceil}

-- `ACCOUNT_TYPE_STAKE_POOL`
abbrev pub account_type_stake_pool : ℕ
account_type_stake_pool = 1

abbrev pub stake_pool_len : ℕ
stake_pool_len = 611

abbrev pub off_account_type : ℕ
off_account_type = 0

-- `FEE_LEN`
abbrev pub fee_len : ℕ
fee_len = 16

-- The other offsets are running sums over the fields before.
abbrev pub off_pool_mint : ℕ
off_pool_mint = off_account_type + 1 + 32 + 32 + 32 + 1 + 32 + 32

abbrev pub off_token_program : ℕ
off_token_program = off_pool_mint + 32 + 32

abbrev pub off_total_lamports : ℕ
off_total_lamports = off_token_program + 32

abbrev pub off_pool_token_supply : ℕ
off_pool_token_supply = off_total_lamports + 8

abbrev pub off_last_update_epoch : ℕ
off_last_update_epoch = off_pool_token_supply + 8

abbrev pub off_variable : ℕ
off_variable = off_last_update_epoch + 8 + 48 + fee_len

-- `.ok_or(AeraError::OracleAccountMalformed)?`
abbrev pub or_malformed {ℓ} : {A : Type ℓ} → Option A → Outcome A
or_malformed none = err AeraError.oracle_account_malformed
or_malformed (some a) = ok a

unfoldable pub read_u8 : Bytes → ℕ → Outcome ℕ
read_u8 bytes at = or_malformed (get_elem? bytes at)

unfoldable pub read_u64 : Bytes → ℕ → Outcome ℕ
read_u64 bytes at = do range ← or_malformed (get_range bytes at 8); ok (from_le_bytes range)

unfoldable pub read_pubkey : Bytes → ℕ → Outcome Pubkey
read_pubkey bytes at = do range ← or_malformed (get_range bytes at 32); ok (from_le_bytes range)

-- The conversion of `read_fee_bps`: a zero denominator is no fee.
unfoldable pub fee_bps_of : (denominator numerator : ℕ) → Outcome ℕ
fee_bps_of denominator numerator = if denominator == 0 then ok 0 else do
  require (leb numerator denominator) AeraError.oracle_account_malformed
  bps ← mul_div_ceil numerator bps_denominator denominator
  require (ltb bps u16_bound) AeraError.oracle_account_malformed
  ok bps

unfoldable pub read_fee_bps : Bytes → ℕ → Outcome ℕ
unfolding fee_bps_of
read_fee_bps bytes at = do
  denominator ← read_u64 bytes at
  numerator ← read_u64 bytes (at + 8)
  fee_bps_of denominator numerator

-- An offset into 611 bytes: the sums of a `usize` do not overflow.
unfoldable pub skip_tagged : Bytes → ℕ → List ℕ → Outcome ℕ
skip_tagged bytes at widths = do
  tag ← read_u8 bytes at
  width ← or_malformed (get_elem? widths tag)
  ok (at + 1 + width)

unfoldable pub skip_future_fee : Bytes → ℕ → Outcome ℕ
skip_future_fee bytes at = skip_tagged bytes at (0 ∷ fee_len ∷ fee_len ∷ [])

unfoldable pub skip_option_pubkey : Bytes → ℕ → Outcome ℕ
skip_option_pubkey bytes at = skip_tagged bytes at (0 ∷ 32 ∷ [])

pub record StakePoolView : Type 0 where
  pub pool_mint : Pubkey
  pub token_program : Pubkey
  pub total_lamports : ℕ
  pub pool_token_supply : ℕ
  pub last_update_epoch : ℕ
  pub stake_withdrawal_fee_bps : ℕ
  pub sol_withdrawal_fee_bps : ℕ
  pub last_epoch_total_lamports : ℕ
  pub last_epoch_pool_token_supply : ℕ

-- `StakePoolView::withdrawal_fee_bps`
unfoldable pub withdrawal_fee_of : StakePoolView → ℕ
withdrawal_fee_of view = max view.stake_withdrawal_fee_bps view.sol_withdrawal_fee_bps

unfoldable pub parse_stake_pool : Bytes → Outcome StakePoolView
parse_stake_pool bytes = do
  require (length bytes == stake_pool_len) AeraError.oracle_account_malformed
  account_type ← read_u8 bytes off_account_type
  require (account_type == account_type_stake_pool) AeraError.oracle_account_malformed
  pool_mint ← read_pubkey bytes off_pool_mint
  token_program ← read_pubkey bytes off_token_program
  total_lamports ← read_u64 bytes off_total_lamports
  pool_token_supply ← read_u64 bytes off_pool_token_supply
  last_update_epoch ← read_u64 bytes off_last_update_epoch
  -- next_epoch_fee and the two preferred validators
  after_epoch_fee ← skip_future_fee bytes off_variable
  after_deposit_vote ← skip_option_pubkey bytes after_epoch_fee
  after_withdraw_vote ← skip_option_pubkey bytes after_deposit_vote
  -- stake_deposit_fee, then stake_withdrawal_fee
  let at_stake_fee = after_withdraw_vote + fee_len
  stake_withdrawal_fee_bps ← read_fee_bps bytes at_stake_fee
  after_stake_fee ← skip_future_fee bytes (at_stake_fee + fee_len)
  -- stake_referral_fee, one byte
  after_sol_authority ← skip_option_pubkey bytes (after_stake_fee + 1)
  -- sol_deposit_fee and sol_referral_fee
  after_withdraw_authority ← skip_option_pubkey bytes (after_sol_authority + fee_len + 1)
  sol_withdrawal_fee_bps ← read_fee_bps bytes after_withdraw_authority
  at_last_epoch ← skip_future_fee bytes (after_withdraw_authority + fee_len)
  last_epoch_pool_token_supply ← read_u64 bytes at_last_epoch
  last_epoch_total_lamports ← read_u64 bytes (at_last_epoch + 8)
  ok (record {
    pool_mint = pool_mint;
    token_program = token_program;
    total_lamports = total_lamports;
    pool_token_supply = pool_token_supply;
    last_update_epoch = last_update_epoch;
    stake_withdrawal_fee_bps = stake_withdrawal_fee_bps;
    sol_withdrawal_fee_bps = sol_withdrawal_fee_bps;
    last_epoch_total_lamports = last_epoch_total_lamports;
    last_epoch_pool_token_supply = last_epoch_pool_token_supply;
  })

unfoldable pub previous_epoch_rate : StakePoolView → Outcome (Option ℕ)
previous_epoch_rate view =
    if view.last_epoch_pool_token_supply == 0 || view.last_epoch_total_lamports == 0
    then ok none
    else (do
      rate ←
          mul_div_floor view.last_epoch_total_lamports fixed_point_scale
            view.last_epoch_pool_token_supply
      ok (some rate))

-- `gross_rate`
unfoldable pub gross_rate_of : StakePoolView → Outcome ℕ
gross_rate_of view = do
  require (ltb 0 view.pool_token_supply) AeraError.oracle_zero_supply
  require (ltb 0 view.total_lamports) AeraError.oracle_zero_backing
  mul_div_floor view.total_lamports fixed_point_scale view.pool_token_supply
