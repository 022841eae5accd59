-- ===== src/Oracle/Encoding.antt =====
-- The stake pool account as oracle/native_bcook.rs describes it, written out byte by byte.
use aera_v.Common.{
  ℕ, ◌+◌, ◌^◌, ◌<◌, ◌≡◌, refl, arith, [], ◌∷◌, ◌++◌, Option, none, some, ok, ◌>>=◌, Bytes, Pubkey,
}
use aera_v.Oracle.StakePool.{
  read_fee_bps, fee_bps_of, skip_tagged, skip_future_fee, skip_option_pubkey,
}
use aera_v.Oracle.Cursor.{
  to_le_bytes, length-to_le_bytes, IsAt, advance, read_u64-IsAt, read_u8-IsAt,
}

-- `FutureEpoch<Fee>`, a fee as the number of its 16 bytes
pub data FutureFee : Type 0 where
  never : FutureFee
  one two : ℕ → FutureFee

abbrev pub future_bytes : FutureFee → Bytes
future_bytes FutureFee.never = 0 ∷ []
future_bytes (FutureFee.one v) = 1 ∷ to_le_bytes 16 v
future_bytes (FutureFee.two v) = 2 ∷ to_le_bytes 16 v

abbrev pub future_width : FutureFee → ℕ
future_width FutureFee.never = 0
future_width (FutureFee.one v) = 16
future_width (FutureFee.two v) = 16

-- `Option<Pubkey>`
abbrev pub option_bytes : Option Pubkey → Bytes
option_bytes none = 0 ∷ []
option_bytes (some k) = 1 ∷ to_le_bytes 32 k

abbrev pub option_width : Option Pubkey → ℕ
option_width none = 0
option_width (some k) = 32

-- `Fee`, the denominator first
pub record Fee : Type 0 where
  pub denominator : ℕ
  pub numerator : ℕ

-- The fields of a stake pool. Those that are not read are the numbers of their bytes.
pub record StakePool : Type 0 where
  pub keys : ℕ
  pub pool_mint : Pubkey
  pub manager_fee_account : Pubkey
  pub token_program : Pubkey
  pub total_lamports : ℕ
  pub pool_token_supply : ℕ
  pub last_update_epoch : ℕ
  pub lockup_and_epoch_fee : ℕ
  pub next_epoch_fee : FutureFee
  pub preferred_deposit_vote : Option Pubkey
  pub preferred_withdraw_vote : Option Pubkey
  pub stake_deposit_fee : ℕ
  pub stake_withdrawal_fee : Fee
  pub next_stake_withdrawal_fee : FutureFee
  pub stake_referral_fee : ℕ
  pub sol_deposit_authority : Option Pubkey
  pub sol_deposit_and_referral_fee : ℕ
  pub sol_withdraw_authority : Option Pubkey
  pub sol_withdrawal_fee : Fee
  pub next_sol_withdrawal_fee : FutureFee
  pub last_epoch_pool_token_supply : ℕ
  pub last_epoch_total_lamports : ℕ
  pub padding : ℕ

-- From the last withdrawal fee on, from the first one, and the whole.
abbrev pub tail_bytes : StakePool → Bytes
tail_bytes p =
    to_le_bytes 8 p.sol_withdrawal_fee.denominator
    ++ (to_le_bytes 8 p.sol_withdrawal_fee.numerator
        ++ (future_bytes p.next_sol_withdrawal_fee
            ++ (to_le_bytes 8 p.last_epoch_pool_token_supply
                ++ (to_le_bytes 8 p.last_epoch_total_lamports ++ to_le_bytes p.padding 0))))

abbrev pub middle_bytes : StakePool → Bytes
middle_bytes p =
    to_le_bytes 8 p.stake_withdrawal_fee.denominator
    ++ (to_le_bytes 8 p.stake_withdrawal_fee.numerator
        ++ (future_bytes p.next_stake_withdrawal_fee
            ++ (to_le_bytes 1 p.stake_referral_fee
                ++ (option_bytes p.sol_deposit_authority
                    ++ (to_le_bytes 17 p.sol_deposit_and_referral_fee
                        ++ (option_bytes p.sol_withdraw_authority ++ tail_bytes p))))))

unfoldable pub encode : StakePool → Bytes
encode p =
    1
    ∷ (to_le_bytes 161 p.keys
        ++ (to_le_bytes 32 p.pool_mint
            ++ (to_le_bytes 32 p.manager_fee_account
                ++ (to_le_bytes 32 p.token_program
                    ++ (to_le_bytes 8 p.total_lamports
                        ++ (to_le_bytes 8 p.pool_token_supply
                            ++ (to_le_bytes 8 p.last_update_epoch
                                ++ (to_le_bytes 64 p.lockup_and_epoch_fee
                                    ++ (future_bytes p.next_epoch_fee
                                        ++ (option_bytes p.preferred_deposit_vote
                                            ++ (option_bytes p.preferred_withdraw_vote
                                                ++ (to_le_bytes 16 p.stake_deposit_fee
                                                    ++ middle_bytes p))))))))))))

-- The numbers that are read fit their bytes.
pub record IsWords (p : StakePool) : Type 0 where
  pub mint : p.pool_mint < 256 ^ 32
  pub program : p.token_program < 256 ^ 32
  pub lamports : p.total_lamports < 256 ^ 8
  pub supply : p.pool_token_supply < 256 ^ 8
  pub epoch : p.last_update_epoch < 256 ^ 8
  pub stake_denominator : p.stake_withdrawal_fee.denominator < 256 ^ 8
  pub stake_numerator : p.stake_withdrawal_fee.numerator < 256 ^ 8
  pub sol_denominator : p.sol_withdrawal_fee.denominator < 256 ^ 8
  pub sol_numerator : p.sol_withdrawal_fee.numerator < 256 ^ 8
  pub last_supply : p.last_epoch_pool_token_supply < 256 ^ 8
  pub last_lamports : p.last_epoch_total_lamports < 256 ^ 8

module _ (bytes : Bytes) (at : ℕ) where
  pub skip_future_fee-IsAt :
      (f : FutureFee) (rest : Bytes)
      → IsAt bytes at (future_bytes f ++ rest)
      → (skip_future_fee bytes at ≡ ok (at + 1 + future_width f))
        × IsAt bytes (at + 1 + future_width f) rest
  unfolding skip_future_fee skip_tagged ◌>>=◌
  skip_future_fee-IsAt FutureFee.never rest h =
      let e : at + 1 + 0 ≡ at + 1 = omega arith in
      (rw (read_u8-IsAt bytes at 0 rest h) refl, rw e (advance bytes at (0 ∷ []) rest 1 refl h))
  skip_future_fee-IsAt (FutureFee.one v) rest h =
      let next = advance bytes at (1 ∷ []) (to_le_bytes 16 v ++ rest) 1 refl h in
      (
        rw (read_u8-IsAt bytes at 1 (to_le_bytes 16 v ++ rest) h) refl,
        advance bytes (at + 1) (to_le_bytes 16 v) rest 16 (length-to_le_bytes 16 v) next,
      )
  skip_future_fee-IsAt (FutureFee.two v) rest h =
      let next = advance bytes at (2 ∷ []) (to_le_bytes 16 v ++ rest) 1 refl h in
      (
        rw (read_u8-IsAt bytes at 2 (to_le_bytes 16 v ++ rest) h) refl,
        advance bytes (at + 1) (to_le_bytes 16 v) rest 16 (length-to_le_bytes 16 v) next,
      )

  pub skip_option_pubkey-IsAt :
      (k : Option Pubkey) (rest : Bytes)
      → IsAt bytes at (option_bytes k ++ rest)
      → (skip_option_pubkey bytes at ≡ ok (at + 1 + option_width k))
        × IsAt bytes (at + 1 + option_width k) rest
  unfolding skip_option_pubkey skip_tagged ◌>>=◌
  skip_option_pubkey-IsAt none rest h =
      let e : at + 1 + 0 ≡ at + 1 = omega arith in
      (rw (read_u8-IsAt bytes at 0 rest h) refl, rw e (advance bytes at (0 ∷ []) rest 1 refl h))
  skip_option_pubkey-IsAt (some k) rest h =
      let next = advance bytes at (1 ∷ []) (to_le_bytes 32 k ++ rest) 1 refl h in
      (
        rw (read_u8-IsAt bytes at 1 (to_le_bytes 32 k ++ rest) h) refl,
        advance bytes (at + 1) (to_le_bytes 32 k) rest 32 (length-to_le_bytes 32 k) next,
      )

  pub read_fee_bps-IsAt :
      (d n f : ℕ) (rest : Bytes)
      → d < 256 ^ 8
      → n < 256 ^ 8
      → fee_bps_of d n ≡ ok f
      → IsAt bytes at (to_le_bytes 8 d ++ (to_le_bytes 8 n ++ rest))
      → (read_fee_bps bytes at ≡ ok f) × IsAt bytes (at + 16) rest
  unfolding read_fee_bps ◌>>=◌
  read_fee_bps-IsAt d n f rest a b e h =
      let second =
        advance bytes at (to_le_bytes 8 d) (to_le_bytes 8 n ++ rest) 8 (length-to_le_bytes 8 d) h in
      let third = advance bytes (at + 8) (to_le_bytes 8 n) rest 8 (length-to_le_bytes 8 n) second in
      let s : at + 8 + 8 ≡ at + 16 = omega arith in
      (
        rw
            (
              read_u64-IsAt bytes at d (to_le_bytes 8 n ++ rest) a h,
              read_u64-IsAt bytes (at + 8) n rest b second,
            )
            e,
        rw s at third,
      )
