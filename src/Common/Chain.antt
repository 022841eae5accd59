-- ===== src/Common/Chain.antt =====
-- What the runtime hands to a handler: keys and the clock.
use Prim.Native.Nat.{ℕ}
use aera_v.Common.Int.{ℤ}

-- `Pubkey`, the number of its 32 bytes. It is only compared.
abbrev pub Pubkey : Type 0
Pubkey = ℕ

-- `Pubkey::default()`
abbrev pub default_pubkey : Pubkey
default_pubkey = 0

-- `Clock`, the two fields that the program reads.
pub record Clock : Type 0 where
  pub slot : ℕ
  pub unix_timestamp : ℤ
