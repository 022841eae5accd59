-- ===== src/Instructions/RiskAccount.antt =====
-- How `borrow` and `liquidate` read a reserve's `RiskConfig`: an unchecked account at an address
-- that the program derives, which may not exist.
use aera_v.Common.{
  ℕ, Bool, Option, none, some, Outcome, ok, ◌>>=◌, ◌>>◌, AeraError, require, ◌==◌, if◌then◌else◌,
  Pubkey,
}
use aera_v.Risk.{RiskConfig}

-- `crate::ID`, and `Pubkey::find_program_address(&[RiskConfig::SEED, reserve], &crate::ID).0`, a
-- function of the runtime.
pub record Program : Type 0 where
  pub id : Pubkey
  pub risk_config_address : Pubkey → Pubkey

-- The account as passed; `decoded` is what `RiskConfig::try_deserialize` makes of its data.
pub record RiskConfigInfo : Type 0 where
  pub key : Pubkey
  pub data_is_empty : Bool
  pub owner : Pubkey
  pub decoded : Outcome RiskConfig

-- `none` when the account was never created.
unfoldable pub read_risk_config : Program → RiskConfigInfo → Pubkey → Outcome (Option RiskConfig)
read_risk_config program info reserve_key = do
  require (info.key == program.risk_config_address reserve_key) AeraError.market_mismatch
  if info.data_is_empty then ok none else do
    require (info.owner == program.id) AeraError.market_mismatch
    config ← info.decoded
    require (config.reserve == reserve_key) AeraError.market_mismatch
    ok (some config)

abbrev pub cap_of : Option RiskConfig → ℕ
cap_of none = 0
cap_of (some c) = c.per_wallet_borrow_cap

abbrev pub share_of : Option RiskConfig → ℕ
share_of none = 0
share_of (some c) = c.protocol_liquidation_share_bps
