-- ===== src/Instructions/RiskParams.antt =====
-- programs/aera/src/instructions/admin/set_risk_config.rs
use aera_v.Common.{
  ℕ, Bool, true, false, not, ◌&&◌, Outcome, ok, AeraError, ◌>>=◌, ◌>>◌, require, leb, ◌==◌,
  if◌then◌else◌, Pubkey, default_pubkey, Clock,
}
use aera_v.Common.Int.{pos, eq_ℤ, leb_ℤ, checked_add_i64}
use aera_v.Constants.{max_protocol_liquidation_share_bps}
use aera_v.Global.{Global}
use aera_v.Reserve.{Reserve}
use aera_v.Risk.{RiskConfig}
use aera_v.Instructions.Constraints.{has_one}

-- The accounts of `SetRiskConfig`. An account that was just created has the default key in
-- `reserve`.
pub record SetRiskConfig : Type 0 where
  pub global : Global
  pub admin : Pubkey
  pub reserve_key : Pubkey
  pub reserve : Reserve
  pub risk_config : RiskConfig

-- `RiskConfig::cap_is_tighter` of state/risk_config.rs. A cap of 0 means unlimited.
unfoldable pub risk_cap_is_tighter : ℕ → ℕ → Bool
risk_cap_is_tighter current next =
    if current == 0 then true else if next == 0 then false else leb next current

-- The reserve that the account belongs to, recorded on the first write.
abbrev pub claimed : RiskConfig → Pubkey → RiskConfig
claimed config reserve_key =
    if config.reserve == default_pubkey then record config { reserve = reserve_key } else config

-- `handle_set_risk_config`: the account it leaves.
unfoldable pub handle_set_risk_config : Clock → SetRiskConfig → ℕ → ℕ → Outcome RiskConfig
handle_set_risk_config clock c cap share = do
  has_one c.global.admin c.admin
  require (leb share max_protocol_liquidation_share_bps) AeraError.invalid_config
  require (leb share c.reserve.config.liquidation_bonus_bps) AeraError.invalid_config
  let config = claimed c.risk_config c.reserve_key
  require (config.reserve == c.reserve_key) AeraError.market_mismatch
  let tightens =
      risk_cap_is_tighter config.per_wallet_borrow_cap cap
      && leb share config.protocol_liquidation_share_bps
  if tightens
      then ok (record config {
        per_wallet_borrow_cap = cap;
        protocol_liquidation_share_bps = share;
        pending_per_wallet_borrow_cap = 0;
        pending_protocol_liquidation_share_bps = 0;
        pending_eta = pos 0;
      })
      else do
        eta ← checked_add_i64 clock.unix_timestamp c.global.param_timelock_seconds
        ok (record config {
          pending_per_wallet_borrow_cap = cap;
          pending_protocol_liquidation_share_bps = share;
          pending_eta = eta;
        })

-- `handle_apply_pending_risk_config`, which anyone may call, over the key of the reserve.
unfoldable pub handle_apply_pending_risk_config : Clock → Pubkey → RiskConfig → Outcome RiskConfig
handle_apply_pending_risk_config clock reserve_key config = do
  require (config.reserve == reserve_key) AeraError.market_mismatch
  require (not (eq_ℤ config.pending_eta (pos 0))) AeraError.no_pending_config
  require (leb_ℤ config.pending_eta clock.unix_timestamp) AeraError.timelock_not_elapsed
  ok (record config {
    per_wallet_borrow_cap = config.pending_per_wallet_borrow_cap;
    protocol_liquidation_share_bps = config.pending_protocol_liquidation_share_bps;
    pending_per_wallet_borrow_cap = 0;
    pending_protocol_liquidation_share_bps = 0;
    pending_eta = pos 0;
  })
