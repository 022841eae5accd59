-- ===== src/Global.antt =====
-- programs/aera/src/state/global.rs and state/market.rs: the protocol account with its pause
-- switches. (The PDA bumps only sign, and are left out of every account.)
use aera_v.Common.{ℕ, Bool, not, ◌&&◌, Outcome, AeraError, ◌>>◌, require, ◌==◌, Pubkey}
use aera_v.Common.Int.{ℤ, pos, leb_ℤ}
use aera_v.Constants.{max_param_timelock_seconds}

pub record Global : Type 0 where
  pub admin : Pubkey
  pub fee_destination : Pubkey
  pub paused : Bool
  pub borrow_paused : Bool
  pub param_timelock_seconds : ℤ
  pub version : ℕ

-- `Global::require_admin`
unfoldable pub require_admin : Global → Pubkey → Outcome (Unit {0})
require_admin g signer = require (g.admin == signer) AeraError.not_admin

-- `Global::require_not_paused`
unfoldable pub require_not_paused : Global → Outcome (Unit {0})
require_not_paused g = require (not g.paused) AeraError.protocol_paused

-- `Global::require_borrow_enabled`
unfoldable pub require_borrow_enabled : Global → Outcome (Unit {0})
require_borrow_enabled g = do
  require_not_paused g
  require (not g.borrow_paused) AeraError.borrow_paused

-- `Global::validate_timelock`
unfoldable pub validate_timelock : ℤ → Outcome (Unit {0})
validate_timelock seconds =
    require (leb_ℤ (pos 0) seconds && leb_ℤ seconds (pos max_param_timelock_seconds))
      AeraError.invalid_timelock
