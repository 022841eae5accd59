-- ===== src/Instructions/Params.antt =====
-- programs/aera/src/instructions/admin/set_params.rs
use aera_v.Common.{
  not, Outcome, ok, AeraError, ◌>>=◌, ◌>>◌, require, ◌==◌, if◌then◌else◌, Pubkey, Clock,
}
use aera_v.Common.Int.{ℤ, pos, eq_ℤ, leb_ℤ, checked_add_i64}
use aera_v.Global.{Global, require_admin, validate_timelock}
use aera_v.Reserve.{Reserve, ReserveConfig, default_pending, validate, is_tightening_from}
use aera_v.Instructions.Constraints.{same_market}

-- The accounts of `SetParams`; of the market, its key and its `global`.
pub record SetParams : Type 0 where
  pub global_key : Pubkey
  pub global : Global
  pub admin : Pubkey
  pub reserve : Reserve
  pub market_key : Pubkey
  pub market_global : Pubkey

unfoldable pub set_params_constraints : SetParams → Outcome (Unit {0})
set_params_constraints c = do
  require_admin c.global c.admin
  same_market c.reserve.market c.market_key
  require (c.market_global == c.global_key) AeraError.global_mismatch

-- `handle_set_params`: the reserve it leaves.
unfoldable pub handle_set_params : Clock → SetParams → ReserveConfig → Outcome Reserve
handle_set_params clock c config = do
  set_params_constraints c
  validate config
  if is_tightening_from c.reserve.config config
      then ok (record (c.reserve) { config = config; pending = default_pending })
      else do
        eta ← checked_add_i64 clock.unix_timestamp c.global.param_timelock_seconds
        ok (record (c.reserve) { pending = record { config = config; eta = eta } })

-- `handle_apply_pending_params`, which anyone may call.
unfoldable pub handle_apply_pending_params : Clock → Reserve → Outcome Reserve
handle_apply_pending_params clock r = do
  require (not (eq_ℤ r.pending.eta (pos 0))) AeraError.no_pending_config
  require (leb_ℤ r.pending.eta clock.unix_timestamp) AeraError.timelock_not_elapsed
  validate r.pending.config
  ok (record r { config = r.pending.config; pending = default_pending })

-- `handle_cancel_pending_params`
unfoldable pub handle_cancel_pending_params : SetParams → Outcome Reserve
handle_cancel_pending_params c = do
  set_params_constraints c
  require (not (eq_ℤ c.reserve.pending.eta (pos 0))) AeraError.no_pending_config
  ok (record (c.reserve) { pending = default_pending })

-- `handle_set_timelock`
unfoldable pub handle_set_timelock : Global → Pubkey → ℤ → Outcome Global
handle_set_timelock g admin seconds = do
  require_admin g admin
  validate_timelock seconds
  ok (record g { param_timelock_seconds = seconds })
