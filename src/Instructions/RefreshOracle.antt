-- ===== src/Instructions/RefreshOracle.antt =====
-- programs/aera/src/instructions/refresh_oracle.rs
use aera_v.Common.{
  true, not, ◌&&◌, List, [], ◌∷◌, Outcome, ok, err, AeraError, ◌>>=◌, ◌>>◌, require, ◌==◌,
  if◌then◌else◌, Pubkey, Clock, RawAccount,
}
use aera_v.Global.{Global}
use aera_v.Oracle.Health.{
  healthy, emergency, health_to_u8, OracleSourceKind, unit_of_account, native_exchange_rate,
  market_twap, kind_from_u8,
}
use aera_v.Oracle.Breaker.{
  is_set, PriceObservation, needs_bootstrap, Verdict, bootstrap_verdict, evaluate,
}
use aera_v.Oracle.State.{OracleState, is_bootstrapping, record_observation, unit_observation}
use aera_v.Oracle.Deployment.{Loader}
use aera_v.Oracle.Validation.{require_configured_account, require_read_only, require_alive}
use aera_v.Oracle.Native.{native_bounds, observe}

-- The first two of the remaining accounts: the source and its program's data.
abbrev pub source_accounts : List RawAccount → Outcome (RawAccount × RawAccount)
source_accounts [] = err AeraError.oracle_account_mismatch
source_accounts (_ ∷ []) = err AeraError.oracle_program_data_mismatch
source_accounts (source ∷ program_data ∷ _) = ok (source, program_data)

-- The checks that tell a wrong account from a source that reads badly.
unfoldable pub identify_source : OracleState → List RawAccount → Outcome (RawAccount × RawAccount)
identify_source s remaining = do
  (source, program_data) ← source_accounts remaining
  require_configured_account source s.source_account s.source_program
  require_read_only source
  require_alive source
  ok (source, program_data)

-- The verdict on an observation: the first one is judged against the source's own past.
unfoldable pub judge_observation : OracleState → PriceObservation → Outcome Verdict
judge_observation s o = do
  was_bootstrapping ← is_bootstrapping s
  if not (is_set s.reference) && needs_bootstrap o.source
      then bootstrap_verdict o o.previous_epoch_rate s.breaker
      else evaluate s.reference o s.breaker was_bootstrapping

-- The end of `handle_refresh_oracle`, where an observation was made.
unfoldable pub accept_observation : Clock → OracleState → PriceObservation → Outcome OracleState
accept_observation clock s o = do
  v ← judge_observation s o
  ok (record_observation s o v clock.slot)

-- A source that could not be read: the emergency is recorded, and the reference stays.
unfoldable pub enter_emergency : Clock → OracleState → OracleState
enter_emergency clock s = record s {
  health = health_to_u8 emergency;
  last_refresh_slot = clock.slot;
}

-- `match native_bcook::observe(..)`
unfoldable pub accept_or_freeze :
    Clock → OracleState → Outcome PriceObservation → Outcome OracleState
accept_or_freeze clock s (ok o) = accept_observation clock s o
accept_or_freeze clock s (err _) = ok (enter_emergency clock s)

unfoldable pub refresh_kind :
    OracleSourceKind → Loader → Clock → List RawAccount → OracleState → Outcome OracleState
refresh_kind unit_of_account loader clock remaining s =
    accept_observation clock s (unit_observation clock.slot clock.unix_timestamp)
refresh_kind market_twap loader clock remaining s = err AeraError.unknown_oracle_source
refresh_kind native_exchange_rate loader clock remaining s = do
  (source, program_data) ← identify_source s remaining
  accept_or_freeze clock s
      (observe loader source program_data (native_bounds s s.mint) clock.slot clock.unix_timestamp)

unfoldable pub handle_refresh_oracle :
    Loader → Clock → List RawAccount → OracleState → Outcome OracleState
handle_refresh_oracle loader clock remaining s = do
  kind ← kind_from_u8 s.source_kind
  refresh_kind kind loader clock remaining s

-- The accounts of `ResetOracleBreaker`; a market is its key.
pub record ResetOracleBreaker : Type 0 where
  pub global : Global
  pub market : Pubkey
  pub admin : Pubkey

unfoldable pub reset_oracle_breaker_constraints :
    ResetOracleBreaker → OracleState → Outcome (Unit {0})
reset_oracle_breaker_constraints a s = do
  require (a.global.admin == a.admin) AeraError.not_admin
  require (s.market == a.market) AeraError.market_mismatch

abbrev reset_verdict : Verdict
reset_verdict = record { accept = true; health = healthy; moved_bps = 0 }

unfoldable pub observe_kind :
    OracleSourceKind → Loader → Clock → List RawAccount → OracleState → Outcome PriceObservation
observe_kind unit_of_account loader clock remaining s =
    ok (unit_observation clock.slot clock.unix_timestamp)
observe_kind market_twap loader clock remaining s = err AeraError.unknown_oracle_source
observe_kind native_exchange_rate loader clock remaining s = do
  (source, program_data) ← identify_source s remaining
  observe loader source program_data (native_bounds s s.mint) clock.slot clock.unix_timestamp

unfoldable pub handle_reset_oracle_breaker :
    Loader → Clock → ResetOracleBreaker → List RawAccount → OracleState → Outcome OracleState
handle_reset_oracle_breaker loader clock a remaining s = do
  reset_oracle_breaker_constraints a s
  kind ← kind_from_u8 s.source_kind
  o ← observe_kind kind loader clock remaining s
  ok (record_observation s o reset_verdict clock.slot)
