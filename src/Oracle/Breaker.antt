-- ===== src/Oracle/Breaker.antt =====
-- programs/aera/src/oracle/breaker.rs: the circuit breaker of a deterministic rate.
use aera_v.Common.{
  ℕ, ◌-◌, min, max, Bool, true, false, ◌&&◌, Option, none, some, Outcome, ok, AeraError, ◌>>=◌,
  ◌>>◌, require, checked_mul, u128_bound, ltb, leb, if◌then◌else◌,
}
use aera_v.Common.Int.{ℤ}
use aera_v.Constants.{bps_denominator}
use aera_v.Math.{move_bps}
use aera_v.Oracle.Health.{
  OracleHealth, healthy, rate_warning, borrow_frozen, emergency, bootstrapping, OracleSourceKind,
  unit_of_account, native_exchange_rate, market_twap,
}

-- `STALE_EPOCHS_WARNING`
abbrev pub stale_epochs_warning : ℕ
stale_epochs_warning = 3

pub record BreakerConfig : Type 0 where
  pub max_up_bps_per_epoch : ℕ
  pub max_down_bps_per_epoch : ℕ
  pub emergency_deviation_bps : ℕ
  pub max_epoch_allowance : ℕ

-- `BreakerConfig::validate`
unfoldable pub validate_breaker : BreakerConfig → Outcome (Unit {0})
validate_breaker c = do
  require (leb c.max_up_bps_per_epoch bps_denominator) AeraError.invalid_oracle_config
  require (leb c.max_down_bps_per_epoch bps_denominator) AeraError.invalid_oracle_config
  require (leb c.emergency_deviation_bps bps_denominator) AeraError.invalid_oracle_config
  require
      (leb c.max_up_bps_per_epoch c.emergency_deviation_bps
        && leb c.max_down_bps_per_epoch c.emergency_deviation_bps)
      AeraError.invalid_oracle_config
  require (ltb 0 c.max_epoch_allowance) AeraError.invalid_oracle_config

-- The last observation that the breaker accepted.
pub record Reference : Type 0 where
  pub gross_rate : ℕ
  pub effective_rate : ℕ
  pub withdrawal_fee_bps : ℕ
  pub source_epoch : ℕ
  pub slot : ℕ
  pub unix_timestamp : ℤ

-- `Reference::is_set`
unfoldable pub is_set : Reference → Bool
is_set r = ltb 0 r.effective_rate

-- `PriceObservation` of oracle/mod.rs
pub record PriceObservation : Type 0 where
  pub gross_rate : ℕ
  pub withdrawal_fee_bps : ℕ
  pub effective_rate : ℕ
  pub source_epoch : ℕ
  pub slot : ℕ
  pub unix_timestamp : ℤ
  pub source : OracleSourceKind
  pub previous_epoch_rate : Option ℕ

-- `PriceObservation::needs_bootstrap`
unfoldable pub needs_bootstrap : OracleSourceKind → Bool
needs_bootstrap unit_of_account = false
needs_bootstrap native_exchange_rate = true
needs_bootstrap market_twap = true

pub record Verdict : Type 0 where
  pub accept : Bool
  pub health : OracleHealth
  pub moved_bps : ℕ

abbrev verdict : Bool → OracleHealth → ℕ → Verdict
verdict a h m = record { accept = a; health = h; moved_bps = m }

-- The bound on one epoch's move, by its direction.
abbrev pub per_epoch : BreakerConfig → Bool → ℕ
per_epoch c rising = if rising then c.max_up_bps_per_epoch else c.max_down_bps_per_epoch

unfoldable pub bootstrap_verdict : PriceObservation → Option ℕ → BreakerConfig → Outcome Verdict
bootstrap_verdict o none c = ok (verdict true bootstrapping 0)
bootstrap_verdict o (some previous) c = do
  moved ← move_bps previous o.gross_rate
  let allowance = per_epoch c (ltb previous o.gross_rate)
  if ltb allowance moved
      then ok (verdict false emergency moved)
      else ok (verdict true bootstrapping moved)

-- The epochs of allowance: at least one, at most the ceiling.
abbrev pub epochs_elapsed : Reference → PriceObservation → BreakerConfig → ℕ
epochs_elapsed r o c = min (max (o.source_epoch - r.source_epoch) 1) c.max_epoch_allowance

-- The end of `evaluate`: the move against its allowance.
unfoldable pub judge : Reference → PriceObservation → Bool → (epochs allowance moved : ℕ) → Verdict
judge r o was_bootstrapping epochs allowance moved =
    if leb moved allowance
    then if was_bootstrapping && leb o.source_epoch r.source_epoch
      then verdict true bootstrapping moved
      else if leb stale_epochs_warning epochs
      then verdict true rate_warning moved
      else verdict true healthy moved
    else if ltb r.gross_rate o.gross_rate
    then verdict false borrow_frozen moved
    else verdict false emergency moved

unfoldable pub evaluate : Reference → PriceObservation → BreakerConfig → Bool → Outcome Verdict
unfolding is_set judge
evaluate r o c was_bootstrapping =
    if is_set r
    then (do
      moved ← move_bps r.gross_rate o.gross_rate
      if leb c.emergency_deviation_bps moved then ok (verdict false emergency moved) else do
        let epochs = epochs_elapsed r o c
        let bound = per_epoch c (ltb r.gross_rate o.gross_rate)
        allowance ← checked_mul u128_bound bound epochs
        ok (judge r o was_bootstrapping epochs allowance moved))
    else ok (verdict true healthy 0)
