-- ===== src/Safety/Bootstrap.antt =====
-- The first reading of an oracle that reads a stake pool, instructions/refresh_oracle.rs.
use aera_v.Common.{
  ℕ, ◌≡◌, ◌⊎◌, inl, inr, refl, true, false, ltb, List, Outcome, ok, err, AeraError, Option, none,
  some, Bool-cases, ◌>>=◌, require, RawAccount, Clock, Ensures, Ensures->>=, Ensures-ok,
  Ensures-skip, Ensures-map, returns, fails,
}
use aera_v.Oracle.Health.{
  emergency, bootstrapping, RiskAction, permits, refusal, native_exchange_rate, kind_from_u8,
  health_from_u8, health_to_u8,
}
use aera_v.Oracle.Breaker.{
  BreakerConfig, is_set, PriceObservation, needs_bootstrap, bootstrap_verdict, per_epoch,
}
use aera_v.Oracle.State.{OracleState, require_permits, record_observation}
use aera_v.Oracle.Deployment.{Loader}
use aera_v.Oracle.Sources.{observe-Ensures}
use aera_v.Instructions.RefreshOracle.{
  identify_source, judge_observation, accept_observation, enter_emergency, accept_or_freeze,
  refresh_kind, handle_refresh_oracle,
}

pub bootstrap_verdict-Ensures :
    (o : PriceObservation) (previous : Option ℕ) (c : BreakerConfig)
    → Ensures
        (λ v. (v.health ≡ emergency) ⊎ (v.health ≡ bootstrapping))
        (bootstrap_verdict o previous c)
unfolding bootstrap_verdict
bootstrap_verdict-Ensures o none c = returns (inr refl)
bootstrap_verdict-Ensures o (some previous) c = Ensures-skip _ λ moved.
    elim (Bool-cases (ltb (per_epoch c (ltb previous o.gross_rate)) moved)) [
      | inl e ↦ rw e (returns (inl refl))
      | inr e ↦ rw e (returns (inr refl))
    ]

-- An oracle that refuses borrows and withdrawals of collateral.
pub record IsClosed (s : OracleState) : Type 0 where
  error : AeraError
  borrow : require_permits s RiskAction.borrow ≡ err error
  withdrawal : require_permits s RiskAction.withdraw_collateral ≡ err error

pub frozen_or_bootstrapping :
    (s : OracleState)
    → (s.health ≡ health_to_u8 emergency) ⊎ (s.health ≡ health_to_u8 bootstrapping)
    → IsClosed s
unfolding require_permits ◌>>=◌ require permits refusal health_from_u8 health_to_u8
frozen_or_bootstrapping s (inl e) = record {
  error = AeraError.oracle_emergency;
  borrow = rw e refl;
  withdrawal = rw e refl;
}
frozen_or_bootstrapping s (inr e) = record {
  error = AeraError.oracle_bootstrapping;
  borrow = rw e refl;
  withdrawal = rw e refl;
}

accept_observation-IsClosed :
    (clock : Clock) (s : OracleState) (o : PriceObservation)
    → is_set s.reference ≡ false
    → needs_bootstrap o.source ≡ true
    → Ensures IsClosed (accept_observation clock s o)
unfolding accept_observation judge_observation record_observation
accept_observation-IsClosed clock s o unset first =
    Ensures->>= {P = λ v. (v.health ≡ emergency) ⊎ (v.health ≡ bootstrapping)}
      (Ensures-skip _
        λ b. rw (unset, first) (bootstrap_verdict-Ensures o o.previous_epoch_rate s.breaker))
      λ v p.
        returns
          (frozen_or_bootstrapping _ (elim p [ inl e ↦ inl (rw e refl) | inr e ↦ inr (rw e refl) ]))

accept_or_freeze-IsClosed :
    {m : Outcome PriceObservation} (clock : Clock) (s : OracleState)
    → is_set s.reference ≡ false
    → Ensures (λ o. needs_bootstrap o.source ≡ true) m
    → Ensures IsClosed (accept_or_freeze clock s m)
unfolding accept_or_freeze enter_emergency
accept_or_freeze-IsClosed clock s unset (returns {a = o} first) =
    accept_observation-IsClosed clock s o unset first
accept_or_freeze-IsClosed clock s unset fails = returns (frozen_or_bootstrapping _ (inl refl))

-- The first refresh of an oracle without a reference that reads a stake pool leaves it closed: it
-- refuses borrows and withdrawals of collateral, whatever was read.
pub handle_refresh_oracle-IsClosed :
    (loader : Loader) (clock : Clock) (remaining : List RawAccount) (s s' : OracleState)
    → kind_from_u8 s.source_kind ≡ ok native_exchange_rate
    → is_set s.reference ≡ false
    → handle_refresh_oracle loader clock remaining s ≡ ok s'
    → IsClosed s'
unfolding handle_refresh_oracle refresh_kind needs_bootstrap ◌>>=◌
handle_refresh_oracle-IsClosed loader clock remaining s s' k unset = rw k (
    Ensures-ok (
      Ensures-skip (identify_source s remaining) λ (source, program_data).
        accept_or_freeze-IsClosed clock s unset (
          Ensures-map (observe-Ensures loader source program_data _ _ _)
            λ o v. let n = v.native in rw n refl)))
