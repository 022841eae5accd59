-- ===== src/Safety/Refresh.antt =====
-- What a refresh of an oracle, instructions/refresh_oracle.rs, does to its reference.
use aera_v.Common.{
  ℕ, ◌-◌, ◌*◌, ◌<◌, ◌≤◌, ◌≡◌, ◌⊎◌, inl, inr, refl, min, max, true, ltb, ◌==◌, List, Outcome, ok,
  err, AeraError, ◌>>=◌, require, RawAccount, Clock, ==_iff, false, ◌∷◌, Ensures, Ensures->>=,
  Ensures-ok, Ensures-skip, returns, fails, arith,
}
use aera_v.Math.{move_bps}
use aera_v.Oracle.Health.{
  RiskAction, permits, refusal, OracleSourceKind, unit_of_account, native_exchange_rate,
  market_twap, kind_from_u8, health_from_u8, health_to_u8,
}
use aera_v.Oracle.Breaker.{BreakerConfig, Reference, is_set, PriceObservation, per_epoch}
use aera_v.Oracle.State.{
  OracleState, effective_rate, require_permits, require_fresh, record_observation, unit_observation,
}
use aera_v.Oracle.Verdicts.{evaluate-cases, IsAccepted, IsRefused}
use aera_v.Oracle.Deployment.{Loader, program_data_address}
use aera_v.Oracle.Validation.{require_configured_account, require_read_only, require_alive}
use aera_v.Oracle.Sources.{IsVerified, observe-Ensures, read_deployment-address}
use aera_v.Oracle.Native.{observe, native_bounds}
use aera_v.Instructions.RefreshOracle.{
  identify_source, judge_observation, accept_observation, enter_emergency, accept_or_freeze,
  refresh_kind, handle_refresh_oracle,
}

-- An oracle in an emergency: fresh, its reference and its rate as they were, closed to borrows and
-- open to liquidations.
pub record IsFrozen (clock : Clock) (s s' : OracleState) : Type 0 where
  reference : s'.reference ≡ s.reference
  rate : effective_rate s' ≡ effective_rate s
  fresh : require_fresh s' clock.slot ≡ ok tt
  no_borrow : require_permits s' RiskAction.borrow ≡ err AeraError.oracle_emergency
  no_withdrawal : require_permits s' RiskAction.withdraw_collateral ≡ err AeraError.oracle_emergency
  liquidation : require_permits s' RiskAction.liquidate ≡ ok tt

enter_emergency-IsFrozen :
    (clock : Clock) (s : OracleState) → IsFrozen clock s (enter_emergency clock s)
unfolding enter_emergency effective_rate require_fresh require_permits ◌>>=◌ require permits refusal
    health_from_u8 health_to_u8
enter_emergency-IsFrozen clock s = record {
  reference = refl;
  rate = refl;
  fresh = let e : (clock.slot == clock.slot) ≡ true = ground arith in rw e refl;
  no_borrow = refl;
  no_withdrawal = refl;
  liquidation = refl;
}

-- The source that the oracle names, read-only and alive.
pub record IsConfigured (s : OracleState) (source : RawAccount) : Type 0 where
  pub key : source.key ≡ s.source_account
  pub owner : source.owner ≡ s.source_program
  pub read_only : source.is_writable ≡ false
  pub alive : 0 < source.lamports

identify_source-IsConfigured :
    (s : OracleState) (source program_data : RawAccount) (rest : List RawAccount)
    → IsConfigured s source
    → identify_source s (source ∷ program_data ∷ rest) ≡ ok (source, program_data)
unfolding identify_source require_configured_account require_read_only require_alive ◌>>=◌ require
identify_source-IsConfigured s source program_data rest c =
    let lives : ltb 0 source.lamports ≡ true = let h = c.alive in ground arith in
    rw ((==_iff _ _).1 c.key, (==_iff _ _).1 c.owner, c.read_only, lives) refl

-- A source that yields no observation leaves an emergency.
pub record IsUnread (clock : Clock) (s : OracleState) (m : Outcome PriceObservation)
    (result : Outcome OracleState) : Type 0 where
  pub error : AeraError
  pub unread : m ≡ err error
  pub recorded : result ≡ ok (enter_emergency clock s)
  pub frozen : IsFrozen clock s (enter_emergency clock s)

-- A source that yields one was verified, and the breaker judges the observation.
pub record IsRead (loader : Loader) (clock : Clock) (source program_data : RawAccount)
    (s : OracleState) (m : Outcome PriceObservation) (result : Outcome OracleState) : Type 0 where
  pub observation : PriceObservation
  pub read : m ≡ ok observation
  pub right_data : program_data.key ≡ program_data_address loader s.source_program
  pub verified : IsVerified loader source program_data (native_bounds s s.mint) observation
  pub judged : result ≡ accept_observation clock s observation

accept_or_freeze-cases :
    (loader : Loader) (clock : Clock) (s : OracleState) (source program_data : RawAccount)
    (m : Outcome PriceObservation)
    → Ensures (IsVerified loader source program_data (native_bounds s s.mint)) m
    → IsUnread clock s m (accept_or_freeze clock s m)
      ⊎ IsRead loader clock source program_data s m (accept_or_freeze clock s m)
unfolding accept_or_freeze native_bounds
accept_or_freeze-cases loader clock s source program_data _ (returns {a = o} v) = inr (record {
  observation = o;
  read = refl;
  right_data = Ensures-ok (read_deployment-address loader program_data _) v.deployed;
  verified = v;
  judged = refl;
})
accept_or_freeze-cases loader clock s source program_data _ (fails {e = e}) = inl (record {
  error = e;
  unread = refl;
  recorded = refl;
  frozen = enter_emergency-IsFrozen clock s;
})

-- A refresh of a native oracle from the source account that it names, read-only and alive, does one
-- of two things, whatever the source and the second account hold. Either no observation can be made,
-- and it goes through and leaves the oracle in an emergency, in which it counts as fresh, keeps its
-- reference and its rate, refuses borrows and withdrawals of collateral, and lets liquidations
-- through; or an observation is made, the second account is the data account of the source's
-- program, the observation is verified, and the refresh is the breaker's judgement of it. So a
-- second account that is not that data account puts the oracle into the emergency.
pub handle_refresh_oracle-freezes :
    (loader : Loader) (clock : Clock) (rest : List RawAccount) (s : OracleState)
    (source program_data : RawAccount)
    → kind_from_u8 s.source_kind ≡ ok native_exchange_rate
    → IsConfigured s source
    → IsUnread clock s
        (observe loader source program_data
          (native_bounds s s.mint)
          clock.slot
          clock.unix_timestamp)
        (handle_refresh_oracle loader clock (source ∷ program_data ∷ rest) s)
      ⊎ IsRead loader clock source program_data s
          (observe loader source program_data
            (native_bounds s s.mint)
            clock.slot
            clock.unix_timestamp)
          (handle_refresh_oracle loader clock (source ∷ program_data ∷ rest) s)
unfolding handle_refresh_oracle refresh_kind ◌>>=◌
handle_refresh_oracle-freezes loader clock rest s source program_data k c =
    rw (k, identify_source-IsConfigured s source program_data rest c)
      (accept_or_freeze-cases loader clock s source program_data _ (
        observe-Ensures loader source program_data (native_bounds s s.mint) clock.slot
          clock.unix_timestamp))

-- The epochs of allowance between two references.
abbrev pub epochs_between : (older newer ceiling : ℕ) → ℕ
epochs_between older newer ceiling = min (max (newer - older) 1) ceiling

-- The move of a reference that the breaker lets through.
pub record IsWithinBreaker (c : BreakerConfig) (r r' : Reference) : Type 0 where
  pub moved : ℕ
  pub measured : move_bps r.gross_rate r'.gross_rate ≡ ok moved
  pub below_emergency : moved < c.emergency_deviation_bps
  pub within_allowance :
      moved
      ≤ per_epoch c (ltb r.gross_rate r'.gross_rate)
        * epochs_between r.source_epoch r'.source_epoch c.max_epoch_allowance

IsBounded : OracleState → OracleState → Type 0
IsBounded s s' = (s'.reference ≡ s.reference) ⊎ IsWithinBreaker s.breaker s.reference s'.reference

judge_observation-Ensures :
    (s : OracleState) (o : PriceObservation)
    → is_set s.reference ≡ true
    → Ensures (λ v. IsAccepted s.reference o s.breaker v ⊎ IsRefused v) (judge_observation s o)
unfolding judge_observation
judge_observation-Ensures s o set =
    Ensures-skip _ λ b. rw set (evaluate-cases s.reference o s.breaker b set)

accept_observation-Ensures :
    (clock : Clock) (s : OracleState) (o : PriceObservation)
    → is_set s.reference ≡ true
    → Ensures (IsBounded s) (accept_observation clock s o)
unfolding accept_observation record_observation IsBounded
accept_observation-Ensures clock s o set = Ensures->>= (judge_observation-Ensures s o set) λ v h.
    elim h [
      | inl a ↦ rw a.accepted (
          returns (
            inr (record {
              moved = v.moved_bps;
              measured = a.moved;
              below_emergency = a.below_emergency;
              within_allowance = a.within_allowance;
            })))
      | inr x ↦ rw x.refused (returns (inl refl))
    ]

accept_or_freeze-Ensures :
    (clock : Clock) (s : OracleState) (m : Outcome PriceObservation)
    → is_set s.reference ≡ true
    → Ensures (IsBounded s) (accept_or_freeze clock s m)
unfolding accept_or_freeze enter_emergency IsBounded
accept_or_freeze-Ensures clock s (ok o) set = accept_observation-Ensures clock s o set
accept_or_freeze-Ensures clock s (err e) set = returns (inl refl)

refresh_kind-Ensures :
    (kind : OracleSourceKind) (loader : Loader) (clock : Clock) (remaining : List RawAccount)
    (s : OracleState)
    → is_set s.reference ≡ true
    → Ensures (IsBounded s) (refresh_kind kind loader clock remaining s)
unfolding refresh_kind
refresh_kind-Ensures unit_of_account loader clock remaining s set =
    accept_observation-Ensures clock s (unit_observation clock.slot clock.unix_timestamp) set
refresh_kind-Ensures market_twap loader clock remaining s set = fails
refresh_kind-Ensures native_exchange_rate loader clock remaining s set =
    Ensures-skip _ λ (source, program_data). accept_or_freeze-Ensures clock s _ set

-- A refresh that goes through on an oracle with a reference leaves the reference as it was, or
-- moves its gross rate by less than the emergency deviation and no more than the allowance of the
-- direction for the epochs between the two, which are at least one and at most the ceiling (when
-- that is not 0).
pub handle_refresh_oracle-bounded :
    (loader : Loader) (clock : Clock) (remaining : List RawAccount) (s s' : OracleState)
    → is_set s.reference ≡ true
    → handle_refresh_oracle loader clock remaining s ≡ ok s'
    → (s'.reference ≡ s.reference) ⊎ IsWithinBreaker s.breaker s.reference s'.reference
unfolding handle_refresh_oracle IsBounded
handle_refresh_oracle-bounded loader clock remaining s s' set =
    Ensures-ok (Ensures-skip _ λ kind. refresh_kind-Ensures kind loader clock remaining s set)
