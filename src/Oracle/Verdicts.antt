-- ===== src/Oracle/Verdicts.antt =====
-- What a verdict of the circuit breaker, `evaluate` of oracle/breaker.rs, accepts and refuses.
use aera_v.Common.{
  ℕ, ◌*◌, ◌<◌, ◌≤◌, ◌≡◌, refl, Bool, true, false, ◌&&◌, ltb, leb, leb→le, arith, ok, err,
  Bool-cases, inl, inr, ◌⊎◌, Ensures, Ensures->>=, Ensures-ok, Ensures-itself, returns,
  checked_mul-Ensures, ◌>>=◌, require,
}
use aera_v.Math.{move_bps}
use aera_v.Oracle.Health.{
  OracleHealth, healthy, rate_warning, borrow_frozen, emergency, bootstrapping, RiskAction, permits,
  refusal, health_from_u8, health_to_u8,
}
use aera_v.Oracle.Breaker.{
  BreakerConfig, Reference, is_set, PriceObservation, Verdict, per_epoch, epochs_elapsed, judge,
  evaluate, stale_epochs_warning,
}
use aera_v.Oracle.State.{OracleState, record_observation, require_permits}

-- The move that a verdict accepts.
pub record IsAccepted (r : Reference) (o : PriceObservation) (c : BreakerConfig) (v : Verdict)
    : Type 0 where
  pub accepted : v.accept ≡ true
  pub moved : move_bps r.gross_rate o.gross_rate ≡ ok (v.moved_bps)
  pub below_emergency : v.moved_bps < c.emergency_deviation_bps
  pub within_allowance :
      v.moved_bps ≤ per_epoch c (ltb r.gross_rate o.gross_rate) * epochs_elapsed r o c

pub record IsRefused (v : Verdict) : Type 0 where
  pub refused : v.accept ≡ false
  pub freezes : permits v.health RiskAction.borrow ≡ false

judge-cases :
    (r : Reference) (o : PriceObservation) (b : Bool) (epochs allowance moved : ℕ)
    → (((judge r o b epochs allowance moved).accept ≡ true)
        × ((judge r o b epochs allowance moved).moved_bps ≡ moved)
        × (moved ≤ allowance))
      ⊎ IsRefused (judge r o b epochs allowance moved)
unfolding judge permits
judge-cases r o b epochs allowance moved = elim (Bool-cases (leb moved allowance)) [
  | inl e ↦ elim (Bool-cases (b && leb o.source_epoch r.source_epoch)) [
    | inl w ↦ rw (e, w) (inl (refl, refl, leb→le _ _ e))
    | inr w ↦ elim (Bool-cases (leb stale_epochs_warning epochs)) [
      | inl x ↦ rw (e, w, x) (inl (refl, refl, leb→le _ _ e))
      | inr x ↦ rw (e, w, x) (inl (refl, refl, leb→le _ _ e))
    ]
  ]
  | inr e ↦ elim (Bool-cases (ltb r.gross_rate o.gross_rate)) [
    | inl w ↦ rw (e, w) (inr (record { refused = refl; freezes = refl }))
    | inr w ↦ rw (e, w) (inr (record { refused = refl; freezes = refl }))
  ]
]

pub evaluate-cases :
    (r : Reference) (o : PriceObservation) (c : BreakerConfig) (b : Bool)
    → is_set r ≡ true
    → Ensures (λ v. IsAccepted r o c v ⊎ IsRefused v) (evaluate r o c b)
unfolding evaluate permits
evaluate-cases r o c b set = rw set (
    Ensures->>= (Ensures-itself _) λ moved m.
      elim (Bool-cases (leb c.emergency_deviation_bps moved)) [
        | inl e ↦ rw e (returns (inr (record { refused = refl; freezes = refl })))
        | inr e ↦ rw e (
            Ensures->>= (checked_mul-Ensures _ _ _) λ allowance (a, _).
              returns (elim (judge-cases r o b (epochs_elapsed r o c) allowance moved) [
                | inl (t, n, h) ↦
                    let lt : moved < c.emergency_deviation_bps = ground arith in
                    let le : moved
                        ≤ per_epoch c (ltb r.gross_rate o.gross_rate) * epochs_elapsed r o c =
                      rw (← a) h in
                    inl (record {
                      accepted = t;
                      moved = rw n m;
                      below_emergency = rw n lt;
                      within_allowance = rw n le;
                    })
                | inr x ↦ inr x
              ]))
      ])

-- Against a reference that is set, a verdict that accepts an observation has found a move that is
-- below the emergency deviation and within the allowance of its direction for the epochs gone by.
pub evaluate-accepts :
    (r : Reference) (o : PriceObservation) (c : BreakerConfig) (b : Bool) (v : Verdict)
    → is_set r ≡ true
    → evaluate r o c b ≡ ok v
    → v.accept ≡ true
    → (move_bps r.gross_rate o.gross_rate ≡ ok (v.moved_bps))
      × (v.moved_bps < c.emergency_deviation_bps)
      × (v.moved_bps ≤ per_epoch c (ltb r.gross_rate o.gross_rate) * epochs_elapsed r o c)
evaluate-accepts r o c b v set e t = elim (Ensures-ok (evaluate-cases r o c b set) e) [
  | inl a ↦ (a.moved, a.below_emergency, a.within_allowance)
  | inr x ↦ absurd (let h = x.refused in cc)
]

pub health_roundtrip : (h : OracleHealth) → health_from_u8 (health_to_u8 h) ≡ ok h
unfolding health_from_u8 health_to_u8
health_roundtrip healthy = refl
health_roundtrip rate_warning = refl
health_roundtrip borrow_frozen = refl
health_roundtrip emergency = refl
health_roundtrip bootstrapping = refl

-- Against a reference that is set, an observation that the breaker refuses leaves the reference as
-- it was once it is recorded, and freezes borrowing: the oracle refuses to permit a borrow.
pub evaluate-freezes :
    (s : OracleState) (o : PriceObservation) (c : BreakerConfig) (b : Bool) (v : Verdict) (slot : ℕ)
    → is_set s.reference ≡ true
    → evaluate s.reference o c b ≡ ok v
    → v.accept ≡ false
    → ((record_observation s o v slot).reference ≡ s.reference)
      × (require_permits (record_observation s o v slot) RiskAction.borrow ≡ err (refusal v.health))
unfolding record_observation require_permits ◌>>=◌ require
evaluate-freezes s o c b v slot set e f =
    elim (Ensures-ok (evaluate-cases s.reference o c b set) e) [
      | inl a ↦ absurd (let h = a.accepted in cc)
      | inr x ↦ (rw f refl, rw (health_roundtrip v.health, x.freezes) refl)
    ]
