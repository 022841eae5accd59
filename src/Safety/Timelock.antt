-- ===== src/Safety/Timelock.antt =====
-- Changes of parameters: what waits for the timelock, and what is bounded at once.
use aera_v.Common.{
  ◌⊎◌, ℕ, ◌≤◌, Bool, true, leb, ◌&&◌, Bool-cases, inl, inr, arith, ◌≡◌, refl, ◌∙◌, false, leb→le,
  ok, Clock, Ensures, Ensures->>=, Ensures-skip, Ensures-ok, Ensures-if, returns, require-Ensures,
}
use aera_v.Common.Int.{pos, ℤ, ◌+ℤ◌, ◌≤ℤ◌, fits_i64, checked_add_i64}
use aera_v.Constants.{max_protocol_liquidation_share_bps}
use aera_v.Risk.{RiskConfig}
use aera_v.Instructions.RiskParams.{
  SetRiskConfig, claimed, risk_cap_is_tighter, handle_set_risk_config,
}
use aera_v.Reserve.{Reserve, ReserveConfig, is_tightening_from}
use aera_v.Instructions.Params.{SetParams, handle_set_params, handle_apply_pending_params}

checked_add_i64-Ensures : (a b : ℤ) → Ensures (λ s. s ≡ a +ℤ b) (checked_add_i64 a b)
unfolding checked_add_i64
checked_add_i64-Ensures a b = Ensures-if _ _ (fits_i64 (a +ℤ b)) λ _. refl

queued :
    (clock : Clock) (c : SetParams) (config : ReserveConfig)
    → is_tightening_from c.reserve.config config ≡ false
    → Ensures
        (λ r.
          (r.config ≡ c.reserve.config)
          × (r.pending.config ≡ config)
          × (r.pending.eta ≡ clock.unix_timestamp +ℤ c.global.param_timelock_seconds))
        (handle_set_params clock c config)
unfolding handle_set_params
queued clock c config loosens = Ensures-skip _ λ _.
    Ensures-skip _
      λ _. rw loosens (Ensures->>= (checked_add_i64-Ensures _ _) λ eta e. returns (refl, refl, e))

applied :
    (clock : Clock) (r : Reserve)
    → Ensures
        (λ r'. (r'.config ≡ r.pending.config) × (r.pending.eta ≤ℤ clock.unix_timestamp))
        (handle_apply_pending_params clock r)
unfolding handle_apply_pending_params
applied clock r = Ensures-skip _ λ _.
    Ensures->>= (require-Ensures _ _) λ _ due. Ensures-skip _ λ _. returns (refl, leb→le _ _ due)

-- A change of parameters that is not a tightening leaves the configuration in force as it is, and
-- when the reserve it leaves is the one that the queued change is applied to, the queued change is
-- what comes into force, no sooner than the timelock after it was queued.
pub handle_set_params-waits :
    (clock clock' : Clock) (c : SetParams) (config : ReserveConfig) (r r' : Reserve)
    → is_tightening_from c.reserve.config config ≡ false
    → handle_set_params clock c config ≡ ok r
    → handle_apply_pending_params clock' r ≡ ok r'
    → (r.config ≡ c.reserve.config)
      × (r'.config ≡ config)
      × (clock.unix_timestamp +ℤ c.global.param_timelock_seconds ≤ℤ clock'.unix_timestamp)
handle_set_params-waits clock clock' c config r r' loosens e e' =
    let (same, held, eta) = Ensures-ok (queued clock c config loosens) e in
    let (next, due) = Ensures-ok (applied clock' r) e' in (same, next ∙ held, rw (eta) at due)

-- What a change of the risk configuration leaves: the cap and the share in force at once with
-- nothing queued, or queued behind the timelock with the ones in force as they were.
pub record IsSetOrQueued (clock : Clock) (c : SetRiskConfig) (new_cap share : ℕ) (k : RiskConfig)
    : Type 0 where
  pub no_raise :
      k.protocol_liquidation_share_bps
      ≤ (claimed c.risk_config c.reserve_key).protocol_liquidation_share_bps
  pub within_bonus : share ≤ c.reserve.config.liquidation_bonus_bps
  pub within_ceiling : share ≤ max_protocol_liquidation_share_bps
  pub written :
      ((k.protocol_liquidation_share_bps ≡ share)
        × (k.per_wallet_borrow_cap ≡ new_cap)
        × (k.pending_eta ≡ pos 0))
      ⊎ ((k.protocol_liquidation_share_bps
            ≡ (claimed c.risk_config c.reserve_key).protocol_liquidation_share_bps)
          × (k.per_wallet_borrow_cap ≡ (claimed c.risk_config c.reserve_key).per_wallet_borrow_cap)
          × (k.pending_protocol_liquidation_share_bps ≡ share)
          × (k.pending_per_wallet_borrow_cap ≡ new_cap)
          × (k.pending_eta ≡ clock.unix_timestamp +ℤ c.global.param_timelock_seconds))

share_set :
    (clock : Clock) (c : SetRiskConfig) (new_cap share : ℕ)
    → Ensures (IsSetOrQueued clock c new_cap share) (handle_set_risk_config clock c new_cap share)
unfolding handle_set_risk_config
share_set clock c new_cap share =
    let config = claimed c.risk_config c.reserve_key in
    Ensures-skip _ λ _. Ensures->>= (require-Ensures _ _) λ _ small.
      Ensures->>= (require-Ensures _ _) λ _ bonus. Ensures-skip _ λ _.
        elim (Bool-cases (
          risk_cap_is_tighter config.per_wallet_borrow_cap new_cap
          && leb share config.protocol_liquidation_share_bps)) [
            | inl e ↦ rw e (
                returns (record {
                  no_raise = tighter _ _ _ e;
                  within_bonus = leb→le _ _ bonus;
                  within_ceiling = leb→le _ _ small;
                  written = inl (refl, refl, refl);
                }))
            | inr e ↦ rw e (
                Ensures->>= (checked_add_i64-Ensures _ _) λ eta due. returns (record {
                  no_raise = omega arith;
                  within_bonus = leb→le _ _ bonus;
                  within_ceiling = leb→le _ _ small;
                  written = inr (refl, refl, refl, refl, due);
                }))
          ]
  where
    tighter : (b : Bool) (x y : ℕ) → (b && leb x y) ≡ true → x ≤ y
    tighter true x y h = leb→le x y h
    tighter false x y h = cc

-- A change of a reserve's risk configuration that goes through never raises the protocol's share of
-- a liquidation at once; its share is within the hard ceiling and the reserve's own bonus; and the
-- account it leaves has either that share and that cap in force and nothing queued, or the ones in
-- force as they were, and those two queued to the end of the timelock.
pub handle_set_risk_config-bounds :
    (clock : Clock) (c : SetRiskConfig) (new_cap share : ℕ) (k : RiskConfig)
    → handle_set_risk_config clock c new_cap share ≡ ok k
    → IsSetOrQueued clock c new_cap share k
handle_set_risk_config-bounds clock c new_cap share k e =
    Ensures-ok (share_set clock c new_cap share) e
