-- ===== src/Reserve/Limits.antt =====
-- What `ReserveConfig::validate` of state/reserve.rs lets through, as inequalities.
use aera_v.Common.{
  ℕ, ◌<◌, ◌≤◌, ◌≡◌, refl, Bool, true, false, ◌&&◌, ltb, leb, ltb→lt, leb→le, arith, ok, Ensures,
  Ensures->>=, returns, require-Ensures, if◌then◌else◌, ◌⊎◌, inl, inr, err, Ensures-map,
  Ensures-unless, AeraError, require,
}
use aera_v.Constants.{
  bps_denominator, max_admin_ltv_bps, max_admin_liquidation_bonus_bps, max_admin_reserve_factor_bps,
  max_admin_origination_fee_bps, min_admin_collateral_haircut_bps,
}
use aera_v.Reserve.Types.{ReserveConfig}
use aera_v.Reserve.Config.{validate}

-- A configuration within the hard limits.
pub record IsSound (c : ReserveConfig) : Type 0 where
  pub threshold : c.liquidation_threshold_bps ≤ bps_denominator
  pub close_factor : c.close_factor_bps ≤ bps_denominator
  pub haircut : c.collateral_haircut_bps ≤ bps_denominator
  pub ltv : c.loan_to_value_bps ≤ max_admin_ltv_bps
  pub bonus : c.liquidation_bonus_bps ≤ max_admin_liquidation_bonus_bps
  pub reserve_factor : c.reserve_factor_bps ≤ max_admin_reserve_factor_bps
  pub origination_fee : c.origination_fee_bps ≤ max_admin_origination_fee_bps
  pub collateral_haircut :
      (c.collateral_enabled ≡ false) ⊎ (min_admin_collateral_haircut_bps ≤ c.collateral_haircut_bps)
  pub closes : 0 < c.close_factor_bps
  pub kink_low : 0 < c.optimal_utilization_bps
  pub kink_high : c.optimal_utilization_bps < bps_denominator
  pub ltv_below_threshold : c.loan_to_value_bps ≤ c.liquidation_threshold_bps
  pub rates_low : c.min_borrow_rate_bps ≤ c.optimal_borrow_rate_bps
  pub rates_high : c.optimal_borrow_rate_bps ≤ c.max_borrow_rate_bps
  pub slots : 0 < c.slots_per_year
  pub caps : (c.supply_cap ≡ 0) ⊎ (c.borrow_cap ≤ c.supply_cap)

pub validate-IsSound : (c : ReserveConfig) → Ensures (λ _. IsSound c) (validate c)
unfolding validate
validate-IsSound c = Ensures->>= (require-Ensures _ _) λ _ a.
    Ensures->>= (require-Ensures _ _) λ _ b. Ensures->>= (require-Ensures _ _) λ _ d.
      Ensures->>= (require-Ensures _ _) λ _ e. Ensures->>= (require-Ensures _ _) λ _ f.
        Ensures->>= (collateral_checked c.collateral_enabled c.collateral_haircut_bps) λ _ g.
          Ensures->>= (require-Ensures _ _) λ _ h. Ensures->>= (require-Ensures _ _) λ _ i.
            Ensures->>= (require-Ensures _ _) λ _ j. Ensures->>= (require-Ensures _ _) λ _ k.
              Ensures->>= (require-Ensures _ _) λ _ l.
                Ensures-map (caps_checked c.supply_cap c.borrow_cap) λ _ m. record {
                  threshold = ground arith;
                  close_factor = ground arith;
                  haircut = ground arith;
                  ltv = leb→le _ _ b;
                  bonus = leb→le _ _ d;
                  reserve_factor = leb→le _ _ e;
                  origination_fee = leb→le _ _ f;
                  collateral_haircut = g;
                  closes = ltb→lt _ _ h;
                  kink_low = ground arith;
                  kink_high = ground arith;
                  ltv_below_threshold = leb→le _ _ j;
                  rates_low = ground arith;
                  rates_high = ground arith;
                  slots = ltb→lt _ _ l;
                  caps = m;
                }
  where
    caps_checked :
        (supply borrow : ℕ)
        → Ensures
            (λ (_ : Unit {0}). (supply ≡ 0) ⊎ (borrow ≤ supply))
            (if ltb 0 supply && ltb supply borrow then err AeraError.invalid_config else ok tt)
    caps_checked supply borrow = Ensures-unless _ _ _ λ m. ground arith

    collateral_checked :
        (enabled : Bool) (haircut : ℕ)
        → Ensures
            (λ (_ : Unit {0}). (enabled ≡ false) ⊎ (min_admin_collateral_haircut_bps ≤ haircut))
            (if enabled
              then require
                  (leb min_admin_collateral_haircut_bps haircut)
                  AeraError.haircut_below_hard_min
              else ok tt)
    collateral_checked true haircut = Ensures-map (require-Ensures _ _) λ _ h. inr (leb→le _ _ h)
    collateral_checked false haircut = returns (inl refl)
