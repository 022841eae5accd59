-- ===== src/Safety/MarketRun.antt =====
-- A market oracle from its creation on: init_market_oracle.rs and refresh_market_oracle.rs.
use aera_v.Common.{
  ◌%◌, ◌<◌, ◌≤◌, ◌≡◌, ◌⊎◌, inl, inr, refl, Bool, true, false, not, ltb, ok, Bool-cases, ltb→lt,
  ◌==◌, Clock, Pubkey, Ensures, Ensures->>=, Ensures-ok, Ensures-itself, Ensures-skip, returns,
  require-Ensures, arith, length,
}
use aera_v.Common.Int.{pos, eq_ℤ}
use aera_v.Global.{Global}
use aera_v.Oracle.State.{OracleState}
use aera_v.Oracle.MarketOracle.{
  MarketOracle, MarketOracleConfig, Observation, validate_market_config, market_is_tightening_from,
  latest,
}
use aera_v.Instructions.RefreshMarket.{
  RefreshMarketOracle, is_recorded, push_observation, handle_refresh_market_oracle,
}
use aera_v.Instructions.MarketConfig.{
  InitMarketOracle, handle_init_market_oracle, handle_set_market_oracle_config,
  handle_apply_pending_market_oracle_config,
}
use aera_v.Safety.MarketRefresh.{observed, IsTaken, handle_refresh_market_oracle-IsTaken}
use aera_v.Safety.Ring.{length-append_one, length-set}

-- What holds of a market oracle at any time.
pub record IsMarketSound (m : MarketOracle) : Type 0 where
  pub valid : validate_market_config m.config ≡ ok tt
  pub pending : (m.pending_eta ≡ pos 0) ⊎ (validate_market_config m.pending_config ≡ ok tt)
  pub many : length m.observations ≤ 32
  pub index : m.next_index < 32
  pub two_pools : (m.pool_a.pool == m.pool_b.pool) ≡ false
  pub two_mints : (m.collateral_mint == m.quote_mint) ≡ false

not-false : (b : Bool) → not b ≡ true → b ≡ false
not-false true h = cc
not-false false h = refl

-- The market oracles that the handlers lead to.
pub data MarketRun : MarketOracle → Type 0 where
  created :
      {m : MarketOracle} (a : InitMarketOracle) (c : MarketOracleConfig)
      → handle_init_market_oracle a c ≡ ok m
      → MarketRun m
  configured :
      {m m' : MarketOracle} (clock : Clock) (g : Global) (admin : Pubkey) (c : MarketOracleConfig)
      → handle_set_market_oracle_config clock g admin c m ≡ ok m'
      → MarketRun m
      → MarketRun m'
  applied :
      {m m' : MarketOracle} (clock : Clock)
      → handle_apply_pending_market_oracle_config clock m ≡ ok m'
      → MarketRun m
      → MarketRun m'
  refreshed :
      {m m' : MarketOracle} (clock : Clock) (a : RefreshMarketOracle) (s s' : OracleState)
      → handle_refresh_market_oracle clock a s m ≡ ok (s', m')
      → MarketRun m
      → MarketRun m'

created-IsMarketSound :
    (a : InitMarketOracle) (c : MarketOracleConfig)
    → Ensures IsMarketSound (handle_init_market_oracle a c)
unfolding handle_init_market_oracle
created-IsMarketSound a c = Ensures-skip _ λ _. Ensures->>= (Ensures-itself _) λ _ valid.
    Ensures-skip _ λ kind. Ensures-skip _ λ _. Ensures->>= (require-Ensures _ _) λ _ pools.
      Ensures->>= (require-Ensures _ _) λ _ mints. returns (record {
        valid = valid;
        pending = inl refl;
        many = omega arith;
        index = omega arith;
        two_pools = not-false _ pools;
        two_mints = not-false _ mints;
      })

configured-IsMarketSound :
    (clock : Clock) (g : Global) (admin : Pubkey) (c : MarketOracleConfig) (m : MarketOracle)
    → IsMarketSound m
    → Ensures IsMarketSound (handle_set_market_oracle_config clock g admin c m)
unfolding handle_set_market_oracle_config
configured-IsMarketSound clock g admin c m h = Ensures-skip _ λ _.
    Ensures->>= (Ensures-itself _) λ _ valid.
      elim (Bool-cases (market_is_tightening_from m.config c)) [
        | inl e ↦ rw e (
            returns (record {
              valid = valid;
              pending = inl refl;
              many = h.many;
              index = h.index;
              two_pools = h.two_pools;
              two_mints = h.two_mints;
            }))
        | inr e ↦ rw e (
            Ensures-skip _ λ eta. returns (record {
              valid = h.valid;
              pending = inr valid;
              many = h.many;
              index = h.index;
              two_pools = h.two_pools;
              two_mints = h.two_mints;
            }))
      ]

queued-valid :
    (m : MarketOracle)
    → IsMarketSound m
    → eq_ℤ m.pending_eta (pos 0) ≡ false
    → validate_market_config m.pending_config ≡ ok tt
queued-valid m h e = elim (h.pending) [
  | inl z ↦ absurd (let k : true ≡ false = rw z at e in cc)
  | inr v ↦ v
]

applied-IsMarketSound :
    (clock : Clock) (m : MarketOracle)
    → IsMarketSound m
    → Ensures IsMarketSound (handle_apply_pending_market_oracle_config clock m)
unfolding handle_apply_pending_market_oracle_config
applied-IsMarketSound clock m h = Ensures->>= (require-Ensures _ _) λ _ queued. Ensures-skip _ λ _.
    returns (record {
      valid = queued-valid m h (not-false _ queued);
      pending = inl refl;
      many = h.many;
      index = h.index;
      two_pools = h.two_pools;
      two_mints = h.two_mints;
    })

push_observation-IsMarketSound :
    (m : MarketOracle) (o : Observation) → IsMarketSound m → IsMarketSound (push_observation o m)
unfolding push_observation
push_observation-IsMarketSound m o h =
    let n = h.many in
    record {
      valid = h.valid;
      pending = h.pending;
      many = elim (Bool-cases (ltb (length m.observations) 32)) [
        | inl e ↦ rw (e, length-append_one m.observations o) (ltb→lt _ _ e)
        | inr e ↦ rw (e, length-set m.observations (m.next_index % 32) o) n
      ];
      index = omega arith;
      two_pools = h.two_pools;
      two_mints = h.two_mints;
    }

refreshed-IsMarketSound :
    (clock : Clock) (s s' : OracleState) (m m' : MarketOracle)
    → IsMarketSound m
    → IsTaken clock s m s' m'
    → IsMarketSound m'
refreshed-IsMarketSound clock s s' m m' h t =
    let k = t.history in
    elim (Bool-cases (is_recorded m.config (latest m) clock.unix_timestamp)) [
      | inl b ↦
          let k' = rw b at k in
          rw k' (push_observation-IsMarketSound m (observed clock t.reading) h)
      | inr b ↦ let k' = rw b at k in rw k' h
    ]

-- Every market oracle that the handlers lead to from its creation has a configuration in force that
-- passes the validation, a queued one that passes it too, at most 32 observations, the next index
-- inside the ring, two different pools and two different mints.
pub MarketRun-IsMarketSound : (m : MarketOracle) → MarketRun m → IsMarketSound m
MarketRun-IsMarketSound m (created a c e) = Ensures-ok (created-IsMarketSound a c) e
MarketRun-IsMarketSound m (configured {m = n} clock g admin c e r) =
    Ensures-ok (configured-IsMarketSound clock g admin c n (MarketRun-IsMarketSound n r)) e
MarketRun-IsMarketSound m (applied {m = n} clock e r) =
    Ensures-ok (applied-IsMarketSound clock n (MarketRun-IsMarketSound n r)) e
MarketRun-IsMarketSound m (refreshed {m = n} clock a s s' e r) =
    refreshed-IsMarketSound clock s s' n m (MarketRun-IsMarketSound n r)
      (Ensures-ok (handle_refresh_market_oracle-IsTaken clock a s n) e)
