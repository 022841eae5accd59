-- ===== src/Oracle/Sources.antt =====
-- What an observation of the native source stands on: oracle/native_bcook.rs and oracle/deployment.rs.
use aera_v.Common.{
  ℕ, ◌-◌, ◌*◌, ◌<◌, ◌≤◌, ◌≡◌, ◌↔◌, ◌⊎◌, inl, inr, refl, ◌==◌, ==_iff, ok, Bool-cases, leb→le,
  ltb→lt, ◌>>=◌, require, RawAccount, Pubkey, Ensures, Ensures->>=, Ensures-ok, Ensures-itself,
  Ensures-skip, returns, fails, require-Ensures, checked_sub-Ensures, max,
}
use aera_v.Common.Int.{ℤ}
use aera_v.Math.Rounds.{IsFloor, mul_div_floor-Ensures}
use aera_v.Oracle.Health.{native_exchange_rate}
use aera_v.Oracle.Breaker.{PriceObservation}
use aera_v.Oracle.Deployment.{
  Loader, Deployment, program_data_address, is_immutable, no_upgrade_authority, read_deployment,
  verify_matches_pin,
}
use aera_v.Oracle.StakePool.{StakePoolView, parse_stake_pool, withdrawal_fee_of, gross_rate_of}
use aera_v.Oracle.Native.{apply_withdrawal_fee, NativeOracleBounds, observe}

-- The pinned deployment, or the same code after its authority was given up.
abbrev pub IsPinned : Deployment → ℕ → Pubkey → Type 0
IsPinned d slot authority =
    (d.deploy_slot ≡ slot)
    × ((d.upgrade_authority ≡ authority) ⊎ (d.upgrade_authority ≡ no_upgrade_authority))

verify_matches_pin-Ensures :
    (d : Deployment) (slot : ℕ) (authority : Pubkey)
    → Ensures (λ (_ : Unit {0}). IsPinned d slot authority) (verify_matches_pin d slot authority)
unfolding verify_matches_pin is_immutable
verify_matches_pin-Ensures d slot authority = Ensures->>= (require-Ensures _ _) λ _ same.
    elim (Bool-cases (d.upgrade_authority == authority)) [
      | inl e ↦ rw e (returns ((==_iff _ _).0 same, inl ((==_iff _ _).0 e)))
      | inr e ↦ elim (Bool-cases (d.upgrade_authority == no_upgrade_authority)) [
        | inl f ↦ rw (e, f) (returns ((==_iff _ _).0 same, inr ((==_iff _ _).0 f)))
        | inr f ↦ rw (e, f) fails
      ]
    ]

verify_matches_pin-passes :
    (d : Deployment) (slot : ℕ) (authority : Pubkey)
    → IsPinned d slot authority
    → verify_matches_pin d slot authority ≡ ok tt
unfolding verify_matches_pin is_immutable ◌>>=◌ require
verify_matches_pin-passes d slot authority (same, inl a) =
    rw ((==_iff _ _).1 same, (==_iff _ _).1 a) refl
verify_matches_pin-passes d slot authority (same, inr a) =
    elim (Bool-cases (d.upgrade_authority == authority)) [
      | inl e ↦ rw ((==_iff _ _).1 same, e) refl
      | inr e ↦ rw ((==_iff _ _).1 same, e, (==_iff _ _).1 a) refl
    ]

-- The pin accepts exactly the deployment slot that was pinned, with the pinned upgrade authority or
-- with none any more.
pub verify_matches_pin_iff :
    (d : Deployment) (slot : ℕ) (authority : Pubkey)
    → (verify_matches_pin d slot authority ≡ ok tt) ↔ IsPinned d slot authority
verify_matches_pin_iff d slot authority = (
  Ensures-ok (verify_matches_pin-Ensures d slot authority),
  verify_matches_pin-passes d slot authority,
)

-- What stands behind an observation.
pub record IsVerified (loader : Loader) (account program_data : RawAccount)
    (bounds : NativeOracleBounds) (o : PriceObservation) : Type 0 where
  pub deployment : Deployment
  pub deployed : read_deployment loader program_data bounds.expected_program ≡ ok deployment
  pinned : IsPinned deployment bounds.expected_deploy_slot bounds.expected_upgrade_authority
  right_account : account.key ≡ bounds.expected_pool
  right_owner : account.owner ≡ bounds.expected_program
  view : StakePoolView
  parsed : parse_stake_pool account.bytes ≡ ok view
  right_mint : view.pool_mint ≡ bounds.expected_pool_mint
  fee : o.withdrawal_fee_bps ≡ max view.stake_withdrawal_fee_bps view.sol_withdrawal_fee_bps
  tolerated : o.withdrawal_fee_bps ≤ bounds.max_withdrawal_fee_bps
  gross :
      IsFloor (view.total_lamports * 1_000_000_000_000_000_000) view.pool_token_supply o.gross_rate
  effective : IsFloor (o.gross_rate * (10_000 - o.withdrawal_fee_bps)) 10_000 o.effective_rate
  above_floor : bounds.rate_floor ≤ o.gross_rate
  below_ceiling : o.gross_rate ≤ bounds.rate_ceiling
  positive : 0 < o.effective_rate
  pub native : o.source ≡ native_exchange_rate

pub read_deployment-address :
    (loader : Loader) (account : RawAccount) (program_id : Pubkey)
    → Ensures
        (λ (_ : Deployment). account.key ≡ program_data_address loader program_id)
        (read_deployment loader account program_id)
unfolding read_deployment
read_deployment-address loader account program_id = Ensures->>= (require-Ensures _ _) λ _ same.
    Ensures-skip _ λ _.
      Ensures-skip _
        λ _. Ensures-skip _ λ _. Ensures-skip _ λ authority. returns ((==_iff _ _).0 same)

gross_rate_of-Ensures :
    (v : StakePoolView)
    → Ensures
        (IsFloor (v.total_lamports * 1_000_000_000_000_000_000) v.pool_token_supply)
        (gross_rate_of v)
unfolding gross_rate_of
gross_rate_of-Ensures v = Ensures-skip _ λ _. Ensures-skip _ λ _. mul_div_floor-Ensures _ _ _

apply_withdrawal_fee-Ensures :
    (gross fee : ℕ)
    → Ensures (IsFloor (gross * (10_000 - fee)) 10_000) (apply_withdrawal_fee gross fee)
unfolding apply_withdrawal_fee
apply_withdrawal_fee-Ensures gross fee =
    Ensures->>= (checked_sub-Ensures _ _) λ keep (e, _). rw e (mul_div_floor-Ensures _ _ _)

pub observe-Ensures :
    (loader : Loader) (account program_data : RawAccount) (bounds : NativeOracleBounds) (slot : ℕ)
    (unix_timestamp : ℤ)
    → Ensures
        (IsVerified loader account program_data bounds)
        (observe loader account program_data bounds slot unix_timestamp)
unfolding observe withdrawal_fee_of
observe-Ensures loader account program_data bounds slot unix_timestamp =
    Ensures->>= (Ensures-itself _) λ d deployed.
      Ensures->>= (verify_matches_pin-Ensures _ _ _) λ _ pinned.
        Ensures->>= (require-Ensures _ _) λ _ key. Ensures->>= (require-Ensures _ _) λ _ owner.
          Ensures->>= (Ensures-itself _) λ view parsed. Ensures->>= (require-Ensures _ _) λ _ mint.
            Ensures->>= (require-Ensures _ _) λ _ tolerated.
              Ensures->>= (gross_rate_of-Ensures _) λ gross g.
                Ensures->>= (apply_withdrawal_fee-Ensures _ _) λ effective f.
                  Ensures->>= (require-Ensures _ _) λ _ low.
                    Ensures->>= (require-Ensures _ _) λ _ high.
                      Ensures->>= (require-Ensures _ _) λ _ positive. Ensures-skip _ λ previous.
                        returns (record {
                          deployment = d;
                          deployed = deployed;
                          pinned = pinned;
                          right_account = (==_iff _ _).0 key;
                          right_owner = (==_iff _ _).0 owner;
                          view = view;
                          parsed = parsed;
                          right_mint = (==_iff _ _).0 mint;
                          fee = refl;
                          tolerated = leb→le _ _ tolerated;
                          gross = g;
                          effective = f;
                          above_floor = leb→le _ _ low;
                          below_ceiling = leb→le _ _ high;
                          positive = ltb→lt _ _ positive;
                          native = refl;
                        })

-- An observation of the native source stands on the pinned deployment, and on the configured
-- account with the configured owner, which holds a stake pool of the right mint; its fee is the
-- larger of the pool's two and tolerated; its gross rate is the pool's backing over its supply,
-- rounded down, and within the bounds; and its effective rate is positive, and is the gross rate
-- less the fee, rounded down; and it is marked as a native rate.
pub observe-IsVerified :
    (loader : Loader) (account program_data : RawAccount) (bounds : NativeOracleBounds) (slot : ℕ)
    (unix_timestamp : ℤ) (o : PriceObservation)
    → observe loader account program_data bounds slot unix_timestamp ≡ ok o
    → IsVerified loader account program_data bounds o
observe-IsVerified loader account program_data bounds slot unix_timestamp o =
    Ensures-ok (observe-Ensures loader account program_data bounds slot unix_timestamp)
