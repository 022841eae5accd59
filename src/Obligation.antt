-- ===== src/Obligation.antt =====
-- programs/aera/src/state/obligation.rs: a borrower's position.
use aera_v.Common.{
  ℕ, ◌/◌, ◌%◌, Bool, not, Option, none, some, List, [], ◌∷◌, ◌++◌, Outcome, ok, err, AeraError,
  ◌>>=◌, ◌>>◌, require, checked_add, checked_mul, narrow, u64_bound, u128_bound, ltb, ◌==◌,
  if◌then◌else◌, Pubkey, Clock, length, get_elem?, position,
}
use aera_v.Constants.{bps_denominator, fixed_point_scale, max_obligation_reserves}
use aera_v.Math.{mul_div_floor}

pub record ObligationCollateral : Type 0 where
  pub reserve : Pubkey
  pub deposited_shares : ℕ
  pub market_value : ℕ

pub record ObligationLiquidity : Type 0 where
  pub reserve : Pubkey
  pub borrowed_principal : ℕ
  pub market_value : ℕ

pub record Obligation : Type 0 where
  pub market : Pubkey
  pub owner : Pubkey
  pub last_update_slot : ℕ
  pub stale : Bool
  pub prices_stressed : Bool
  pub deposited_value : ℕ
  pub effective_collateral_value : ℕ
  pub borrowed_value : ℕ
  pub allowed_borrow_value : ℕ
  pub unhealthy_borrow_value : ℕ
  pub deposits : List ObligationCollateral
  pub borrows : List ObligationLiquidity

-- `SupplyPosition`
pub record SupplyPosition : Type 0 where
  pub reserve : Pubkey
  pub owner : Pubkey
  pub supplied_liquidity : ℕ

-- `Obligation::require_refreshed`
unfoldable pub require_refreshed : Obligation → Clock → Outcome (Unit {0})
require_refreshed o clock = do
  require (not o.stale) AeraError.obligation_stale
  require (o.last_update_slot == clock.slot) AeraError.obligation_stale

-- `Obligation::health_factor_bps`
unfoldable pub health_factor_bps : Obligation → Outcome (Option ℕ)
health_factor_bps o = if o.borrowed_value == 0 then ok none else do
  hf ← mul_div_floor o.unhealthy_borrow_value bps_denominator o.borrowed_value
  ok (some hf)

-- `Obligation::is_liquidatable`
unfoldable pub is_liquidatable : Obligation → Bool
is_liquidatable o = ltb o.unhealthy_borrow_value o.borrowed_value

abbrev pub or_not_found : Option ℕ → Outcome ℕ
or_not_found none = err AeraError.reserve_not_found
or_not_found (some i) = ok i

abbrev pub collateral_position : Obligation → Pubkey → Option ℕ
collateral_position o key = position (λ e. e.reserve == key) o.deposits

abbrev pub borrow_position : Obligation → Pubkey → Option ℕ
borrow_position o key = position (λ e. e.reserve == key) o.borrows

-- `Obligation::find_collateral`
unfoldable pub find_collateral : Obligation → Pubkey → Outcome ℕ
find_collateral o key = or_not_found (collateral_position o key)

-- `Obligation::find_borrow`
unfoldable pub find_borrow : Obligation → Pubkey → Outcome ℕ
find_borrow o key = or_not_found (borrow_position o key)

-- `Obligation::upsert_collateral`: the obligation, and the index of the entry.
unfoldable pub upsert_collateral : Obligation → Pubkey → Outcome (Obligation × ℕ)
upsert_collateral o key = elim (collateral_position o key) [
  | some i ↦ ok (o, i)
  | none ↦ do
    require (ltb (length o.deposits) max_obligation_reserves) AeraError.too_many_reserves
    let entry : ObligationCollateral = record {
      reserve = key;
      deposited_shares = 0;
      market_value = 0;
    }
    ok (record o { deposits = o.deposits ++ (entry ∷ []) }, length o.deposits)
]

-- `Obligation::upsert_borrow`
unfoldable pub upsert_borrow : Obligation → Pubkey → Outcome (Obligation × ℕ)
upsert_borrow o key = elim (borrow_position o key) [
  | some i ↦ ok (o, i)
  | none ↦ do
    require (ltb (length o.borrows) max_obligation_reserves) AeraError.too_many_reserves
    let entry : ObligationLiquidity = record {
      reserve = key;
      borrowed_principal = 0;
      market_value = 0;
    }
    ok (record o { borrows = o.borrows ++ (entry ∷ []) }, length o.borrows)
]

-- Indexing a vector; a Rust index out of bounds panics, which aborts the transaction.
unfoldable pub index {ℓ} : {A : Type ℓ} → List A → ℕ → Outcome A
index xs i = elim (get_elem? xs i) [ none ↦ err (AeraError.external 0) | some x ↦ ok x ]

-- Debt behind one principal, as `debt_at` and `refresh_obligation` both compute it.
unfoldable pub debt_of : ℕ → ℕ → Outcome ℕ
debt_of principal borrow_index = do
  exact ← checked_mul u128_bound principal borrow_index
  let floor = exact / fixed_point_scale
  amount ← (if exact % fixed_point_scale == 0 then ok floor else checked_add u128_bound floor 1)
  narrow u64_bound amount

-- `Obligation::debt_at`
unfoldable pub debt_at : Obligation → ℕ → ℕ → Outcome ℕ
debt_at o i borrow_index = do
  entry ← index o.borrows i
  debt_of entry.borrowed_principal borrow_index
