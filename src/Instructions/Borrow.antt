-- ===== src/Instructions/Borrow.antt =====
-- programs/aera/src/instructions/borrow.rs
use aera_v.Common.{
  ℕ, true, not, none, some, Outcome, ok, AeraError, ◌>>=◌, ◌>>◌, require, checked_add, checked_sub,
  narrow, u64_bound, u128_bound, ltb, leb, Pubkey, Clock, set,
}
use aera_v.Constants.{bps_denominator, fixed_point_scale}
use aera_v.Math.{market_value, mul_div_ceil, mul_div_floor, up}
use aera_v.Global.{Global, require_borrow_enabled}
use aera_v.Reserve.{Reserve, require_accrued}
use aera_v.Obligation.{
  Obligation, require_refreshed, borrow_position, debt_at, upsert_borrow, index,
}
use aera_v.Oracle.Health.{RiskAction}
use aera_v.Oracle.State.{OracleState, require_fresh, require_permits, effective_rate}
use aera_v.Risk.{
  check_borrow_enabled, check_borrow_cap, check_per_wallet_borrow_cap, require_within_borrow_limit,
}
use aera_v.Tokens.{TokenProgram}
use aera_v.Instructions.Constraints.{has_one, same_market}
use aera_v.Instructions.RiskAccount.{Program, RiskConfigInfo, read_risk_config, cap_of}

-- The accounts of `Borrow`.
pub record Borrow : Type 0 where
  pub global : Global
  pub obligation : Obligation
  pub owner : Pubkey
  pub reserve_key : Pubkey
  pub reserve : Reserve
  pub oracle_key : Pubkey
  pub oracle : OracleState
  pub liquidity_mint : Pubkey
  pub liquidity_vault : Pubkey
  pub user_liquidity : Pubkey
  pub risk_config : RiskConfigInfo

unfoldable pub borrow_constraints : Borrow → Outcome (Unit {0})
borrow_constraints c = do
  has_one c.obligation.owner c.owner
  has_one c.reserve.liquidity_mint c.liquidity_mint
  has_one c.reserve.liquidity_vault c.liquidity_vault
  has_one c.reserve.oracle c.oracle_key
  same_market c.reserve.market c.obligation.market

-- What the wallet owes in the reserve already: nothing, without an entry.
unfoldable pub already_owed : Obligation → Pubkey → ℕ → Outcome ℕ
already_owed o reserve_key borrow_index = elim (borrow_position o reserve_key) [
  | none ↦ ok 0
  | some i ↦ debt_at o i borrow_index
]

-- Every check that can refuse the borrow, in the order of the handler.
unfoldable pub borrow_checks : Program → Clock → Borrow → ℕ → Outcome (Unit {0})
borrow_checks program clock c liquidity_amount = do
  require (ltb 0 liquidity_amount) AeraError.zero_amount
  require_borrow_enabled c.global
  require_refreshed c.obligation clock
  require_accrued c.reserve clock
  check_borrow_enabled c.reserve
  require (not c.obligation.prices_stressed) AeraError.oracle_borrow_frozen
  require_fresh c.oracle clock.slot
  require_permits c.oracle RiskAction.borrow
  price_scaled ← effective_rate c.oracle
  borrow_value ← market_value liquidity_amount c.reserve.liquidity_decimals price_scaled up
  projected ← checked_add u128_bound c.obligation.borrowed_value borrow_value
  require_within_borrow_limit projected c.obligation.allowed_borrow_value AeraError.borrow_too_large
  check_borrow_cap c.reserve liquidity_amount
  config ← read_risk_config program c.risk_config c.reserve_key
  owed ← already_owed c.obligation c.reserve_key c.reserve.borrow_index
  check_per_wallet_borrow_cap (cap_of config) owed liquidity_amount
  require (leb liquidity_amount c.reserve.available_liquidity)
      AeraError.insufficient_reserve_liquidity

-- Add principal to an obligation's entry for the reserve.
unfoldable pub add_borrow : Obligation → Pubkey → ℕ → Outcome Obligation
add_borrow o reserve_key scaled_added = do
  (opened, i) ← upsert_borrow o reserve_key
  entry ← index opened.borrows i
  principal ← checked_add u128_bound entry.borrowed_principal scaled_added
  ok (record opened {
    borrows = set opened.borrows i (record entry { borrowed_principal = principal });
    stale = true;
  })

-- The reserve's side of a draw: the new reserve, the principal added and the amount paid out.
unfoldable pub draw : Reserve → ℕ → Outcome (Reserve × ℕ × ℕ)
draw r liquidity_amount = do
  scaled_added ← mul_div_ceil liquidity_amount fixed_point_scale r.borrow_index
  wide ← mul_div_floor liquidity_amount r.config.origination_fee_bps bps_denominator
  fee ← narrow u64_bound wide
  paid_out ← checked_sub liquidity_amount fee
  require (ltb 0 paid_out) AeraError.zero_amount
  principal ← checked_add u128_bound r.borrowed_principal scaled_added
  available ← checked_sub r.available_liquidity paid_out
  fees ← checked_add u64_bound r.accrued_fees fee
  let drawn = record r {
    borrowed_principal = principal;
    available_liquidity = available;
    accrued_fees = fees;
  }
  ok (drawn, scaled_added, paid_out)

-- The handler up to its token call: the accounts it leaves, and the amount to pay out.
unfoldable pub borrow_effects : Program → Clock → Borrow → ℕ → Outcome (Borrow × ℕ)
borrow_effects program clock c liquidity_amount = do
  borrow_checks program clock c liquidity_amount
  (reserve, scaled_added, paid_out) ← draw c.reserve liquidity_amount
  obligation ← add_borrow c.obligation c.reserve_key scaled_added
  ok (record c { reserve = reserve; obligation = obligation }, paid_out)

-- `handle_borrow`
unfoldable pub handle_borrow :
    {L : Type 0} → TokenProgram L → Program → Clock → Borrow → ℕ → L → Outcome (Borrow × L)
handle_borrow tokens program clock c liquidity_amount l = do
  borrow_constraints c
  (c', paid_out) ← borrow_effects program clock c liquidity_amount
  paid ←
      tokens.transfer_checked c.liquidity_vault c.liquidity_mint c.user_liquidity c.reserve_key
        paid_out c.reserve.liquidity_decimals l
  ok (c', paid)
