-- ===== src/Instructions/RefreshObligation.antt =====
-- programs/aera/src/instructions/refresh_obligation.rs
use aera_v.Common.{
  ℕ, Bool, true, false, not, ◌||◌, List, [], ◌∷◌, Outcome, ok, err, AeraError, ◌>>=◌, ◌>>◌, require,
  checked_add, u128_bound, ◌==◌, Pubkey, Clock,
}
use aera_v.Constants.{bps_denominator}
use aera_v.Math.{market_value, mul_div_floor, down, up}
use aera_v.Reserve.{Reserve, require_accrued, shares_to_liquidity}
use aera_v.Obligation.{Obligation, ObligationCollateral, ObligationLiquidity, debt_of}
use aera_v.Oracle.Health.{RiskAction, health_from_u8, permits}
use aera_v.Oracle.State.{OracleState, require_fresh, effective_rate}
use aera_v.Risk.{apply_haircut}

-- What `Account::<T>::try_from` finds in a remaining account.
pub data AccountData : Type 0 where
  reserve : Reserve → AccountData
  oracle : OracleState → AccountData
  other : AccountData

pub record AccountInfo : Type 0 where
  pub key : Pubkey
  pub contents : AccountData

-- 3002 is Anchor's code for an account of another type.
abbrev as_reserve : AccountData → Outcome Reserve
as_reserve (AccountData.reserve r) = ok r
as_reserve (AccountData.oracle _) = err (AeraError.external 3002)
as_reserve AccountData.other = err (AeraError.external 3002)

abbrev as_oracle : AccountData → Outcome OracleState
as_oracle (AccountData.oracle o) = ok o
as_oracle (AccountData.reserve _) = err (AeraError.external 3002)
as_oracle AccountData.other = err (AeraError.external 3002)

-- A reserve with its price, and whether its oracle refuses new risk.
pub record Priced : Type 0 where
  pub reserve : Reserve
  pub price_scaled : ℕ
  pub stressed : Bool

-- The body of `read_pair` on the two accounts.
unfoldable pub price_pair :
    Clock
    → (expected_reserve market : Pubkey) → (reserve_info price_info : AccountInfo) → Outcome Priced
price_pair clock expected_reserve market reserve_info price_info = do
  require (reserve_info.key == expected_reserve) AeraError.invalid_obligation_account
  r ← as_reserve reserve_info.contents
  require (r.market == market) AeraError.market_mismatch
  require_accrued r clock
  require (price_info.key == r.oracle) AeraError.invalid_obligation_account
  o ← as_oracle price_info.contents
  require_fresh o clock.slot
  price ← effective_rate o
  health ← health_from_u8 o.health
  ok (record {
    reserve = r;
    price_scaled = price;
    stressed = not (permits health RiskAction.borrow);
  })

-- `read_pair`; the cursor is the list of the accounts that are left.
unfoldable pub read_pair :
    Clock
    → (expected_reserve market : Pubkey) → List AccountInfo
    → Outcome (Priced × List AccountInfo)
read_pair clock expected_reserve market [] = err AeraError.invalid_obligation_account
read_pair clock expected_reserve market (_ ∷ []) = err AeraError.invalid_obligation_account
read_pair clock expected_reserve market (a ∷ b ∷ rest) = do
  priced ← price_pair clock expected_reserve market a b
  ok (priced, rest)

-- The values of one deposit, and the running sums over the deposits.
pub record CollateralValues : Type 0 where
  pub deposited : ℕ
  pub effective : ℕ
  pub allowed : ℕ
  pub unhealthy : ℕ

unfoldable pub value_deposit : Priced → ℕ → Outcome CollateralValues
value_deposit p deposited_shares = do
  liquidity ← shares_to_liquidity p.reserve deposited_shares down
  face ← market_value liquidity p.reserve.liquidity_decimals p.price_scaled down
  effective ← apply_haircut face p.reserve.config.collateral_haircut_bps
  allowed ← mul_div_floor effective p.reserve.config.loan_to_value_bps bps_denominator
  unhealthy ← mul_div_floor effective p.reserve.config.liquidation_threshold_bps bps_denominator
  ok (record { deposited = face; effective = effective; allowed = allowed; unhealthy = unhealthy })

unfoldable pub add_values : CollateralValues → CollateralValues → Outcome CollateralValues
add_values sums v = do
  deposited ← checked_add u128_bound sums.deposited v.deposited
  effective ← checked_add u128_bound sums.effective v.effective
  allowed ← checked_add u128_bound sums.allowed v.allowed
  unhealthy ← checked_add u128_bound sums.unhealthy v.unhealthy
  ok (record {
    deposited = deposited;
    effective = effective;
    allowed = allowed;
    unhealthy = unhealthy;
  })

-- What the loop over the deposits leaves: the entries, the sums, the stress flag, the cursor.
pub record DepositPass : Type 0 where
  pub deposits : List ObligationCollateral
  pub sums : CollateralValues
  pub stressed : Bool
  pub rest : List AccountInfo

unfoldable pub refresh_deposits :
    Clock
    → Pubkey
    → List ObligationCollateral
    → CollateralValues
    → Bool
    → List AccountInfo
    → Outcome DepositPass
refresh_deposits clock market [] sums stressed accounts =
    ok (record { deposits = []; sums = sums; stressed = stressed; rest = accounts })
refresh_deposits clock market (d ∷ ds) sums stressed accounts = do
  (priced, rest) ← read_pair clock d.reserve market accounts
  values ← value_deposit priced d.deposited_shares
  sums' ← add_values sums values
  pass ← refresh_deposits clock market ds sums' (stressed || priced.stressed) rest
  ok (record pass { deposits = record d { market_value = values.deposited } ∷ pass.deposits })

-- What the loop over the borrows leaves.
pub record BorrowPass : Type 0 where
  pub borrows : List ObligationLiquidity
  pub borrowed_value : ℕ
  pub stressed : Bool
  pub rest : List AccountInfo

unfoldable pub refresh_borrows :
    Clock → Pubkey → List ObligationLiquidity → ℕ → Bool → List AccountInfo → Outcome BorrowPass
refresh_borrows clock market [] total stressed accounts =
    ok (record { borrows = []; borrowed_value = total; stressed = stressed; rest = accounts })
refresh_borrows clock market (b ∷ bs) total stressed accounts = do
  (priced, rest) ← read_pair clock b.reserve market accounts
  debt ← debt_of b.borrowed_principal priced.reserve.borrow_index
  value ← market_value debt priced.reserve.liquidity_decimals priced.price_scaled up
  total' ← checked_add u128_bound total value
  pass ← refresh_borrows clock market bs total' (stressed || priced.stressed) rest
  ok (record pass { borrows = record b { market_value = value } ∷ pass.borrows })

abbrev is_nil : List AccountInfo → Bool
is_nil [] = true
is_nil (_ ∷ _) = false

abbrev pub no_values : CollateralValues
no_values = record { deposited = 0; effective = 0; allowed = 0; unhealthy = 0 }

-- `handle_refresh_obligation`
unfoldable pub handle_refresh_obligation :
    Clock → Obligation → List AccountInfo → Outcome Obligation
handle_refresh_obligation clock o accounts = do
  d ← refresh_deposits clock o.market o.deposits no_values false accounts
  b ← refresh_borrows clock o.market o.borrows 0 d.stressed d.rest
  require (is_nil b.rest) AeraError.invalid_obligation_account
  ok (record o {
    deposits = d.deposits;
    borrows = b.borrows;
    deposited_value = d.sums.deposited;
    effective_collateral_value = d.sums.effective;
    allowed_borrow_value = d.sums.allowed;
    unhealthy_borrow_value = d.sums.unhealthy;
    borrowed_value = b.borrowed_value;
    last_update_slot = clock.slot;
    stale = false;
    prices_stressed = b.stressed;
  })
