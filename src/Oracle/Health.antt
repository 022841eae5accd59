-- ===== src/Oracle/Health.antt =====
-- programs/aera/src/oracle/breaker.rs: the states of an oracle and the gate matrix, with
-- `OracleSourceKind` of oracle/mod.rs.
use aera_v.Common.{ℕ, zero, suc, Bool, true, false, Outcome, ok, err, AeraError}

pub data OracleHealth : Type 0 where
  healthy rate_warning borrow_frozen emergency bootstrapping : OracleHealth

-- `OracleHealth::from_u8`
unfoldable pub health_from_u8 : ℕ → Outcome OracleHealth
health_from_u8 zero = ok healthy
health_from_u8 (suc zero) = ok rate_warning
health_from_u8 (suc (suc zero)) = ok borrow_frozen
health_from_u8 (suc (suc (suc zero))) = ok emergency
health_from_u8 (suc (suc (suc (suc zero)))) = ok bootstrapping
health_from_u8 (suc (suc (suc (suc (suc _))))) = err AeraError.invalid_oracle_config

-- `health as u8`
unfoldable pub health_to_u8 : OracleHealth → ℕ
health_to_u8 healthy = 0
health_to_u8 rate_warning = 1
health_to_u8 borrow_frozen = 2
health_to_u8 emergency = 3
health_to_u8 bootstrapping = 4

pub data RiskAction : Type 0 where
  borrow withdraw_collateral withdraw_liquidity supply_liquidity repay : RiskAction
  deposit_collateral liquidate : RiskAction

-- `OracleHealth::permits`
unfoldable pub permits : OracleHealth → RiskAction → Bool
permits _ repay = true
permits _ deposit_collateral = true
permits _ supply_liquidity = true
permits _ liquidate = true
permits emergency withdraw_liquidity = false
permits _ withdraw_liquidity = true
permits healthy borrow = true
permits rate_warning borrow = true
permits _ borrow = false
permits healthy withdraw_collateral = true
permits rate_warning withdraw_collateral = true
permits _ withdraw_collateral = false

-- `OracleHealth::refusal`
unfoldable pub refusal : OracleHealth → AeraError
refusal emergency = AeraError.oracle_emergency
refusal bootstrapping = AeraError.oracle_bootstrapping
refusal _ = AeraError.oracle_borrow_frozen

pub data OracleSourceKind : Type 0 where
  unit_of_account native_exchange_rate market_twap : OracleSourceKind

-- `OracleSourceKind::from_u8`
unfoldable pub kind_from_u8 : ℕ → Outcome OracleSourceKind
kind_from_u8 zero = ok unit_of_account
kind_from_u8 (suc zero) = ok native_exchange_rate
kind_from_u8 (suc (suc zero)) = ok market_twap
kind_from_u8 (suc (suc (suc _))) = err AeraError.unknown_oracle_source
