-- ===== src/Instructions.antt =====
-- programs/aera/src/instructions/: one module for each handler, or for handlers that belong
-- together.
pub mod Constraints
pub mod Supply
pub mod Withdraw
pub mod Params
pub mod RiskParams
pub mod Pause
pub mod Repay
pub mod Fees
pub mod RiskAccount
pub mod Borrow
pub mod Collateral
pub mod Liquidate
pub mod AbsorbBadDebt
pub mod RefreshObligation
pub mod RefreshOracle
pub mod RefreshMarket
pub mod SetOracle
pub mod MarketConfig
pub mod Migrate
pub mod Create
