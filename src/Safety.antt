-- ===== src/Safety.antt =====
-- What the handlers refuse and keep: when a borrow, a liquidation and a withdrawal of collateral go
-- through, the books of principal, the waits, and what refreshes and migrations leave.
pub mod Borrowing
pub mod Liquidation
pub mod Principal
pub mod Seizure
pub mod Books
pub mod Timelock
pub mod Refresh
pub mod Bootstrap
pub mod PoolPrice
pub mod MarketRefresh
pub mod Ring
pub mod Migration
pub mod MarketRun
