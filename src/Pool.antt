-- ===== src/Pool.antt =====
-- The suppliers' claim on a pool under every handler that moves it.
pub mod Rate
pub mod Trades
pub mod Credit
pub mod Interest
pub mod Run
pub mod Worth
pub mod Life
pub mod RoundTrip
pub mod OffLedger
pub mod Vault
pub mod Books
