-- ===== src/Reserve.antt =====
-- programs/aera/src/state/reserve.rs, in child modules: the accounts, the pool, the interest and
-- the configuration.
mod Types
mod Pool
mod Interest
mod Config
pub mod Debt
pub mod Limits
pub mod Curve
pub use Types.*
unfoldable pub use Pool.{
  current_borrowed_amount, gross_liquidity, total_liquidity, utilization_bps, require_accrued,
  shares_to_liquidity, liquidity_to_shares,
}
unfoldable pub use Interest.{
  curve_bps, borrow_rate_bps, supply_rate_bps, borrow_rate_per_slot, charge_interest,
  accrue_interest,
}
unfoldable pub use Config.{validate, cap_is_tighter, is_tightening_from}
