-- ===== src/Instructions/Constraints.antt =====
-- The account constraints that the `#[derive(Accounts)]` structs state, which Anchor checks before a
-- handler runs. The codes are Anchor's; seeds and account types are not modelled.
use aera_v.Common.{Outcome, AeraError, require, ◌==◌, Pubkey}

-- `has_one = …`
abbrev pub has_one : Pubkey → Pubkey → Outcome (Unit {0})
has_one stored passed = require (stored == passed) (AeraError.external 2001)

-- `address = …`
abbrev pub address : Pubkey → Pubkey → Outcome (Unit {0})
address stored passed = require (stored == passed) (AeraError.external 2012)

-- `constraint = … @ AeraError::MarketMismatch`
abbrev pub same_market : Pubkey → Pubkey → Outcome (Unit {0})
same_market a b = require (a == b) AeraError.market_mismatch
