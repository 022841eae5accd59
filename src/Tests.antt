-- ===== src/Tests.antt =====
-- Concrete accounts, and a token program of plain balances, at which the theorems are applied.
mod Trades
mod Loans
mod Rates
mod Ledgers
mod Lives
mod Vaults
mod Sources
mod Encodings
mod Migrations
mod Launches
mod Markets
mod MarketRuns
mod MarketSetup
use aera_v.Common.{
  ℕ, zero, suc, ◌+◌, ◌-◌, ◌*◌, ◌/◌, ◌%◌, Bytes, true, false, Outcome, ok, err, AeraError, ◌>>=◌,
  ◌>>◌, require, leb, ◌==◌, if◌then◌else◌, Pubkey, Clock, [], ◌∷◌,
}
use aera_v.Common.Int.{pos}
use aera_v.Constants.{fixed_point_scale}
use aera_v.Global.{Global}
use aera_v.Reserve.{Reserve, ReserveConfig, default_pending}
use aera_v.Obligation.{Obligation, ObligationCollateral, ObligationLiquidity}
use aera_v.Oracle.Breaker.{BreakerConfig, Reference}
use aera_v.Oracle.State.{OracleState}
use aera_v.Risk.{RiskConfig}
use aera_v.Tokens.{TokenProgram}
use aera_v.Instructions.RiskAccount.{Program, RiskConfigInfo}

abbrev pub Ledger : Type 0
Ledger = Pubkey → ℕ

abbrev pub wallets : Ledger
wallets _ = 10_000_000_000

abbrev pub moved : Pubkey → Pubkey → ℕ → Ledger → Ledger
moved from to amount l =
    λ k. if k == to then l to + amount else if k == from then l from - amount else l k

abbrev pub minted : Pubkey → ℕ → Ledger → Ledger
minted to amount l = λ k. if k == to then l to + amount else l k

abbrev pub burned : Pubkey → ℕ → Ledger → Ledger
burned from amount l = λ k. if k == from then l from - amount else l k

abbrev pub plain_tokens : TokenProgram Ledger
plain_tokens = record {
  balance = λ l k. l k;
  transfer_checked = λ from mint to authority amount decimals l.
      require (leb amount (l from)) (AeraError.external 1) >> ok (moved from to amount l);
  mint_to = λ mint to authority amount l. ok (minted to amount l);
  burn = λ mint from authority amount l.
      require (leb amount (l from)) (AeraError.external 1) >> ok (burned from amount l);
}

abbrev pub program : Program
program = record { id = 900; risk_config_address = λ k. k + 1000 }

abbrev pub now : Clock
now = record { slot = 10; unix_timestamp = pos 5000 }

abbrev pub later : Clock
later = record { slot = 1_000_010; unix_timestamp = pos 405_000 }

abbrev pub global : Global
global = record {
  admin = 1;
  fee_destination = 2;
  paused = false;
  borrow_paused = false;
  param_timelock_seconds = pos 3600;
  version = 2;
}

abbrev pub config : ReserveConfig
config = record {
  loan_to_value_bps = 7000;
  liquidation_threshold_bps = 7500;
  liquidation_bonus_bps = 500;
  close_factor_bps = 5000;
  collateral_haircut_bps = 200;
  optimal_utilization_bps = 8000;
  min_borrow_rate_bps = 0;
  optimal_borrow_rate_bps = 1000;
  max_borrow_rate_bps = 10_000;
  reserve_factor_bps = 1000;
  origination_fee_bps = 10;
  supply_cap = 0;
  borrow_cap = 0;
  per_wallet_supply_cap = 0;
  borrow_enabled = true;
  collateral_enabled = true;
  isolated = false;
  slots_per_year = 78_840_000;
}

-- A reserve of a token with six decimals, with loans out.
abbrev pub usdc : Reserve
usdc = record {
  market = 3;
  liquidity_mint = 71;
  liquidity_vault = 72;
  share_mint = 73;
  oracle = 74;
  liquidity_decimals = 6;
  available_liquidity = 1_000_000;
  share_mint_supply = 800_000;
  borrowed_principal = 500_000;
  borrow_index = 1_200_000_000_000_000_000;
  last_update_slot = 10;
  accrued_fees = 1000;
  config = config;
  pending = default_pending;
}

-- A reserve of a token with nine decimals, without loans.
abbrev pub sol : Reserve
sol = record {
  market = 3;
  liquidity_mint = 81;
  liquidity_vault = 82;
  share_mint = 83;
  oracle = 84;
  liquidity_decimals = 9;
  available_liquidity = 2_000_000_000;
  share_mint_supply = 2_000_000_000;
  borrowed_principal = 0;
  borrow_index = fixed_point_scale;
  last_update_slot = 10;
  accrued_fees = 0;
  config = config;
  pending = default_pending;
}

abbrev pub breaker : BreakerConfig
breaker = record {
  max_up_bps_per_epoch = 100;
  max_down_bps_per_epoch = 200;
  emergency_deviation_bps = 1000;
  max_epoch_allowance = 5;
}

abbrev pub rate_at : ℕ → Reference
rate_at rate = record {
  gross_rate = rate;
  effective_rate = rate;
  withdrawal_fee_bps = 0;
  source_epoch = 1;
  slot = 10;
  unix_timestamp = pos 5000;
}

abbrev pub oracle_at : ℕ → OracleState
oracle_at rate = record {
  market = 3;
  mint = 71;
  source_kind = 0;
  source_program = 0;
  source_account = 0;
  max_withdrawal_fee_bps = 0;
  rate_floor = 1;
  rate_ceiling = 10 * fixed_point_scale;
  expected_deploy_slot = 0;
  expected_upgrade_authority = 0;
  breaker = breaker;
  reference = rate_at rate;
  health = 0;
  last_moved_bps = 0;
  last_refresh_slot = 10;
  last_source_epoch = 1;
}

-- A position with a deposit of shares in `sol`, key 8.
abbrev pub saver : Obligation
saver = record {
  market = 3;
  owner = 5;
  last_update_slot = 10;
  stale = false;
  prices_stressed = false;
  deposited_value = 2_000_000_000_000_000_000;
  effective_collateral_value = 1_960_000_000_000_000_000;
  borrowed_value = 0;
  allowed_borrow_value = 500_000_000_000_000_000;
  unhealthy_borrow_value = 600_000_000_000_000_000;
  deposits = record { reserve = 8; deposited_shares = 1_000_000_000; market_value = 0 } ∷ [];
  borrows = [];
}

-- The same with a loan from `usdc`, key 7, that has outgrown its collateral.
abbrev pub debtor : Obligation
debtor = record saver {
  borrowed_value = 120_000_000_000_000_000;
  unhealthy_borrow_value = 110_000_000_000_000_000;
  borrows = record { reserve = 7; borrowed_principal = 100_000; market_value = 0 } ∷ [];
}

-- A risk account that does not exist, and one with a share for the protocol.
abbrev pub no_risk_config : Pubkey → RiskConfigInfo
no_risk_config key = record {
  key = key + 1000;
  data_is_empty = true;
  owner = 0;
  decoded = err (AeraError.external 2);
}

abbrev pub risk_config : Pubkey → RiskConfig
risk_config key = record {
  reserve = key;
  per_wallet_borrow_cap = 0;
  protocol_liquidation_share_bps = 250;
  pending_per_wallet_borrow_cap = 0;
  pending_protocol_liquidation_share_bps = 0;
  pending_eta = pos 0;
}

abbrev pub with_risk_config : Pubkey → RiskConfigInfo
with_risk_config key = record {
  key = key + 1000;
  data_is_empty = false;
  owner = 900;
  decoded = ok (risk_config key);
}

abbrev pub zeros : ℕ → Bytes
zeros zero = []
zeros (suc n) = 0 ∷ zeros n

abbrev pub to_le_bytes : (count value : ℕ) → Bytes
to_le_bytes zero v = []
to_le_bytes (suc n) v = (v % 256) ∷ to_le_bytes n (v / 256)
