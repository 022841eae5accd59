-- ===== src/Tests/Vaults.antt =====
-- The theorems on the vault, applied.
use aera_v.Common.{◌+◌, ◌≡◌, refl, ok, ◌>>=◌, require, checked_sub, arith}
use aera_v.Reserve.{require_accrued}
use aera_v.Instructions.Fees.{
  CollectFees, collect_fees_constraints, collect_fees_effects, handle_collect_fees,
}
use aera_v.Pool.OffLedger.{OffLedger}
use aera_v.Pool.Books.{Ledgers, Ledgers-books}
use aera_v.Tests.{Ledger, wallets, moved, plain_tokens, now, later, global}
use aera_v.Tests.Ledgers.{plain_tokens-TokenLaws}
use aera_v.Tests.Trades.{
  supplier, supplier_done, supply_runs, ledger_supplied, usdc_supplied, usdc_accrued, accrue_runs,
}

-- The fees of the accrued reserve, paid out in the later slot.
abbrev collector : CollectFees
collector = record {
  global = global;
  reserve_key = 7;
  reserve = usdc_accrued;
  liquidity_mint = 71;
  liquidity_vault = 72;
  fee_token = 59;
  fee_token_owner = 2;
  fee_token_mint = 71;
}

abbrev collector_done : CollectFees
collector_done = record collector {
  reserve = record usdc_accrued { accrued_fees = 0; available_liquidity = 1_098_967 };
}

abbrev ledger_collected : Ledger
ledger_collected = moved 72 59 1033 ledger_supplied

collect_runs :
    handle_collect_fees plain_tokens later collector ledger_supplied
    ≡ ok (collector_done, ledger_collected)
unfolding handle_collect_fees collect_fees_constraints collect_fees_effects ◌>>=◌ require
    require_accrued checked_sub
collect_runs = refl

-- A supply, an accrual ten slots later, and a payout of fees in that slot.
supply_accrue_collect :
    Ledgers plain_tokens supplier.liquidity_vault supplier.reserve wallets collector_done.reserve
      ledger_collected
supply_accrue_collect =
    Ledgers.collect later collector collector_done refl refl (omega arith) collect_runs (
      Ledgers.off_ledger (OffLedger.accrued later usdc_supplied usdc_accrued accrue_runs) (
        Ledgers.supply now supplier supplier_done 100_000 refl refl (omega arith) (omega arith)
          supply_runs Ledgers.start))

Ledgers-books_example : 10_000_098_967 + 1_000_000 ≡ 10_000_000_000 + 1_098_967
Ledgers-books_example =
    Ledgers-books plain_tokens plain_tokens-TokenLaws supplier.liquidity_vault supplier.reserve
      collector_done.reserve wallets ledger_collected supply_accrue_collect
