-- ===== src/Tests/Loans.antt =====
-- The theorems on loans, applied.
use aera_v.Common.{
  ℕ, min, true, ◌≡◌, refl, ok, ◌>>=◌, require, checked_mul, checked_add, checked_sub, narrow, [],
  ◌∷◌,
}
use aera_v.Math.{mul_div_floor, mul_div_ceil, mul_div, ten_pow, market_value, value_to_amount}
use aera_v.Global.{require_not_paused, require_borrow_enabled}
use aera_v.Reserve.{
  Reserve, total_liquidity, require_accrued, liquidity_to_shares, gross_liquidity,
  current_borrowed_amount,
}
use aera_v.Obligation.{
  require_refreshed, find_borrow, find_collateral, index, health_factor_bps, is_liquidatable,
  upsert_borrow, debt_of, debt_at,
}
use aera_v.Oracle.Health.{health_from_u8, permits}
use aera_v.Oracle.Breaker.{is_set}
use aera_v.Oracle.State.{effective_rate, require_permits, require_fresh}
use aera_v.Risk.{
  check_borrow_enabled, check_borrow_cap, check_per_wallet_borrow_cap, require_within_borrow_limit,
  effective_close_factor_bps, max_repay_amount, split_seized_shares, seize_shares_for,
}
use aera_v.Instructions.RiskAccount.{read_risk_config}
use aera_v.Instructions.Borrow.{
  Borrow, borrow_constraints, already_owed, borrow_checks, add_borrow, draw, borrow_effects,
  handle_borrow,
}
use aera_v.Instructions.Repay.{Repay, repay_constraints, reduce_borrow, repay_effects, handle_repay}
use aera_v.Instructions.Collateral.{reduce_collateral}
use aera_v.Instructions.Liquidate.{
  Liquidate, Seizure, liquidate_constraints, assess_liquidation, apply_liquidation,
  liquidate_effects, pay_protocol, handle_liquidate,
}
use aera_v.Safety.Borrowing.{IsPermitted, handle_borrow-IsPermitted}
use aera_v.Safety.Books.{
  IsDrawn, IsPaidOff, handle_borrow-InStep, handle_repay-InStep, handle_liquidate-InStep,
}
use aera_v.Tests.{
  Ledger, wallets, moved, plain_tokens, program, now, global, usdc, sol, oracle_at, saver, debtor,
  no_risk_config, with_risk_config,
}
use aera_v.Constants.{fixed_point_scale}

abbrev pub borrower : Borrow
borrower = record {
  global = global;
  obligation = saver;
  owner = 5;
  reserve_key = 7;
  reserve = usdc;
  oracle_key = 74;
  oracle = oracle_at fixed_point_scale;
  liquidity_mint = 71;
  liquidity_vault = 72;
  user_liquidity = 51;
  risk_config = no_risk_config 7;
}

abbrev pub borrower_done : Borrow
borrower_done = record borrower {
  obligation = record saver {
    stale = true;
    borrows = record { reserve = 7; borrowed_principal = 83_334; market_value = 0 } ∷ [];
  };
  reserve = record usdc {
    borrowed_principal = 583_334;
    available_liquidity = 900_100;
    accrued_fees = 1100;
  };
}

abbrev pub ledger_borrowed : Ledger
ledger_borrowed = moved 72 51 99_900 wallets

pub borrow_runs :
    handle_borrow plain_tokens program now borrower 100_000 wallets
    ≡ ok (borrower_done, ledger_borrowed)
unfolding ◌>>=◌ require require_accrued mul_div_floor mul_div_ceil mul_div checked_mul checked_add
    checked_sub narrow total_liquidity gross_liquidity current_borrowed_amount liquidity_to_shares
    ten_pow market_value value_to_amount require_refreshed find_borrow find_collateral index
    health_factor_bps is_liquidatable debt_of debt_at health_from_u8 permits is_set effective_rate
    require_permits require_fresh require_not_paused require_borrow_enabled upsert_borrow
    check_borrow_enabled check_borrow_cap check_per_wallet_borrow_cap require_within_borrow_limit
    read_risk_config borrow_constraints already_owed borrow_checks add_borrow draw borrow_effects
    handle_borrow
borrow_runs = refl

handle_borrow-IsPermitted_example : IsPermitted now borrower 100_000
handle_borrow-IsPermitted_example =
    handle_borrow-IsPermitted plain_tokens program now borrower borrower_done 100_000 wallets
      ledger_borrowed borrow_runs

handle_borrow-InStep_example :
    IsDrawn 7 100_000 saver usdc borrower_done.obligation borrower_done.reserve
handle_borrow-InStep_example =
    handle_borrow-InStep plain_tokens program now borrower borrower_done 100_000 wallets
      ledger_borrowed borrow_runs

abbrev pub repayer : Repay
repayer = record {
  obligation = debtor;
  reserve_key = 7;
  reserve = usdc;
  liquidity_mint = 71;
  liquidity_vault = 72;
  user_liquidity = 51;
  repayer = 6;
}

abbrev usdc_repaid : Reserve
usdc_repaid = record usdc { borrowed_principal = 450_000; available_liquidity = 1_060_000 }

abbrev pub repayer_done : Repay
repayer_done = record repayer {
  obligation = record debtor {
    stale = true;
    borrows = record { reserve = 7; borrowed_principal = 50_000; market_value = 0 } ∷ [];
  };
  reserve = usdc_repaid;
}

abbrev pub ledger_repaid : Ledger
ledger_repaid = moved 51 72 60_000 wallets

pub repay_runs :
    handle_repay plain_tokens now repayer 60_000 wallets ≡ ok (repayer_done, ledger_repaid)
unfolding ◌>>=◌ require require_accrued mul_div_floor mul_div_ceil mul_div checked_mul checked_add
    checked_sub narrow total_liquidity gross_liquidity current_borrowed_amount liquidity_to_shares
    ten_pow market_value value_to_amount require_refreshed find_borrow find_collateral index
    health_factor_bps is_liquidatable debt_of debt_at health_from_u8 permits is_set effective_rate
    require_permits require_fresh repay_constraints reduce_borrow repay_effects handle_repay
repay_runs = refl

handle_repay-InStep_example :
    (position : ℕ) × (debt : ℕ) × (debt_at debtor position usdc.borrow_index ≡ ok debt)
    × IsPaidOff 7 (min 60_000 debt) position debtor usdc repayer_done.obligation usdc_repaid
handle_repay-InStep_example =
    handle_repay-InStep plain_tokens now repayer repayer_done 60_000 wallets ledger_repaid
      repay_runs

abbrev liquidator : Liquidate
liquidator = record {
  global = global;
  obligation_key = 40;
  obligation = debtor;
  liquidator = 6;
  repay_reserve_key = 7;
  repay_reserve = usdc;
  collateral_reserve_key = 8;
  collateral_reserve = sol;
  repay_oracle_key = 74;
  repay_oracle = oracle_at fixed_point_scale;
  collateral_oracle_key = 84;
  collateral_oracle = oracle_at 2_000_000_000_000_000_000;
  repay_liquidity_mint = 71;
  collateral_share_mint = 83;
  collateral_share_decimals = 9;
  repay_liquidity_vault = 72;
  obligation_collateral_vault = 41;
  liquidator_repay_source = 61;
  liquidator_collateral_dest = 62;
  collateral_risk_config = with_risk_config 8;
  protocol_collateral_dest = record {
    key = 63;
    program = 100;
    decoded = ok (record { mint = 83; owner = 2 });
  };
  share_token_program = 100;
}

abbrev liquidator_done : Liquidate
liquidator_done = record liquidator {
  repay_reserve = usdc_repaid;
  obligation = record debtor {
    stale = true;
    borrows = record { reserve = 7; borrowed_principal = 50_000; market_value = 0 } ∷ [];
    deposits = record { reserve = 8; deposited_shares = 968_500_000; market_value = 0 } ∷ [];
  };
}

abbrev seizure : Seizure
seizure = record {
  repaid = 60_000;
  seized_shares = 31_500_000;
  liquidator_shares = 30_750_000;
  protocol_shares = 750_000;
}

abbrev ledger_liquidated : Ledger
ledger_liquidated = moved 41 63 750_000 (moved 41 62 30_750_000 (moved 61 72 60_000 wallets))

liquidate_runs :
    handle_liquidate plain_tokens program now liquidator 60_000 wallets
    ≡ ok (liquidator_done, seizure, ledger_liquidated)
unfolding ◌>>=◌ require require_accrued mul_div_floor mul_div_ceil mul_div checked_mul checked_add
    checked_sub narrow total_liquidity gross_liquidity current_borrowed_amount liquidity_to_shares
    ten_pow market_value value_to_amount require_refreshed find_borrow find_collateral index
    health_factor_bps is_liquidatable debt_of debt_at health_from_u8 permits is_set effective_rate
    require_permits require_fresh reduce_borrow reduce_collateral effective_close_factor_bps
    max_repay_amount split_seized_shares seize_shares_for read_risk_config liquidate_constraints
    assess_liquidation apply_liquidation liquidate_effects pay_protocol handle_liquidate
liquidate_runs = refl

handle_liquidate-InStep_example :
    (position : ℕ) × IsPaidOff 7 60_000 position debtor usdc liquidator_done.obligation usdc_repaid
handle_liquidate-InStep_example =
    handle_liquidate-InStep plain_tokens program now liquidator liquidator_done 60_000 seizure
      wallets ledger_liquidated liquidate_runs
