-- ===== src/Tests/Trades.antt =====
-- The theorems on the pool, applied.
use aera_v.Common.{
  true, ◌+◌, ◌*◌, ◌≤◌, ◌≡◌, refl, arith, ok, inl, inr, [], ◌>>=◌, require, checked_mul, checked_add,
  checked_sub, narrow, ◌↔◌, Returns, sum_map,
}
use aera_v.Math.{mul_div_floor, mul_div_ceil, mul_div}
use aera_v.Global.{require_not_paused}
use aera_v.Risk.{check_supply_cap, check_per_wallet_cap, split_seized_shares}
use aera_v.Risk.Split.{IsSplit, split_seized_shares-IsSplit}
use aera_v.Reserve.{
  Reserve, total_liquidity, require_accrued, liquidity_to_shares, shares_to_liquidity,
  gross_liquidity, current_borrowed_amount, accrue_interest, charge_interest, borrow_rate_per_slot,
  borrow_rate_bps, utilization_bps, curve_bps,
}
use aera_v.Reserve.Debt.{IsOwed, current_borrowed_amount_iff}
use aera_v.Reserve.Limits.{IsSound}
use aera_v.Obligation.{require_refreshed, find_borrow, index}
use aera_v.Instructions.Supply.{Supply, handle_supply, supply_constraints, supply_effects}
use aera_v.Instructions.Withdraw.{Withdraw, handle_withdraw, withdraw_constraints, withdraw_effects}
use aera_v.Instructions.Fees.{handle_accrue}
use aera_v.Instructions.AbsorbBadDebt.{
  AbsorbBadDebt, WriteOff, handle_absorb_bad_debt, absorb_bad_debt_constraints,
}
use aera_v.Pool.Run.{Step, Run}
use aera_v.Pool.Worth.{Run-worth}
use aera_v.Pool.RoundTrip.{supply_then_withdraw, handle_absorb_bad_debt-loss}
use aera_v.Safety.Principal.{principal_in}
use aera_v.Safety.Books.{handle_absorb_bad_debt-InStep}
use aera_v.Tests.{
  Ledger, wallets, moved, minted, burned, plain_tokens, program, now, later, global, config, usdc,
  debtor,
}

abbrev pub supplier : Supply
supplier = record {
  global = global;
  reserve_key = 7;
  reserve = usdc;
  liquidity_mint = 71;
  liquidity_vault = 72;
  share_mint = 73;
  user_liquidity = 51;
  user_share = 52;
  supply_position = record { reserve = 0; owner = 0; supplied_liquidity = 0 };
  owner = 5;
}

abbrev pub usdc_supplied : Reserve
usdc_supplied = record usdc { available_liquidity = 1_100_000; share_mint_supply = 850_031 }

abbrev pub supplier_done : Supply
supplier_done = record supplier {
  reserve = usdc_supplied;
  supply_position = record { reserve = 7; owner = 5; supplied_liquidity = 100_000 };
}

abbrev pub ledger_supplied : Ledger
ledger_supplied = minted 52 50_031 (moved 51 72 100_000 wallets)

pub supply_runs :
    handle_supply plain_tokens now supplier 100_000 wallets ≡ ok (supplier_done, ledger_supplied)
unfolding handle_supply supply_constraints supply_effects require_not_paused check_supply_cap
    check_per_wallet_cap ◌>>=◌ require require_accrued mul_div_floor mul_div_ceil mul_div
    checked_mul checked_add checked_sub narrow total_liquidity gross_liquidity
    current_borrowed_amount shares_to_liquidity liquidity_to_shares
supply_runs = refl

abbrev pub usdc_accrued : Reserve
usdc_accrued = record usdc_supplied {
  borrow_index = 1_200_671_232_876_000_000;
  last_update_slot = 1_000_010;
  accrued_fees = 1033;
}

pub accrue_runs : handle_accrue later usdc_supplied ≡ ok usdc_accrued
unfolding handle_accrue accrue_interest charge_interest borrow_rate_per_slot borrow_rate_bps
    utilization_bps curve_bps ◌>>=◌ require require_accrued mul_div_floor mul_div_ceil mul_div
    checked_mul checked_add checked_sub narrow total_liquidity gross_liquidity
    current_borrowed_amount shares_to_liquidity liquidity_to_shares
accrue_runs = refl

claim_before : total_liquidity usdc ≡ ok 1_599_000
unfolding ◌>>=◌ require require_accrued mul_div_floor mul_div_ceil mul_div checked_mul checked_add
    checked_sub narrow total_liquidity gross_liquidity current_borrowed_amount shares_to_liquidity
    liquidity_to_shares
claim_before = refl

claim_supplied : total_liquidity usdc_supplied ≡ ok 1_699_000
unfolding ◌>>=◌ require require_accrued mul_div_floor mul_div_ceil mul_div checked_mul checked_add
    checked_sub narrow total_liquidity gross_liquidity current_borrowed_amount shares_to_liquidity
    liquidity_to_shares
claim_supplied = refl

claim_accrued : total_liquidity usdc_accrued ≡ ok 1_699_303
unfolding ◌>>=◌ require require_accrued mul_div_floor mul_div_ceil mul_div checked_mul checked_add
    checked_sub narrow total_liquidity gross_liquidity current_borrowed_amount shares_to_liquidity
    liquidity_to_shares
claim_accrued = refl

-- A supply, and the interest of a million slots.
supply_and_accrue : Run plain_tokens program usdc 1_599_000 usdc_accrued 1_699_303
supply_and_accrue =
    Run.next
      (Run.next (Run.start claim_before) (omega arith)
        (Step.supplied now supplier supplier_done 100_000 wallets ledger_supplied supply_runs)
        claim_supplied)
      (omega arith) (Step.accrued later usdc_supplied usdc_accrued accrue_runs) claim_accrued

pub config-IsSound : IsSound config
config-IsSound = record {
  threshold = omega arith;
  close_factor = omega arith;
  haircut = omega arith;
  ltv = omega arith;
  bonus = omega arith;
  reserve_factor = omega arith;
  origination_fee = omega arith;
  collateral_haircut = inr (omega arith);
  closes = omega arith;
  kink_low = omega arith;
  kink_high = omega arith;
  ltv_below_threshold = omega arith;
  rates_low = omega arith;
  rates_high = omega arith;
  slots = omega arith;
  caps = inl refl;
}

Run-worth_example : 1_599_000 * 850_031 ≤ 1_699_303 * 800_000
Run-worth_example = Run-worth config-IsSound supply_and_accrue

abbrev pub leaver : Withdraw
leaver = record {
  global = global;
  reserve_key = 7;
  reserve = usdc_supplied;
  liquidity_mint = 71;
  liquidity_vault = 72;
  share_mint = 73;
  user_liquidity = 51;
  user_share = 52;
  supply_position = record { reserve = 7; owner = 5; supplied_liquidity = 100_000 };
  owner = 5;
}

abbrev pub leaver_done : Withdraw
leaver_done = record leaver {
  reserve = record usdc_supplied { available_liquidity = 1_000_001; share_mint_supply = 800_000 };
  supply_position = record { reserve = 7; owner = 5; supplied_liquidity = 1 };
}

abbrev pub ledger_left : Ledger
ledger_left = moved 72 51 99_999 (burned 52 50_031 ledger_supplied)

pub withdraw_runs :
    handle_withdraw plain_tokens now leaver 50_031 ledger_supplied ≡ ok (leaver_done, ledger_left)
unfolding handle_withdraw withdraw_constraints withdraw_effects require_not_paused ◌>>=◌ require
    require_accrued mul_div_floor mul_div_ceil mul_div checked_mul checked_add checked_sub narrow
    total_liquidity gross_liquidity current_borrowed_amount shares_to_liquidity liquidity_to_shares
withdraw_runs = refl

supply_then_withdraw_example : 1_000_000 ≤ 1_000_001
supply_then_withdraw_example =
    supply_then_withdraw plain_tokens now now supplier supplier_done leaver leaver_done 100_000
      wallets ledger_supplied ledger_supplied ledger_left (omega arith) supply_runs refl
      withdraw_runs

abbrev bankrupt : AbsorbBadDebt
bankrupt = record {
  market = 3;
  obligation = record debtor { deposits = [] };
  reserve_key = 7;
  reserve = usdc;
}

abbrev written_off : AbsorbBadDebt
written_off = record bankrupt {
  obligation = record debtor { deposits = []; borrows = []; stale = true };
  reserve = record usdc { borrowed_principal = 400_000 };
}

abbrev loss : WriteOff
loss = record { amount = 120_000; principal_removed = 100_000 }

absorb_runs : handle_absorb_bad_debt now bankrupt ≡ ok (written_off, loss)
unfolding handle_absorb_bad_debt absorb_bad_debt_constraints require_refreshed find_borrow index
    ◌>>=◌ require require_accrued mul_div_floor mul_div_ceil mul_div checked_mul checked_add
    checked_sub narrow total_liquidity gross_liquidity current_borrowed_amount shares_to_liquidity
    liquidity_to_shares
absorb_runs = refl

claim_after_loss : total_liquidity (written_off.reserve) ≡ ok 1_479_000
unfolding ◌>>=◌ require require_accrued mul_div_floor mul_div_ceil mul_div checked_mul checked_add
    checked_sub narrow total_liquidity gross_liquidity current_borrowed_amount shares_to_liquidity
    liquidity_to_shares
claim_after_loss = refl

handle_absorb_bad_debt-loss_example :
    (sum_map (λ d. d.deposited_shares) bankrupt.obligation.deposits ≡ 0)
    × (1_599_000 ≤ 1_479_000 + 120_000)
    × (1_479_000 + 120_000 ≤ 1_599_000 + 1)
handle_absorb_bad_debt-loss_example =
    handle_absorb_bad_debt-loss now bankrupt written_off loss 1_599_000 1_479_000 absorb_runs
      claim_before claim_after_loss

handle_absorb_bad_debt-InStep_example : (0 + 100_000 ≡ 100_000) × (400_000 + 100_000 ≡ 500_000)
unfolding principal_in
handle_absorb_bad_debt-InStep_example =
    handle_absorb_bad_debt-InStep now bankrupt written_off loss absorb_runs

current_borrowed_amount_iff_example :
    (current_borrowed_amount usdc ≡ ok 600_000) ↔ IsOwed usdc 600_000
current_borrowed_amount_iff_example = current_borrowed_amount_iff usdc 600_000

split_seized_shares-IsSplit_example :
    Returns (IsSplit 31_500_000 500 250) (split_seized_shares 31_500_000 500 250)
split_seized_shares-IsSplit_example =
    split_seized_shares-IsSplit 31_500_000 500 250 (omega arith) (omega arith)
