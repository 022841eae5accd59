-- ===== src/Tests/Lives.antt =====
-- The theorem on every reserve from its creation on, applied.
use aera_v.Common.{◌≡◌, refl, ok, ◌>>=◌, require, [], ◌∷◌, checked_add, narrow}
use aera_v.Constants.{fixed_point_scale}
use aera_v.Global.{require_not_paused}
use aera_v.Risk.{check_supply_cap, check_per_wallet_cap}
use aera_v.Reserve.{Reserve, validate, require_accrued, liquidity_to_shares}
use aera_v.Reserve.Limits.{IsSound}
use aera_v.Instructions.Supply.{Supply, supply_constraints, supply_effects, handle_supply}
use aera_v.Instructions.Create.{
  Market, InitReserve, ShareMetadata, validate_metadata, handle_init_reserve,
}
use aera_v.Pool.Run.{Step}
use aera_v.Pool.Life.{MintCreation, Life, Life-IsSound}
use aera_v.Tests.{Ledger, wallets, moved, minted, plain_tokens, program, now, global, config, usdc}
use aera_v.Tests.Trades.{supplier}

abbrev no_mint : MintCreation Ledger
no_mint = λ share_mint decimals authority metadata l. ok l

abbrev shares_of_usdc : ShareMetadata
shares_of_usdc = record { name = 97 ∷ []; symbol = 97 ∷ []; uri = [] }

abbrev usdc_market : Market
usdc_market = record { global = 90; market_id = 1; quote_currency_mint = 71; name = [] }

abbrev creation : InitReserve
creation = record {
  global = global;
  global_key = 90;
  admin = 1;
  market_key = 3;
  market = usdc_market;
  reserve_key = 7;
  liquidity_mint = 71;
  liquidity_decimals = 6;
  liquidity_vault = 72;
  share_mint = 73;
  oracle = 74;
}

abbrev usdc_new : Reserve
usdc_new = record usdc {
  available_liquidity = 0;
  share_mint_supply = 0;
  borrowed_principal = 0;
  borrow_index = fixed_point_scale;
  accrued_fees = 0;
}

create_runs :
    handle_init_reserve no_mint now creation config shares_of_usdc wallets ≡ ok (usdc_new, wallets)
unfolding handle_init_reserve validate validate_metadata ◌>>=◌ require
create_runs = refl

abbrev first_supplier : Supply
first_supplier = record supplier { reserve = usdc_new }

abbrev first_supplied : Supply
first_supplied = record supplier {
  reserve = record usdc_new { available_liquidity = 100_000; share_mint_supply = 100_000 };
  supply_position = record { reserve = 7; owner = 5; supplied_liquidity = 100_000 };
}

abbrev ledger_first : Ledger
ledger_first = minted 52 100_000 (moved 51 72 100_000 wallets)

-- The first supply to the reserve, while no shares are out.
first_supply_runs :
    handle_supply plain_tokens now first_supplier 100_000 wallets
    ≡ ok (first_supplied, ledger_first)
unfolding handle_supply supply_constraints supply_effects require_not_paused check_supply_cap
    check_per_wallet_cap ◌>>=◌ require require_accrued checked_add narrow liquidity_to_shares
first_supply_runs = refl

create_then_supply : Life plain_tokens program first_supplied.reserve
create_then_supply =
    Life.stepped
      (Life.created no_mint now creation config shares_of_usdc wallets wallets usdc_new create_runs)
      (Step.supplied now first_supplier first_supplied 100_000 wallets ledger_first
        first_supply_runs)

Life-IsSound_example : IsSound config
Life-IsSound_example = Life-IsSound create_then_supply
