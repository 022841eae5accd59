-- ===== src/Instructions/Create.antt =====
-- programs/aera/src/instructions/admin/init_global.rs, init_market.rs and init_reserve.rs: the
-- accounts as they are created. The calls that create the share mint and its metadata are not part
-- of the repository.
use aera_v.Common.{
  ℕ, ◌*◌, false, ◌&&◌, Outcome, ok, AeraError, ◌>>=◌, ◌>>◌, require, ltb, leb, ◌==◌, Pubkey, Clock,
  Bytes, length,
}
use aera_v.Common.Int.{pos}
use aera_v.Constants.{fixed_point_scale, max_share_name, max_share_symbol, max_share_uri}
use aera_v.Global.{Global}
use aera_v.Reserve.{Reserve, ReserveConfig, default_pending, validate}

-- `DEFAULT_PARAM_TIMELOCK_SECONDS`
abbrev pub default_param_timelock_seconds : ℕ
default_param_timelock_seconds = 24 * 60 * 60

-- `handle_init_global`. The account is created zeroed, and `version` is not written.
unfoldable pub handle_init_global : (admin fee_destination : Pubkey) → Outcome Global
handle_init_global admin fee_destination = ok (record {
  admin = admin;
  fee_destination = fee_destination;
  paused = false;
  borrow_paused = false;
  param_timelock_seconds = pos default_param_timelock_seconds;
  version = 0;
})

pub record Market : Type 0 where
  pub global : Pubkey
  pub market_id : ℕ
  pub quote_currency_mint : Pubkey
  pub name : Bytes

unfoldable pub handle_init_market :
    (global : Global) (global_key admin quote_currency_mint : Pubkey) (market_id : ℕ) (name : Bytes)
    → Outcome Market
handle_init_market global global_key admin quote_currency_mint market_id name = do
  require (global.admin == admin) AeraError.not_admin
  require (leb (length name) 32) AeraError.invalid_config
  ok (record {
    global = global_key;
    market_id = market_id;
    quote_currency_mint = quote_currency_mint;
    name = name;
  })

-- Strings are their bytes.
pub record ShareMetadata : Type 0 where
  pub name : Bytes
  pub symbol : Bytes
  pub uri : Bytes

-- `ShareMetadata::validate`
unfoldable pub validate_metadata : ShareMetadata → Outcome (Unit {0})
validate_metadata m = do
  require (ltb 0 (length m.name) && leb (length m.name) max_share_name) AeraError.invalid_config
  require (ltb 0 (length m.symbol) && leb (length m.symbol) max_share_symbol)
      AeraError.invalid_config
  require (leb (length m.uri) max_share_uri) AeraError.invalid_config

-- The accounts of `InitReserve`. The addresses of the accounts that it creates are derived.
pub record InitReserve : Type 0 where
  pub global : Global
  pub global_key : Pubkey
  pub admin : Pubkey
  pub market_key : Pubkey
  pub market : Market
  pub reserve_key : Pubkey
  pub liquidity_mint : Pubkey
  pub liquidity_decimals : ℕ
  pub liquidity_vault : Pubkey
  pub share_mint : Pubkey
  pub oracle : Pubkey

-- The share mint is created by the system program and Token-2022, from its key, its decimals, the
-- reserve as its authority, and the metadata.
unfoldable pub handle_init_reserve :
    {L : Type 0}
    → ((share_mint : Pubkey) (decimals : ℕ) (authority : Pubkey) → ShareMetadata → L → Outcome L)
    → Clock
    → InitReserve
    → ReserveConfig
    → ShareMetadata
    → L
    → Outcome (Reserve × L)
handle_init_reserve create_share_mint clock a config metadata l = do
  require (a.global.admin == a.admin) AeraError.not_admin
  require (a.market.global == a.global_key) AeraError.global_mismatch
  validate config
  validate_metadata metadata
  l' ← create_share_mint a.share_mint a.liquidity_decimals a.reserve_key metadata l
  ok (
    record {
      market = a.market_key;
      liquidity_mint = a.liquidity_mint;
      liquidity_vault = a.liquidity_vault;
      share_mint = a.share_mint;
      oracle = a.oracle;
      liquidity_decimals = a.liquidity_decimals;
      available_liquidity = 0;
      share_mint_supply = 0;
      borrowed_principal = 0;
      borrow_index = fixed_point_scale;
      last_update_slot = clock.slot;
      accrued_fees = 0;
      config = config;
      pending = default_pending;
    },
    l',
  )
