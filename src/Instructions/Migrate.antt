-- ===== src/Instructions/Migrate.antt =====
-- programs/aera/src/instructions/admin/migrate.rs. The addresses that the program derives, the
-- discriminators that Anchor derives, the rent and the system program's transfer are not part of
-- the repository.
use aera_v.Common.{
  ℕ, ◌-◌, Bool, true, false, not, ◌&&◌, Option, none, some, List, [], ◌∷◌, ◌++◌, Outcome, ok, err,
  AeraError, ◌>>=◌, ◌>>◌, require, checked_add, u64_bound, ltb, ◌==◌, if◌then◌else◌, Pubkey, Clock,
  length, get_elem?, set, drop, Bytes, RawAccount, get_range, from_le_bytes,
}
use aera_v.Reserve.{Reserve}
use aera_v.Oracle.Health.{
  healthy, OracleSourceKind, unit_of_account, native_exchange_rate, market_twap, kind_from_u8,
}
use aera_v.Oracle.Breaker.{PriceObservation, needs_bootstrap, Verdict, bootstrap_verdict}
use aera_v.Oracle.State.{OracleState, record_observation, unit_observation}
use aera_v.Oracle.Deployment.{Loader}
use aera_v.Oracle.Validation.{require_configured_account, require_read_only, require_alive}
use aera_v.Oracle.Native.{NativeOracleBounds, observe}
use aera_v.Instructions.Constraints.{has_one}
use aera_v.Instructions.RefreshOracle.{source_accounts}
use aera_v.Instructions.SetOracle.{OracleConfig, configure, validate_oracle_config}

-- `crate::ID`, the derived addresses, `Global::DISCRIMINATOR`, `Rent::minimum_balance` and the
-- transfer of lamports from the first balance to the second.
pub record Runtime : Type 0 where
  pub id : Pubkey
  pub price_feed_address : (market mint : Pubkey) → Pubkey
  pub oracle_address : (market mint : Pubkey) → Pubkey
  pub global_discriminator : Bytes
  pub minimum_balance : ℕ → ℕ
  pub transfer : (amount from to : ℕ) → Outcome (ℕ × ℕ)

-- `LEGACY_PRICE_FEED_DISCRIMINATOR`
abbrev pub legacy_price_feed_discriminator : Bytes
legacy_price_feed_discriminator = 189 ∷ 103 ∷ 252 ∷ 23 ∷ 152 ∷ 35 ∷ 243 ∷ 156 ∷ []

-- `CLOSED_ACCOUNT_DISCRIMINATOR`
abbrev pub closed_account_discriminator : Bytes
closed_account_discriminator = 255 ∷ 255 ∷ 255 ∷ 255 ∷ 255 ∷ 255 ∷ 255 ∷ 255 ∷ []

-- `GLOBAL_V1_LEN`, and `GLOBAL_V2_LEN`, one more
abbrev pub global_v1_len : ℕ
global_v1_len = 83

abbrev pub global_v2_len : ℕ
global_v2_len = 84

-- `GLOBAL_VERSION_V1` and `GLOBAL_VERSION_V2`
abbrev pub global_version_v1 : ℕ
global_version_v1 = 0

abbrev pub global_version_v2 : ℕ
global_version_v2 = 2

unfoldable pub same_bytes : Bytes → Bytes → Bool
same_bytes [] [] = true
same_bytes (a ∷ as') (b ∷ bs) = (a == b) && same_bytes as' bs
same_bytes [] (_ ∷ _) = false
same_bytes (_ ∷ _) [] = false

-- `.ok_or(AeraError::NotMigratable)?`
abbrev or_not_migratable {ℓ} : {A : Type ℓ} → Option A → Outcome A
or_not_migratable none = err AeraError.not_migratable
or_not_migratable (some a) = ok a

-- The eight bytes of an account's discriminator.
unfoldable pub require_discriminator : Bytes → Bytes → Outcome (Unit {0})
require_discriminator bytes expected = do
  head ← or_not_migratable (get_range bytes 0 8)
  require (same_bytes head expected) AeraError.not_migratable

-- The admin at its offset in the bytes of a `Global` of either version.
unfoldable pub require_stored_admin : Bytes → Pubkey → Outcome (Unit {0})
require_stored_admin bytes admin = do
  admin_bytes ← or_not_migratable (get_range bytes 8 32)
  require (from_le_bytes admin_bytes == admin) AeraError.not_admin

pub record EconomicSnapshot : Type 0 where
  pub available_liquidity : ℕ
  pub share_mint_supply : ℕ
  pub borrowed_principal : ℕ
  pub borrow_index : ℕ
  pub accrued_fees : ℕ
  pub last_update_slot : ℕ
  pub liquidity_decimals : ℕ
  pub liquidity_mint : Pubkey
  pub liquidity_vault : Pubkey
  pub share_mint : Pubkey
  pub market : Pubkey

-- `EconomicSnapshot::of`
unfoldable pub snapshot_of : Reserve → EconomicSnapshot
snapshot_of r = record {
  available_liquidity = r.available_liquidity;
  share_mint_supply = r.share_mint_supply;
  borrowed_principal = r.borrowed_principal;
  borrow_index = r.borrow_index;
  accrued_fees = r.accrued_fees;
  last_update_slot = r.last_update_slot;
  liquidity_decimals = r.liquidity_decimals;
  liquidity_mint = r.liquidity_mint;
  liquidity_vault = r.liquidity_vault;
  share_mint = r.share_mint;
  market = r.market;
}

-- The derived `==` of `EconomicSnapshot`
unfoldable pub same_snapshot : EconomicSnapshot → EconomicSnapshot → Bool
same_snapshot a b =
    a.available_liquidity == b.available_liquidity
    && a.share_mint_supply == b.share_mint_supply
    && a.borrowed_principal == b.borrowed_principal
    && a.borrow_index == b.borrow_index
    && a.accrued_fees == b.accrued_fees
    && a.last_update_slot == b.last_update_slot
    && a.liquidity_decimals == b.liquidity_decimals
    && a.liquidity_mint == b.liquidity_mint
    && a.liquidity_vault == b.liquidity_vault
    && a.share_mint == b.share_mint
    && a.market == b.market

-- The accounts of `MigrateReserveToV2`, without the reserve; the oracle is created zeroed at its
-- derived address. `market_global` is what the market records.
pub record MigrateReserveToV2 : Type 0 where
  pub global : RawAccount
  pub market : Pubkey
  pub market_global : Pubkey
  pub legacy_price_feed : RawAccount
  pub liquidity_mint : Pubkey
  pub oracle_key : Pubkey
  pub oracle : OracleState
  pub admin : Pubkey
  pub admin_lamports : ℕ
  pub remaining : List RawAccount

pub record Migrated : Type 0 where
  pub reserve : Reserve
  pub oracle : OracleState
  pub legacy_price_feed : RawAccount
  pub admin_lamports : ℕ

unfoldable pub migrate_reserve_constraints : MigrateReserveToV2 → Reserve → Outcome (Unit {0})
migrate_reserve_constraints a r = do
  require (a.market_global == a.global.key) AeraError.global_mismatch
  has_one r.liquidity_mint a.liquidity_mint
  require (r.market == a.market) AeraError.market_mismatch

-- Steps 0 to 2: the admin, and that the reserve and the feed are of the first version.
unfoldable pub require_migratable : Runtime → MigrateReserveToV2 → Reserve → Outcome (Unit {0})
require_migratable t a r = do
  require (a.global.owner == t.id) AeraError.global_mismatch
  require_discriminator a.global.bytes t.global_discriminator
  require_stored_admin a.global.bytes a.admin
  let legacy_feed_pda = t.price_feed_address a.market a.liquidity_mint
  require (not (r.oracle == t.oracle_address a.market a.liquidity_mint)) AeraError.already_migrated
  require (r.oracle == legacy_feed_pda) AeraError.not_migratable
  require (a.legacy_price_feed.key == legacy_feed_pda) AeraError.not_migratable
  require (a.legacy_price_feed.owner == t.id) AeraError.not_migratable
  require_discriminator a.legacy_price_feed.bytes legacy_price_feed_discriminator

unfoldable pub bounds_of : OracleConfig → Pubkey → NativeOracleBounds
bounds_of c mint = record {
  expected_program = c.source_program;
  expected_pool = c.source_account;
  expected_pool_mint = mint;
  max_withdrawal_fee_bps = c.max_withdrawal_fee_bps;
  rate_floor = c.rate_floor;
  rate_ceiling = c.rate_ceiling;
  expected_deploy_slot = c.expected_deploy_slot;
  expected_upgrade_authority = c.expected_upgrade_authority;
}

-- Step 4: the first observation, by the path of every later refresh.
unfoldable pub bootstrap_observation :
    OracleSourceKind
    → Loader
    → Clock
    → OracleConfig
    → (mint : Pubkey) → List RawAccount
    → Outcome PriceObservation
bootstrap_observation unit_of_account loader clock c mint remaining =
    ok (unit_observation clock.slot clock.unix_timestamp)
bootstrap_observation market_twap loader clock c mint remaining =
    err AeraError.unknown_oracle_source
bootstrap_observation native_exchange_rate loader clock c mint remaining = do
  (source, program_data) ← source_accounts remaining
  require_configured_account source c.source_account c.source_program
  require_read_only source
  require_alive source
  observe loader source program_data (bounds_of c mint) clock.slot clock.unix_timestamp

unfoldable pub migration_verdict : PriceObservation → OracleConfig → Outcome Verdict
migration_verdict o c =
    if needs_bootstrap o.source
    then bootstrap_verdict o o.previous_epoch_rate c.breaker
    else ok (record { accept = true; health = healthy; moved_bps = 0 })

-- Step 7: the feed without lamports, its discriminator overwritten.
unfoldable pub close_feed : RawAccount → RawAccount
close_feed feed = record feed {
  lamports = 0;
  bytes = closed_account_discriminator ++ drop 8 feed.bytes;
}

unfoldable pub handle_migrate_reserve_to_v2 :
    Runtime → Loader → Clock → MigrateReserveToV2 → OracleConfig → Reserve → Outcome Migrated
handle_migrate_reserve_to_v2 t loader clock a c r = do
  migrate_reserve_constraints a r
  require_migratable t a r
  validate_oracle_config c
  kind ← kind_from_u8 c.source_kind
  o ← bootstrap_observation kind loader clock c a.liquidity_mint a.remaining
  v ← migration_verdict o c
  require v.accept AeraError.oracle_bootstrap_inconsistent
  let oracle = record_observation (configure c a.market a.liquidity_mint a.oracle) o v clock.slot
  let reserve = record r { oracle = a.oracle_key }
  lamports ← checked_add u64_bound a.admin_lamports a.legacy_price_feed.lamports
  require (same_snapshot (snapshot_of r) (snapshot_of reserve)) AeraError.migration_changed_state
  ok (record {
    reserve = reserve;
    oracle = oracle;
    legacy_price_feed = close_feed a.legacy_price_feed;
    admin_lamports = lamports;
  })

-- The lamports that the account is short of, from the admin.
unfoldable pub top_up : Runtime → (admin_lamports held : ℕ) → Outcome (ℕ × ℕ)
top_up t admin_lamports held =
    let needed = t.minimum_balance global_v2_len in
    if ltb held needed
    then t.transfer (needed - held) admin_lamports held
    else ok (admin_lamports, held)

-- The `Global` that is left, and the admin's lamports.
unfoldable pub handle_migrate_global_to_v2 :
    Runtime → (admin : Pubkey) (admin_lamports : ℕ) → RawAccount → Outcome (RawAccount × ℕ)
handle_migrate_global_to_v2 t admin admin_lamports global = do
  require_discriminator global.bytes t.global_discriminator
  require_stored_admin global.bytes admin
  require (not (length global.bytes == global_v2_len)) AeraError.already_migrated
  require (length global.bytes == global_v1_len) AeraError.not_migratable
  (left, held) ← top_up t admin_lamports global.lamports
  let resized = global.bytes ++ (0 ∷ [])
  slot ← or_not_migratable (get_elem? resized global_v1_len)
  require (slot == global_version_v1) AeraError.not_migratable
  ok (record global { lamports = held; bytes = set resized global_v1_len global_version_v2 }, left)
