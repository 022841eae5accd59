-- ===== src/Instructions/RefreshMarket.antt =====
-- programs/aera/src/instructions/refresh_market_oracle.rs
use aera_v.Common.{
  ℕ, ◌+◌, ◌-◌, ◌%◌, min, Bool, true, false, ◌&&◌, ◌||◌, [], ◌∷◌, ◌++◌, Option, none, some, Outcome,
  ok, err, AeraError, ◌>>=◌, ◌>>◌, require, checked_add, checked_mul, u64_bound, u128_bound, ltb,
  leb, ◌==◌, if◌then◌else◌, Pubkey, Clock, length, set, RawAccount, Bytes, range_at, from_le_bytes,
}
use aera_v.Common.Int.{ℤ, pos, leb_ℤ, saturating_sub_i64}
use aera_v.Constants.{bps_denominator, fixed_point_scale}
use aera_v.Math.{mul_div_floor, ten_pow, abs_diff}
use aera_v.Oracle.Health.{
  health_to_u8, OracleSourceKind, market_twap, unit_of_account, native_exchange_rate, kind_from_u8,
}
use aera_v.Oracle.Breaker.{is_set}
use aera_v.Oracle.State.{OracleState}
use aera_v.Oracle.MarketOracle.{
  MarketOracle, MarketOracleConfig, Observation, PoolRef, observation_capacity, latest, twap,
  is_bootstrapped,
}
use aera_v.Oracle.MarketBreaker.{Degradation, MarketVerdict, evaluate_market}

-- `damm_v2`: the length of a pool account and the offsets of four keys
abbrev pub pool_len : ℕ
pool_len = 1112

abbrev pub mint_a_offset : ℕ
mint_a_offset = 168

abbrev pub mint_b_offset : ℕ
mint_b_offset = 200

abbrev pub vault_a_offset : ℕ
vault_a_offset = 232

abbrev pub vault_b_offset : ℕ
vault_b_offset = 264

pub record PoolReading : Type 0 where
  pub price : ℕ
  pub quote_depth : ℕ

-- `TokenAccount`, what the handler reads of a vault
pub record Vault : Type 0 where
  pub key : Pubkey
  pub mint : Pubkey
  pub amount : ℕ

-- A pool account with the two vaults that were passed with it.
pub record PoolAccounts : Type 0 where
  pub pool : RawAccount
  pub collateral_vault : Vault
  pub quote_vault : Vault

-- The vaults that the pool names for the pair, whichever way round it holds them.
unfoldable pub orient :
    (collateral quote mint_a mint_b vault_a vault_b : Pubkey) → Outcome (Pubkey × Pubkey)
orient collateral quote mint_a mint_b vault_a vault_b =
    if mint_a == collateral && mint_b == quote
    then ok (vault_a, vault_b)
    else if mint_b == collateral && mint_a == quote
    then ok (vault_b, vault_a)
    else err AeraError.unexpected_pool_pair

abbrev key_at : Bytes → ℕ → Pubkey
key_at bytes offset = from_le_bytes (range_at bytes offset 32)

-- The price of `read_pool`, from the two reserves.
unfoldable pub pool_price :
    (collateral_decimals quote_decimals collateral_reserve quote_reserve : ℕ) → Outcome ℕ
pool_price collateral_decimals quote_decimals collateral_reserve quote_reserve = do
  numerator ← checked_mul u128_bound quote_reserve fixed_point_scale
  if leb quote_decimals collateral_decimals
      then (do
        power ← ten_pow (collateral_decimals - quote_decimals)
        scaled ← checked_mul u128_bound numerator power
        mul_div_floor scaled 1 collateral_reserve)
      else (do
        power ← ten_pow (quote_decimals - collateral_decimals)
        scaled ← checked_mul u128_bound collateral_reserve power
        mul_div_floor numerator 1 scaled)

-- `read_pool`; the configured pool is passed in place of its index.
unfoldable pub read_pool : MarketOracle → PoolRef → PoolAccounts → Outcome PoolReading
read_pool m expected a = do
  require (a.pool.key == expected.pool) AeraError.unexpected_pool_pair
  require (a.pool.owner == m.config.amm_program) AeraError.unexpected_amm_program
  require (length a.pool.bytes == pool_len) AeraError.unexpected_pool_pair
  (expected_collateral_vault, expected_quote_vault) ←
      orient m.collateral_mint m.quote_mint (key_at a.pool.bytes mint_a_offset)
        (key_at a.pool.bytes mint_b_offset) (key_at a.pool.bytes vault_a_offset)
        (key_at a.pool.bytes vault_b_offset)
  require (a.collateral_vault.key == expected_collateral_vault) AeraError.unexpected_pool_pair
  require (a.quote_vault.key == expected_quote_vault) AeraError.unexpected_pool_pair
  require (a.collateral_vault.key == expected.collateral_vault) AeraError.unexpected_pool_pair
  require (a.quote_vault.key == expected.quote_vault) AeraError.unexpected_pool_pair
  require (a.collateral_vault.mint == m.collateral_mint) AeraError.unexpected_pool_pair
  require (a.quote_vault.mint == m.quote_mint) AeraError.unexpected_pool_pair
  require (ltb 0 a.collateral_vault.amount && ltb 0 a.quote_vault.amount)
      AeraError.invalid_oracle_price
  price ←
      pool_price m.collateral_decimals m.quote_decimals a.collateral_vault.amount
        a.quote_vault.amount
  ok (record { price = price; quote_depth = a.quote_vault.amount })

-- The cross-pool deviation, symmetric about the midpoint.
unfoldable pub deviation_bps : (price_a price_b : ℕ) → Outcome ℕ
deviation_bps price_a price_b = do
  sum ← checked_add u128_bound price_a price_b
  require (ltb 0 sum) AeraError.invalid_oracle_price
  doubled ← checked_mul u128_bound (abs_diff price_a price_b) 2
  mul_div_floor doubled bps_denominator sum

-- The write into the ring.
unfoldable pub push_observation : Observation → MarketOracle → MarketOracle
push_observation o m =
    let index = m.next_index % observation_capacity in
    record m {
      observations =
          if ltb (length m.observations) observation_capacity
          then m.observations ++ (o ∷ [])
          else set m.observations index o;
      next_index = (index + 1) % observation_capacity;
    }

pub record RefreshMarketOracle : Type 0 where
  pub oracle_key : Pubkey
  pub pool_a : PoolAccounts
  pub pool_b : PoolAccounts
  pub amm_program_data : RawAccount

-- The check of the pinned deployment of the AMM.
unfoldable pub require_amm_deployment : MarketOracleConfig → RawAccount → Outcome (Unit {0})
require_amm_deployment c program_data = do
  require (program_data.key == c.amm_program_data) AeraError.unexpected_amm_program
  require (leb 12 (length program_data.bytes)) AeraError.amm_deployment_changed
  require (from_le_bytes (range_at program_data.bytes 4 8) == c.expected_deploy_slot)
      AeraError.amm_deployment_changed

-- What the two pools say: the lower price, the depth of both, and what is wrong with them.
pub record MarketReading : Type 0 where
  pub price : ℕ
  pub quote_depth : ℕ
  pub degradation : Degradation

unfoldable pub combine : MarketOracleConfig → (a b : PoolReading) → Outcome MarketReading
combine c a b = do
  deviation ← deviation_bps a.price b.price
  ok (record {
    price = min a.price b.price;
    quote_depth = min (a.quote_depth + b.quote_depth) (u64_bound - 1);
    degradation = record {
      pools_disagree = ltb c.max_cross_pool_deviation_bps deviation;
      shallow =
          ltb a.quote_depth c.min_pool_quote_depth || ltb b.quote_depth c.min_pool_quote_depth;
    };
  })

abbrev require_monotone : Option Observation → ℤ → Outcome (Unit {0})
require_monotone none now = ok tt
require_monotone (some o) now = require (leb_ℤ o.unix_timestamp now) AeraError.observation_too_soon

-- Whether the spacing has passed, so that the reading enters the history.
unfoldable pub is_recorded : MarketOracleConfig → Option Observation → ℤ → Bool
is_recorded c none now = true
is_recorded c (some o) now =
    leb_ℤ (pos c.min_spacing_seconds) (saturating_sub_i64 now o.unix_timestamp)

unfoldable pub age_of : Option Observation → ℤ → ℤ
age_of none now = pos 0
age_of (some o) now = saturating_sub_i64 now o.unix_timestamp

abbrev pub reference_of : OracleState → Option ℕ
reference_of s = if is_set s.reference then some s.reference.effective_rate else none

-- A refresh that recorded nothing may not raise the reference.
unfoldable pub clamp : Bool → Option ℕ → ℕ → ℕ
clamp false (some current) price = min price current
clamp false none price = price
clamp true current price = price

-- The writes into the oracle.
unfoldable pub write_reference : Clock → OracleState → MarketVerdict → (accepted : ℕ) → OracleState
write_reference clock s v accepted = record s {
  last_refresh_slot = clock.slot;
  last_moved_bps = if ltb v.moved_bps u64_bound then v.moved_bps else u64_bound - 1;
  health = health_to_u8 v.health;
  reference = record {
    gross_rate = accepted;
    effective_rate = accepted;
    withdrawal_fee_bps = 0;
    source_epoch = 0;
    slot = clock.slot;
    unix_timestamp = clock.unix_timestamp;
  };
}

-- From the combined reading on.
unfoldable pub take_reading :
    Clock → MarketReading → OracleState → MarketOracle → Outcome (OracleState × MarketOracle)
take_reading clock r s m = do
  require_monotone (latest m) clock.unix_timestamp
  let recorded = is_recorded m.config (latest m) clock.unix_timestamp
  let m' =
      if recorded
      then push_observation
          (record {
            price = r.price;
            slot = clock.slot;
            unix_timestamp = clock.unix_timestamp;
            quote_depth = r.quote_depth;
          })
          m
      else m
  average ← twap m' clock.unix_timestamp
  bootstrapped ← is_bootstrapped m'
  let verdict =
      evaluate_market (reference_of s) average bootstrapped (age_of (latest m) clock.unix_timestamp)
        r.degradation m.config
  ok (write_reference clock s verdict (clamp recorded (reference_of s) verdict.accepted_price), m')

abbrev pub is_market_twap : OracleSourceKind → Bool
is_market_twap market_twap = true
is_market_twap unit_of_account = false
is_market_twap native_exchange_rate = false

unfoldable pub handle_refresh_market_oracle :
    Clock → RefreshMarketOracle → OracleState → MarketOracle → Outcome (OracleState × MarketOracle)
handle_refresh_market_oracle clock a s m = do
  require (a.oracle_key == m.oracle) AeraError.oracle_account_mismatch
  kind ← kind_from_u8 s.source_kind
  require (is_market_twap kind) AeraError.unknown_oracle_source
  require_amm_deployment m.config a.amm_program_data
  reading_a ← read_pool m m.pool_a a.pool_a
  reading_b ← read_pool m m.pool_b a.pool_b
  reading ← combine m.config reading_a reading_b
  take_reading clock reading s m
