-- ===== src/Tests/Launches.antt =====
-- The configurations of launch.rs and the constructors of init_oracle.rs pass their validation.
use aera_v.Common.{◌≡◌, refl, ok, ◌>>=◌, require}
use aera_v.Reserve.{validate}
use aera_v.Oracle.Health.{kind_from_u8}
use aera_v.Oracle.Breaker.{validate_breaker}
use aera_v.Oracle.State.{validate_config, validate_source}
use aera_v.Instructions.SetOracle.{
  native_config, unit_config, market_twap_config, validate_oracle_config,
}
use aera_v.Launch.{cook_reserve_config, bcook_reserve_config}

cook_is_valid : validate cook_reserve_config ≡ ok tt
unfolding validate ◌>>=◌ require
cook_is_valid = refl

bcook_is_valid : validate bcook_reserve_config ≡ ok tt
unfolding validate ◌>>=◌ require
bcook_is_valid = refl

native_is_valid : validate_oracle_config (native_config 60 61 500 1 10 9 44) ≡ ok tt
unfolding validate_oracle_config validate_config validate_breaker validate_source kind_from_u8 ◌>>=◌
    require
native_is_valid = refl

unit_is_valid : validate_oracle_config unit_config ≡ ok tt
unfolding validate_oracle_config validate_config validate_breaker validate_source kind_from_u8 ◌>>=◌
    require
unit_is_valid = refl

market_twap_is_valid : validate_oracle_config market_twap_config ≡ ok tt
unfolding validate_oracle_config validate_config validate_breaker validate_source kind_from_u8 ◌>>=◌
    require
market_twap_is_valid = refl
