-- ===== src/Constants.antt =====
-- programs/aera/src/constants.rs: the fixed point, the basis points and the limits that the code
-- reads. (Most deployment defaults and the seeds are left out.)
use aera_v.Common.{ℕ, ◌*◌}

-- `FIXED_POINT_SCALE`
abbrev pub fixed_point_scale : ℕ
fixed_point_scale = 1_000_000_000_000_000_000

-- `BPS_DENOMINATOR`
abbrev pub bps_denominator : ℕ
bps_denominator = 10_000

-- `FULL_CLOSE_HEALTH_FACTOR_BPS`
abbrev pub full_close_health_factor_bps : ℕ
full_close_health_factor_bps = 9_500

-- `MAX_ADMIN_LTV_BPS`
abbrev pub max_admin_ltv_bps : ℕ
max_admin_ltv_bps = 7_500

-- `MAX_ADMIN_LIQUIDATION_BONUS_BPS`
abbrev pub max_admin_liquidation_bonus_bps : ℕ
max_admin_liquidation_bonus_bps = 1_500

-- `MAX_ADMIN_RESERVE_FACTOR_BPS`
abbrev pub max_admin_reserve_factor_bps : ℕ
max_admin_reserve_factor_bps = 3_000

-- `MIN_ADMIN_COLLATERAL_HAIRCUT_BPS`
abbrev pub min_admin_collateral_haircut_bps : ℕ
min_admin_collateral_haircut_bps = 100

-- `MAX_ADMIN_ORIGINATION_FEE_BPS`
abbrev pub max_admin_origination_fee_bps : ℕ
max_admin_origination_fee_bps = 50

-- `MAX_PROTOCOL_LIQUIDATION_SHARE_BPS`
abbrev pub max_protocol_liquidation_share_bps : ℕ
max_protocol_liquidation_share_bps = 250

-- `MAX_PARAM_TIMELOCK_SECONDS`
abbrev pub max_param_timelock_seconds : ℕ
max_param_timelock_seconds = 48 * 60 * 60

-- `MAX_OBLIGATION_RESERVES`
abbrev pub max_obligation_reserves : ℕ
max_obligation_reserves = 4

-- `DEFAULT_MAX_UP_BPS_PER_EPOCH`
abbrev pub default_max_up_bps_per_epoch : ℕ
default_max_up_bps_per_epoch = 200

-- `DEFAULT_MAX_DOWN_BPS_PER_EPOCH`
abbrev pub default_max_down_bps_per_epoch : ℕ
default_max_down_bps_per_epoch = 100

-- `DEFAULT_EMERGENCY_DEVIATION_BPS`
abbrev pub default_emergency_deviation_bps : ℕ
default_emergency_deviation_bps = 1_000

-- `DEFAULT_MAX_EPOCH_ALLOWANCE`
abbrev pub default_max_epoch_allowance : ℕ
default_max_epoch_allowance = 10

-- `MAX_SHARE_NAME`
abbrev pub max_share_name : ℕ
max_share_name = 32

-- `MAX_SHARE_SYMBOL`
abbrev pub max_share_symbol : ℕ
max_share_symbol = 10

-- `MAX_SHARE_URI`
abbrev pub max_share_uri : ℕ
max_share_uri = 200
