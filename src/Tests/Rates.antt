-- ===== src/Tests/Rates.antt =====
-- The theorems on parameters, rates and the circuit breaker, applied.
use aera_v.Common.{
  ℕ, ◌≤◌, ◌≡◌, refl, true, false, arith, ok, err, ◌>>=◌, require, checked_add, checked_mul,
  checked_sub, none,
}
use aera_v.Common.Int.{pos, ◌+ℤ◌, ◌≤ℤ◌, checked_add_i64}
use aera_v.Constants.{fixed_point_scale}
use aera_v.Math.{mul_div_floor, move_bps}
use aera_v.Global.{require_admin}
use aera_v.Reserve.{Reserve, ReserveConfig, validate, cap_is_tighter, is_tightening_from, curve_bps}
use aera_v.Reserve.Curve.{curve_bps-bounds, curve_bps_mono}
use aera_v.Oracle.Health.{healthy, borrow_frozen, RiskAction, native_exchange_rate, refusal}
use aera_v.Oracle.Breaker.{is_set, PriceObservation, Verdict, judge, evaluate}
use aera_v.Oracle.State.{record_observation, require_permits}
use aera_v.Oracle.Verdicts.{evaluate-freezes}
use aera_v.Instructions.Params.{
  SetParams, set_params_constraints, handle_set_params, handle_apply_pending_params,
}
use aera_v.Safety.Timelock.{handle_set_params-waits, IsSetOrQueued, handle_set_risk_config-bounds}
use aera_v.Risk.{RiskConfig}
use aera_v.Instructions.RiskParams.{SetRiskConfig, risk_cap_is_tighter, handle_set_risk_config}
use aera_v.Tests.{now, later, global, config, usdc, breaker, rate_at, oracle_at, risk_config}
use aera_v.Tests.Trades.{config-IsSound}

abbrev looser : ReserveConfig
looser = record config { loan_to_value_bps = 7200 }

abbrev setter : SetParams
setter = record {
  global_key = 90;
  global = global;
  admin = 1;
  reserve = usdc;
  market_key = 3;
  market_global = 90;
}

abbrev usdc_queued : Reserve
usdc_queued = record usdc { pending = record { config = looser; eta = pos 8600 } }

abbrev usdc_loosened : Reserve
usdc_loosened = record usdc { config = looser }

loosens : is_tightening_from config looser ≡ false
unfolding is_tightening_from cap_is_tighter
loosens = refl

queue_runs : handle_set_params now setter looser ≡ ok usdc_queued
unfolding handle_set_params set_params_constraints require_admin validate is_tightening_from
    cap_is_tighter checked_add_i64 ◌>>=◌ require
queue_runs = refl

apply_runs : handle_apply_pending_params later usdc_queued ≡ ok usdc_loosened
unfolding handle_apply_pending_params validate ◌>>=◌ require
apply_runs = refl

handle_set_params-waits_example :
    (config ≡ config) × (looser ≡ looser) × (pos 5000 +ℤ pos 3600 ≤ℤ pos 405_000)
handle_set_params-waits_example =
    handle_set_params-waits now later setter looser usdc_queued usdc_loosened loosens queue_runs
      apply_runs

low_rate : curve_bps config 4000 ≡ ok 500
unfolding curve_bps mul_div_floor checked_add checked_mul checked_sub ◌>>=◌ require
low_rate = refl

high_rate : curve_bps config 9000 ≡ ok 5500
unfolding curve_bps mul_div_floor checked_add checked_mul checked_sub ◌>>=◌ require
high_rate = refl

curve_bps-bounds_example : (0 ≤ 5500) × (5500 ≤ 10_000)
curve_bps-bounds_example = curve_bps-bounds config 9000 5500 config-IsSound (omega arith) high_rate

curve_bps_mono_example : 500 ≤ 5500
curve_bps_mono_example =
    curve_bps_mono config 4000 9000 500 5500 config-IsSound (omega arith) low_rate high_rate

abbrev observed : ℕ → PriceObservation
observed rate = record {
  gross_rate = rate;
  withdrawal_fee_bps = 0;
  effective_rate = rate;
  source_epoch = 2;
  slot = 20;
  unix_timestamp = pos 6000;
  source = native_exchange_rate;
  previous_epoch_rate = none;
}

abbrev small_rise : Verdict
small_rise = record { accept = true; health = healthy; moved_bps = 50 }

abbrev large_rise : Verdict
large_rise = record { accept = false; health = borrow_frozen; moved_bps = 500 }

reference_set : is_set (rate_at fixed_point_scale) ≡ true
unfolding is_set
reference_set = refl

small_rise_accepted :
    evaluate (rate_at fixed_point_scale) (observed 1_005_000_000_000_000_000) breaker false
    ≡ ok small_rise
unfolding evaluate judge is_set move_bps mul_div_floor checked_mul ◌>>=◌ require
small_rise_accepted = refl

large_rise_refused :
    evaluate (rate_at fixed_point_scale) (observed 1_050_000_000_000_000_000) breaker false
    ≡ ok large_rise
unfolding evaluate judge is_set move_bps mul_div_floor checked_mul ◌>>=◌ require
large_rise_refused = refl

evaluate-freezes_example :
    ((record_observation
        (oracle_at fixed_point_scale)
        (observed 1_050_000_000_000_000_000)
        large_rise
        20).reference
      ≡ rate_at fixed_point_scale)
    × (require_permits
          (record_observation
            (oracle_at fixed_point_scale)
            (observed 1_050_000_000_000_000_000)
            large_rise
            20)
          RiskAction.borrow
        ≡ err (refusal borrow_frozen))
evaluate-freezes_example =
    evaluate-freezes (oracle_at fixed_point_scale) (observed 1_050_000_000_000_000_000) breaker
      false large_rise 20 reference_set large_rise_refused refl

abbrev share_setter : SetRiskConfig
share_setter = record {
  global = global;
  admin = 1;
  reserve_key = 7;
  reserve = usdc;
  risk_config = risk_config 7;
}

abbrev share_lowered : RiskConfig
share_lowered = record (risk_config 7) {
  per_wallet_borrow_cap = 1000;
  protocol_liquidation_share_bps = 100;
}

share_runs : handle_set_risk_config now share_setter 1000 100 ≡ ok share_lowered
unfolding handle_set_risk_config risk_cap_is_tighter ◌>>=◌ require
share_runs = refl

-- A share that was lowered before, raised again.
abbrev share_raiser : SetRiskConfig
share_raiser = record share_setter { risk_config = share_lowered }

abbrev share_queued : RiskConfig
share_queued = record share_lowered {
  pending_per_wallet_borrow_cap = 1000;
  pending_protocol_liquidation_share_bps = 200;
  pending_eta = pos 8600;
}

share_waits : handle_set_risk_config now share_raiser 1000 200 ≡ ok share_queued
unfolding handle_set_risk_config risk_cap_is_tighter ◌>>=◌ require checked_add_i64
share_waits = refl

handle_set_risk_config-bounds_example : IsSetOrQueued now share_raiser 1000 200 share_queued
handle_set_risk_config-bounds_example =
    handle_set_risk_config-bounds now share_raiser 1000 200 share_queued share_waits
