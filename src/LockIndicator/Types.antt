-- ===== src/LockIndicator/Types.antt =====
-- The data of linien-gateway/app/lock_indicator.py, and SignalStats of linien-gateway/app/signal_stats.py
-- as far as the indicator reads it.
use linien_multi_device.Prelude.{ℤ, Bool, Option, List}
use linien_multi_device.AutoRelock.{Indicator}

pub data MonitorMode : Type 0 where
  locked_above locked_below : MonitorMode

-- Durations in microseconds, voltages in microvolts; the stuck threshold in counts.
pub record Config : Type 0 where
  pub enabled : Bool
  pub bad_hold_s : ℤ
  pub good_hold_s : ℤ
  pub use_control : Bool
  pub control_stuck_delta_counts : ℤ
  pub control_stuck_time_s : ℤ
  pub control_rail_threshold_v : ℤ
  pub control_rail_hold_s : ℤ
  pub use_error : Bool
  pub error_mean_abs_max_v : ℤ
  pub error_std_min_v : ℤ
  pub error_std_max_v : ℤ
  pub use_monitor : Bool
  pub monitor_mode : MonitorMode
  pub monitor_threshold_v : ℤ

-- `control_range_counts` in millionths of a count.
pub record Stats : Type 0 where
  pub control_mean_v : Option ℤ
  pub control_range_counts : Option ℤ
  pub error_std_v : Option ℤ
  pub error_mean_abs_v : Option ℤ
  pub monitor_mean_v : Option ℤ

pub data Reason : Type 0 where
  disabled not_locked missing_error_signal control_stuck control_near_rail : Reason
  missing_control_signal error_mean_out_of_range error_std_too_low error_std_too_high : Reason
  missing_monitor_signal monitor_below_threshold monitor_above_threshold : Reason

pub record Metrics : Type 0 where
  pub control_stuck_s : ℤ
  pub control_rail_s : ℤ

pub record Evaluator : Type 0 where
  pub config : Config
  pub state : Indicator
  pub reasons : List Reason
  pub metrics : Metrics
  pub last_update_at : Option ℤ
  pub last_transition_at : ℤ
  pub bad_duration_s : ℤ
  pub good_duration_s : ℤ
  pub control_stuck_duration_s : ℤ
  pub control_rail_duration_s : ℤ
