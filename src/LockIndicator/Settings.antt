-- ===== src/LockIndicator/Settings.antt =====
-- LockIndicatorConfig.from_mapping and to_dict (linien-gateway/app/lock_indicator.py).
use linien_multi_device.Prelude.{
  pos, max_ℤ, ◌≤ℤ◌, true, false, Option, none, some, arith, str_eq, if◌then◌else◌,
}
use linien_multi_device.Payload.{PyText, Value, text, Mapping, as_bool, as_float, as_int, get}
use linien_multi_device.LockIndicator.Types.{Config, MonitorMode, locked_above, locked_below}

abbrev pub defaults : Config
defaults = record {
  enabled = true;
  bad_hold_s = pos 1000000;
  good_hold_s = pos 2000000;
  use_control = true;
  control_stuck_delta_counts = pos 0;
  control_stuck_time_s = pos 1500000;
  control_rail_threshold_v = pos 900000;
  control_rail_hold_s = pos 1000000;
  use_error = true;
  error_mean_abs_max_v = pos 200000;
  error_std_min_v = pos 1000;
  error_std_max_v = pos 800000;
  use_monitor = false;
  monitor_mode = locked_above;
  monitor_threshold_v = pos 0;
}

-- `str(payload.get("monitor_mode", default)).strip().lower()`, and its test: no value but a text
-- prints as the name of a mode.
monitor_mode_of : PyText → Value → MonitorMode
monitor_mode_of py (text s) =
    let mode = py.strip_lower s in
    if str_eq mode "locked_above"
    then locked_above
    else if str_eq mode "locked_below"
    then locked_below
    else defaults.monitor_mode
monitor_mode_of py _ = defaults.monitor_mode

pub from_mapping : PyText → Option Mapping → Config
unfolding monitor_mode_of
from_mapping py none = defaults
from_mapping py (some p) = record {
  enabled = as_bool py (get "enabled" p) defaults.enabled;
  bad_hold_s = max_ℤ (pos 50000) (as_float py (get "bad_hold_s" p) defaults.bad_hold_s);
  good_hold_s = max_ℤ (pos 50000) (as_float py (get "good_hold_s" p) defaults.good_hold_s);
  use_control = as_bool py (get "use_control" p) defaults.use_control;
  control_stuck_delta_counts =
      max_ℤ (pos 0)
        (as_int py (get "control_stuck_delta_counts" p) defaults.control_stuck_delta_counts);
  control_stuck_time_s =
      max_ℤ (pos 50000) (as_float py (get "control_stuck_time_s" p) defaults.control_stuck_time_s);
  control_rail_threshold_v =
      max_ℤ (pos 0)
        (as_float py (get "control_rail_threshold_v" p) defaults.control_rail_threshold_v);
  control_rail_hold_s =
      max_ℤ (pos 50000) (as_float py (get "control_rail_hold_s" p) defaults.control_rail_hold_s);
  use_error = as_bool py (get "use_error" p) defaults.use_error;
  error_mean_abs_max_v =
      max_ℤ (pos 0) (as_float py (get "error_mean_abs_max_v" p) defaults.error_mean_abs_max_v);
  error_std_min_v = max_ℤ (pos 0) (as_float py (get "error_std_min_v" p) defaults.error_std_min_v);
  error_std_max_v = max_ℤ (pos 0) (as_float py (get "error_std_max_v" p) defaults.error_std_max_v);
  use_monitor = as_bool py (get "use_monitor" p) defaults.use_monitor;
  monitor_mode = monitor_mode_of py (get "monitor_mode" p);
  monitor_threshold_v = as_float py (get "monitor_threshold_v" p) defaults.monitor_threshold_v;
}

pub record IsNormal (c : Config) : Type 0 where
  pub bad_hold : pos 50000 ≤ℤ c.bad_hold_s
  pub good_hold : pos 50000 ≤ℤ c.good_hold_s
  pub stuck_delta : pos 0 ≤ℤ c.control_stuck_delta_counts
  pub stuck_time : pos 50000 ≤ℤ c.control_stuck_time_s
  pub rail_threshold : pos 0 ≤ℤ c.control_rail_threshold_v
  pub rail_hold : pos 50000 ≤ℤ c.control_rail_hold_s
  pub mean_max : pos 0 ≤ℤ c.error_mean_abs_max_v
  pub std_min : pos 0 ≤ℤ c.error_std_min_v
  pub std_max : pos 0 ≤ℤ c.error_std_max_v

-- Whatever the mapping holds, the configuration read from it keeps the bounds.
pub from_mapping-IsNormal : (py : PyText) (p : Option Mapping) → IsNormal (from_mapping py p)
unfolding from_mapping
from_mapping-IsNormal py none = ground arith
from_mapping-IsNormal py (some p) = ground arith
