-- ===== src/LockIndicator.antt =====
-- linien-gateway/app/lock_indicator.py: the class LockIndicatorEvaluator. update() is cut into the
-- control block, the tests that collect reasons, and the decision on the state. `ts` is the frame's
-- clock reading and `wall` the one that _set_state takes itself. Durations add up exactly here.
mod Types
pub mod Settings
pub mod Decision
pub mod Frames
pub mod Streaks
pub use Types.{
  MonitorMode, locked_above, locked_below, Config, Stats, Reason, disabled, not_locked,
  missing_error_signal, control_stuck, control_near_rail, missing_control_signal,
  error_mean_out_of_range, error_std_too_low, error_std_too_high, missing_monitor_signal,
  monitor_below_threshold, monitor_above_threshold, Metrics, Evaluator,
}
use linien_multi_device.Prelude.{
  ℤ, pos, ◌+ℤ◌, ◌-ℤ◌, ◌*ℤ◌, ltb_ℤ, leb_ℤ, max_ℤ, min_ℤ, abs_ℤ, Bool, true, false, not, ◌&&◌, ◌||◌,
  Option, none, some, is_some, List, [], ◌∷◌, ◌++◌, if◌then◌else◌,
}
use linien_multi_device.AutoRelock.{Indicator, unknown, locked, marginal, lost}

abbrev pub no_metrics : Metrics
no_metrics = record { control_stuck_s = pos 0; control_rail_s = pos 0 }

abbrev pub init : Config → ℤ → Evaluator
init config wall = record {
  config = config;
  state = unknown;
  reasons = [];
  metrics = no_metrics;
  last_update_at = none;
  last_transition_at = wall;
  bad_duration_s = pos 0;
  good_duration_s = pos 0;
  control_stuck_duration_s = pos 0;
  control_rail_duration_s = pos 0;
}

pub reset_durations : Evaluator → Evaluator
reset_durations e = record e {
  bad_duration_s = pos 0;
  good_duration_s = pos 0;
  control_stuck_duration_s = pos 0;
  control_rail_duration_s = pos 0;
}

pub set_config : Config → Evaluator → Evaluator
unfolding reset_durations
set_config config e = reset_durations (record e { config = config })

pub same_state : Indicator → Indicator → Bool
same_state unknown unknown = true
same_state locked locked = true
same_state marginal marginal = true
same_state lost lost = true
same_state _ _ = false

pub set_state : Indicator → ℤ → Evaluator → Evaluator
unfolding same_state
set_state state wall e =
    if same_state state e.state then e else record e { state = state; last_transition_at = wall }

-- `min(2.0, max(0.02, now - last))`, and 0.1 on the first update.
unfoldable pub time_delta : Option ℤ → ℤ → ℤ
time_delta none now = pos 100000
time_delta (some last) now = min_ℤ (pos 2000000) (max_ℤ (pos 20000) (now -ℤ last))

or_zero : Option ℤ → ℤ
or_zero none = pos 0
or_zero (some n) = n

-- `control_range_counts <= float(control_stuck_delta_counts)`
unfoldable pub is_stuck : Config → Stats → Bool
unfolding or_zero
is_stuck cfg stats =
    leb_ℤ (or_zero stats.control_range_counts) (cfg.control_stuck_delta_counts *ℤ pos 1000000)

pub stuck_duration : Config → Stats → ℤ → ℤ → ℤ
unfolding is_stuck
stuck_duration cfg stats dt d = elim stats.control_mean_v [
  | none ↦ pos 0
  | some _ ↦ if cfg.use_control then (if is_stuck cfg stats then d +ℤ dt else pos 0) else d
]

pub rail_duration : Config → Stats → ℤ → ℤ → ℤ
rail_duration cfg stats dt d = elim stats.control_mean_v [
  | none ↦ pos 0
  | some mean ↦
      if cfg.use_control
      then (if leb_ℤ cfg.control_rail_threshold_v (abs_ℤ mean) then d +ℤ dt else pos 0)
      else d
]

unfoldable pub reason_if : Bool → Reason → List Reason
reason_if test reason = if test then reason ∷ [] else []

-- `hard_fail`, from the durations as this frame leaves them.
unfoldable pub hard_fail : Config → Stats → ℤ → Bool
hard_fail cfg stats stuck =
    is_some stats.control_mean_v && cfg.use_control && leb_ℤ cfg.control_stuck_time_s stuck

unfoldable pub control_reasons : Config → Stats → ℤ → ℤ → List Reason
unfolding reason_if hard_fail
control_reasons cfg stats stuck rail =
    if is_some stats.control_mean_v
    then reason_if (hard_fail cfg stats stuck) control_stuck
      ++ reason_if (cfg.use_control && leb_ℤ cfg.control_rail_hold_s rail) control_near_rail
    else reason_if cfg.use_control missing_control_signal

unfoldable pub exceeds : Option ℤ → ℤ → Bool
exceeds none limit = false
exceeds (some n) limit = ltb_ℤ limit n

unfoldable pub falls_below : Option ℤ → ℤ → Bool
falls_below none limit = false
falls_below (some n) limit = ltb_ℤ n limit

unfoldable pub error_reasons : Config → Stats → List Reason
unfolding reason_if exceeds falls_below
error_reasons cfg stats =
    if cfg.use_error && is_some stats.error_std_v
    then reason_if (exceeds stats.error_mean_abs_v cfg.error_mean_abs_max_v) error_mean_out_of_range
      ++ reason_if
          (ltb_ℤ (pos 0) cfg.error_std_min_v && falls_below stats.error_std_v cfg.error_std_min_v)
          error_std_too_low
      ++ reason_if
          (ltb_ℤ (pos 0) cfg.error_std_max_v && exceeds stats.error_std_v cfg.error_std_max_v)
          error_std_too_high
    else []

monitor_test : MonitorMode → ℤ → ℤ → List Reason
unfolding reason_if
monitor_test locked_above mean threshold = reason_if (ltb_ℤ mean threshold) monitor_below_threshold
monitor_test locked_below mean threshold = reason_if (ltb_ℤ threshold mean) monitor_above_threshold

unfoldable pub monitor_reasons : Config → Stats → List Reason
unfolding monitor_test
monitor_reasons cfg stats =
    if cfg.use_monitor
    then elim stats.monitor_mean_v [
      | none ↦ missing_monitor_signal ∷ []
      | some mean ↦ monitor_test cfg.monitor_mode mean cfg.monitor_threshold_v
    ]
    else []

-- All of `bad_reasons`, in the order in which update() appends them.
unfoldable pub bad_reasons : Config → Stats → ℤ → ℤ → List Reason
unfolding reason_if control_reasons error_reasons monitor_reasons
bad_reasons cfg stats stuck rail =
    reason_if (cfg.use_error && not (is_some stats.error_std_v)) missing_error_signal
    ++ control_reasons cfg stats stuck rail
    ++ error_reasons cfg stats
    ++ monitor_reasons cfg stats

-- The branch on a frame with reasons against the lock, that is no hard failure.
pub degrade : ℤ → ℤ → Evaluator → Evaluator
unfolding set_state
degrade dt wall e =
    let bad = e.bad_duration_s +ℤ dt in
    let e' = record e { bad_duration_s = bad; good_duration_s = pos 0 } in
    if leb_ℤ e.config.bad_hold_s bad then set_state lost wall e' else set_state marginal wall e'

is_recovering : Indicator → Bool
is_recovering lost = true
is_recovering marginal = true
is_recovering _ = false

-- The branch on a frame with no reason against the lock.
pub recover : ℤ → ℤ → Evaluator → Evaluator
unfolding set_state is_recovering
recover dt wall e =
    let good = e.good_duration_s +ℤ dt in
    let e' = record e { bad_duration_s = pos 0; good_duration_s = good } in
    if is_recovering e.state && ltb_ℤ good e.config.good_hold_s
    then set_state marginal wall e'
    else record (set_state locked wall e') { reasons = [] }

fail_hard : ℤ → Evaluator → Evaluator
unfolding set_state
fail_hard wall e =
    set_state lost wall (record e { bad_duration_s = e.config.bad_hold_s; good_duration_s = pos 0 })

-- The end of update(): the decision on the state, from the reasons that the frame gave.
pub decide : Bool → List Reason → ℤ → ℤ → Evaluator → Evaluator
unfolding fail_hard degrade recover
decide true reasons dt wall e = fail_hard wall (record e { reasons = reasons })
decide false [] dt wall e = recover dt wall (record e { reasons = [] })
decide false (r ∷ rs) dt wall e = degrade dt wall (record e { reasons = r ∷ rs })

-- The two early returns of update().
pub withdraw : Reason → ℤ → Evaluator → Evaluator
unfolding reset_durations set_state
withdraw reason wall e =
    set_state unknown wall
      (record (reset_durations e) { metrics = no_metrics; reasons = reason ∷ [] })

-- update() on a frame of a locked device, behind the early returns.
pub judge : Stats → ℤ → ℤ → Evaluator → Evaluator
judge stats dt wall e =
    let cfg = e.config in
    let stuck = stuck_duration cfg stats dt e.control_stuck_duration_s in
    let rail = rail_duration cfg stats dt e.control_rail_duration_s in
    decide (hard_fail cfg stats stuck) (bad_reasons cfg stats stuck rail) dt wall (record e {
      control_stuck_duration_s = stuck;
      control_rail_duration_s = rail;
      metrics = record { control_stuck_s = stuck; control_rail_s = rail };
    })

pub update : Bool → Stats → ℤ → ℤ → Evaluator → Evaluator
update lock stats ts wall e =
    let dt = time_delta e.last_update_at ts in
    let seen = record e { last_update_at = some ts } in
    if not e.config.enabled
    then withdraw disabled wall seen
    else if not lock
    then withdraw not_locked wall seen
    else judge stats dt wall seen
