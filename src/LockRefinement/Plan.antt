-- ===== src/LockRefinement/Plan.antt =====
-- linien-gateway/app/lock_refinement.py: min_safe_amplitude_v and plan_refinement_step, with the test of
-- linien-gateway/app/auto_lock_scan.py for a scan that is too wide. A share of an amplitude is in parts
-- of 10^12, and shift_per_fraction, a measured shift, is at least zero. The texts of the reasons are left
-- out.
use linien_multi_device.Prelude.{
  ℕ, ◌+◌, ◌-◌, ◌*◌, ◌/◌, ◌%◌, ℤ, ◌-ℤ◌, abs_ℤ, Bool, true, false, not, ◌&&◌, ◌||◌, Option, none,
  some, ltb, leb, ◌==◌, if◌then◌else◌,
}
use linien_multi_device.Prelude.Int.{to_ℕ}
use linien_multi_device.LockRefinement.{
  epsilon, move_epsilon, million, min_ℕ, max_ℕ, ScanSettings, bounded_recenter,
  center_step_allowance,
}

abbrev pub round_up : ℕ → ℕ → ℕ
round_up n d = (n + (d - 1)) / d

-- `int(round(x))` for a quotient: to the nearest integer, a half to the even one.
abbrev round_quotient : ℕ → ℕ → ℕ
round_quotient n d =
    let q = n / d in
    let r = n % d in if ltb (2 * r) d then q else if ltb d (2 * r) then q + 1 else q + q % 2

pub half_range_to_points : ℕ → ℕ → ℕ → ℕ
half_range_to_points half_range points amplitude =
    if ltb points 8
    then 2
    else if leb amplitude epsilon
    then max_ℕ 2 (min_ℕ 24 (points / 16))
    else max_ℕ 2
        (min_ℕ (round_quotient (half_range * (points - 1)) (2 * amplitude)) (points / 2 - 1))

pub spacing_is_measurable : ScanSettings → ℕ → ℕ → Bool
unfolding half_range_to_points
spacing_is_measurable s points amplitude =
    if s.half_range_sweep_v == 0
    then true
    else leb (max_ℕ 1 s.smooth_window_pts)
        (2 * half_range_to_points s.half_range_sweep_v points amplitude)

-- `signal_width_v < fraction * span_v`, or what a scan without a spacing comes to.
abbrev too_wide_for : ScanSettings → ℕ → ℕ → Option ℕ → Bool
too_wide_for s amplitude points none = not (spacing_is_measurable s points amplitude)
too_wide_for s amplitude points (some sideband) =
    ltb (2 * sideband * million) (s.min_signal_scan_fraction * (2 * amplitude))

pub scan_too_wide_to_lock : ScanSettings → ℕ → Option ℕ → ℕ → Bool
unfolding spacing_is_measurable
scan_too_wide_to_lock s amplitude sideband points =
    if s.min_signal_scan_fraction == 0 || not s.is_pdh || leb (2 * amplitude) 1
    then false
    else too_wide_for s amplitude points sideband

pub max_lockable_amplitude : ScanSettings → Option ℕ → Option ℕ
max_lockable_amplitude s none = none
max_lockable_amplitude s (some sideband) =
    if s.min_signal_scan_fraction == 0
    then none
    else some (sideband * million / s.min_signal_scan_fraction)

abbrev pub or_zero : Option ℕ → ℕ
or_zero none = 0
or_zero (some n) = n

-- The smallest amplitude, above the floor, that keeps the target in view.
unfoldable pub min_safe_amplitude : ℕ → ℕ → ℕ → ℕ → Option ℕ
min_safe_amplitude amplitude offset shift floor =
    let crossing = round_up ((offset + shift) * (10 * amplitude)) (9 * amplitude + 10 * shift) in
    let candidate = max_ℕ floor crossing in
    if leb amplitude 1 || leb (9 * amplitude) (10 * offset) || leb amplitude candidate
    then none
    else some candidate

pub data Action : Type 0 where
  narrow recenter done refuse : Action

pub record Step : Type 0 where
  pub action : Action
  pub center_v : ℤ
  pub amplitude_v : ℕ

-- What one call is given.
pub record Stage : Type 0 where
  pub settings : ScanSettings
  pub center_v : ℤ
  pub amplitude_v : ℕ
  pub target_v : ℤ
  pub sideband_offset_v : Option ℕ
  pub strict : Bool
  pub trace_length : ℕ
  pub shift_per_fraction : Option ℕ

abbrev capped_by : ℕ → Option ℕ → ℕ
capped_by n none = n
capped_by n (some m) = min_ℕ n m

-- The goal: `half_range * (trace_length - 1) / (2 * 10)`, or the widest scan to lock from.
pub target_amplitude : Stage → ℕ
unfolding max_lockable_amplitude
target_amplitude g =
    capped_by (g.settings.half_range_sweep_v * (g.trace_length - 1) / 20)
      (max_lockable_amplitude g.settings g.sideband_offset_v)

abbrev pub allowance : Stage → ℕ
allowance g = center_step_allowance g.settings g.amplitude_v g.sideband_offset_v

-- The factor of the schedule, in parts of 10^12.
scheduled_factor : Stage → ℕ
unfolding target_amplitude
scheduled_factor g =
    if ltb (4 * target_amplitude g) g.amplitude_v then 500000000000 else 750000000000

abbrev gentled : ℕ → ℕ → ℕ → ℕ
gentled factor step shift =
    if leb shift epsilon
    then factor
    else min_ℕ 900000000000 (max_ℕ factor (1000000000000 - step * 1000000000000 / shift))

unfoldable pub next_amplitude : Stage → ℕ
unfolding scheduled_factor target_amplitude center_step_allowance
next_amplitude g =
    let factor = gentled (scheduled_factor g) (allowance g) (or_zero g.shift_per_fraction) in
    min_ℕ g.amplitude_v (max_ℕ (target_amplitude g) (g.amplitude_v * factor / 1000000000000))

abbrev pub signal_width : Option ℕ → Option ℕ
signal_width none = none
signal_width (some sideband) = some (2 * sideband)

-- What the width change leaves of the stage's allowance.
pub centre_budget : Stage → ℕ → ℕ
unfolding center_step_allowance
centre_budget g next =
    allowance g - or_zero g.shift_per_fraction * (g.amplitude_v - next) / g.amplitude_v

unfoldable pub combined_center : Stage → ℕ → ℤ
unfolding centre_budget bounded_recenter
combined_center g next =
    bounded_recenter g.center_v g.target_v g.amplitude_v (signal_width g.sideband_offset_v)
      g.settings.max_center_step_signal_widths next (some (centre_budget g next))

abbrev pub echo : Action → Stage → Step
echo a g = record { action = a; center_v = g.center_v; amplitude_v = g.amplitude_v }

-- Narrowing to `next`, or, where the floor left no cut, moving the centre alone.
unfoldable pub after_floor : Stage → ℕ → Step
unfolding combined_center
after_floor g next =
    let center = combined_center g next in
    if leb g.amplitude_v (next + epsilon)
    then if ltb move_epsilon (to_ℕ (abs_ℤ (center -ℤ g.center_v)))
      then record { action = recenter; center_v = center; amplitude_v = g.amplitude_v }
      else echo refuse g
    else record { action = narrow; center_v = center; amplitude_v = next }

abbrev pub guarded : Stage → ℕ → Option ℕ → Step
guarded g next none = echo refuse g
guarded g next (some safe) =
    after_floor g (if ltb next safe then min_ℕ g.amplitude_v safe else next)

-- The crop guard, on what is left of the offset once the centre has moved.
unfoldable pub crop_guard : Stage → ℕ → Step
unfolding combined_center min_safe_amplitude after_floor target_amplitude
crop_guard g next =
    let center = combined_center g next in
    let residual = to_ℕ (abs_ℤ (g.target_v -ℤ center)) in
    if ltb next (2 * residual)
    then guarded g next (
        min_safe_amplitude g.amplitude_v residual (or_zero g.shift_per_fraction)
          (target_amplitude g))
    else record { action = narrow; center_v = center; amplitude_v = next }

unfoldable pub plan_refinement_step : Stage → Step
unfolding scan_too_wide_to_lock next_amplitude crop_guard
plan_refinement_step g =
    let next = next_amplitude g in
    if g.strict
      && not (scan_too_wide_to_lock g.settings g.amplitude_v g.sideband_offset_v g.trace_length)
    then echo done g
    else if leb g.amplitude_v (next + epsilon)
    then echo done g
    else crop_guard g next
