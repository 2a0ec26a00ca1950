-- ===== src/LockRefinement.antt =====
-- linien-gateway/app/lock_refinement.py: the bounded centre step and the planning of one refinement
-- stage, with the scan-width test of linien-gateway/app/auto_lock_scan.py. A voltage is an integer, in
-- picovolts, so 1 V is `volt`; widths and amplitudes are natural numbers. Quotients are exact but for
-- their rounding to a picovolt: down, and up where the quotient is a floor for the scan.
pub mod Recenter
pub mod Plan
pub mod Steps
pub mod Acceptance
pub mod Window
pub mod Identity
pub mod Tracking
use linien_multi_device.Prelude.{
  ℕ, ◌+◌, ◌-◌, ◌*◌, ◌/◌, ◌%◌, ℤ, pos, negsuc, ◌+ℤ◌, ◌-ℤ◌, ltb_ℤ, leb_ℤ, max_ℤ, min_ℤ, abs_ℤ, Bool,
  true, false, not, ◌&&◌, ◌||◌, Option, none, some, ltb, leb, ◌==◌, if◌then◌else◌,
}
use linien_multi_device.Prelude.Int.{to_ℕ}

abbrev pub volt : ℕ
volt = 1000000000000

-- _RAIL_EPSILON_V and _NARROW_SCHEDULE_EPSILON_V, and _CENTER_MOVE_EPSILON_V.
abbrev pub epsilon : ℕ
epsilon = 1000

abbrev pub move_epsilon : ℕ
move_epsilon = 1000000

abbrev pub million : ℕ
million = 1000000

abbrev pub min_ℕ : ℕ → ℕ → ℕ
min_ℕ a b = if ltb b a then b else a

abbrev pub max_ℕ : ℕ → ℕ → ℕ
max_ℕ a b = if ltb a b then b else a

-- The fields of AutoLockScanSettings that refinement reads; the two factors are in millionths.
pub record ScanSettings : Type 0 where
  pub is_pdh : Bool
  pub half_range_sweep_v : ℕ
  pub smooth_window_pts : ℕ
  pub min_signal_scan_fraction : ℕ
  pub max_center_step_signal_widths : ℕ

abbrev capped : ℕ → Option ℕ → ℕ
capped bound none = bound
capped bound (some b) = min_ℕ bound b

-- The bound of the signal's width, where it and the factor are given.
abbrev width_bound : Option ℕ → ℕ → Option ℕ
width_bound none widths = none
width_bound (some width) widths =
    if width == 0 || widths == 0 then none else some (widths * width / million)

-- How far one centre step may go.
pub step_bound : ℕ → Option ℕ → ℕ → Option ℕ → ℕ
step_bound amplitude signal_width widths budget =
    capped (capped (amplitude / 4) (width_bound signal_width widths)) budget

-- `min(hi, max(lo, target))`, with the rails where the centre respects them.
pub clamp_step : ℤ → ℤ → ℕ → ℕ → ℤ
clamp_step center target bound rail_amplitude =
    let lo = center -ℤ pos bound in
    let hi = center +ℤ pos bound in
    let rail_lo = pos rail_amplitude -ℤ pos volt in
    let rail_hi = pos volt -ℤ pos rail_amplitude in
    if leb_ℤ rail_lo rail_hi
      && leb_ℤ (rail_lo -ℤ pos epsilon) center
      && leb_ℤ center (rail_hi +ℤ pos epsilon)
    then min_ℤ (min_ℤ hi rail_hi) (max_ℤ (max_ℤ lo rail_lo) target)
    else min_ℤ hi (max_ℤ lo target)

pub bounded_recenter : ℤ → ℤ → ℕ → Option ℕ → ℕ → ℕ → Option ℕ → ℤ
unfolding step_bound clamp_step
bounded_recenter center target amplitude signal_width widths rail_amplitude budget =
    clamp_step center target (step_bound amplitude signal_width widths budget) rail_amplitude

pub center_step_allowance : ScanSettings → ℕ → Option ℕ → ℕ
center_step_allowance s amplitude none = amplitude / 4
center_step_allowance s amplitude (some sideband) =
    if s.max_center_step_signal_widths == 0
    then amplitude / 4
    else min_ℕ (amplitude / 4) (s.max_center_step_signal_widths * 2 * sideband / million)
