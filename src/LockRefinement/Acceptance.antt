-- ===== src/LockRefinement/Acceptance.antt =====
-- linien-gateway/app/lock_acceptance.py: the acceptance window and the rejection bound. Fractions are in
-- millionths and may be negative; voltages are in picovolts, rounded down, and a bound is finite.
use linien_multi_device.Prelude.{
  ℕ, ◌*◌, ◌/◌, ℤ, pos, max_ℤ, Bool, true, false, Option, none, some, ltb, ◌==◌, if◌then◌else◌,
}
use linien_multi_device.Prelude.Int.{to_ℕ}
use linien_multi_device.LockRefinement.{million, min_ℕ}

pub record AcceptanceSettings : Type 0 where
  pub capture_fraction : ℤ
  pub max_correction_span : ℤ
  pub settle_ms : ℕ

-- `max(0.0, fraction) * width`.
abbrev pub share : ℤ → ℕ → ℕ
share fraction width = to_ℕ (max_ℤ (pos 0) fraction) * width / million

pub capture_tolerance : AcceptanceSettings → ℕ → ℕ
capture_tolerance s width = share s.capture_fraction width

unfoldable pub rejection_bound : AcceptanceSettings → ℕ → Option ℕ → ℕ
rejection_bound s width none = share s.max_correction_span width
rejection_bound s width (some sideband) =
    let bound = share s.max_correction_span width in
    if sideband == 0 then bound else min_ℕ bound (4 * sideband / 10)

pub record AcceptanceWindow : Type 0 where
  pub tolerance_v : ℕ
  pub bound_v : Option ℕ
  pub tightened : Bool

unfoldable pub acceptance_window : AcceptanceSettings → ℕ → Option ℕ → AcceptanceWindow
unfolding rejection_bound capture_tolerance
acceptance_window s width sideband =
    let raw = rejection_bound s width sideband in
    let tolerance = capture_tolerance s width in
    if raw == 0
    then record { tolerance_v = tolerance; bound_v = none; tightened = false }
    else if ltb raw (2 * tolerance)
    then record { tolerance_v = raw / 2; bound_v = some raw; tightened = true }
    else record { tolerance_v = tolerance; bound_v = some raw; tightened = false }
