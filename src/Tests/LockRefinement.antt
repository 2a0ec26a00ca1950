-- ===== src/Tests/LockRefinement.antt =====
-- Concrete runs of linien-gateway/app/lock_refinement.py and linien-gateway/app/lock_acceptance.py.
use linien_multi_device.Prelude.{pos, ◌+ℤ◌, ◌-ℤ◌, ◌≡◌, refl, true, none, some, List, [], ◌∷◌}
use linien_multi_device.LockRefinement.{ScanSettings}
use linien_multi_device.LockRefinement.Plan.{Stage, Step, narrow, plan_refinement_step}
use linien_multi_device.LockRefinement.Steps.{Allows, plan_refinement_step-Allows}
use linien_multi_device.LockRefinement.Acceptance.{AcceptanceSettings, acceptance_window}
use linien_multi_device.LockRefinement.Window.{Guards, acceptance_window-Guards}
use linien_multi_device.LockRefinement.Identity.{IdentityGuard, Check, strict, coarse, init, run}
use linien_multi_device.LockRefinement.Tracking.{Tracks, run-Tracks}

abbrev settings : ScanSettings
settings = record {
  is_pdh = true;
  half_range_sweep_v = 2000000000;
  smooth_window_pts = 5;
  min_signal_scan_fraction = 166667;
  max_center_step_signal_widths = 1000000;
}

-- A scan of 0.8 V about 0.1 V, with the target at 0.12 V and a sideband spacing of 17 mV.
abbrev stage : Stage
stage = record {
  settings = settings;
  center_v = pos 100000000000;
  amplitude_v = 800000000000;
  target_v = pos 120000000000;
  sideband_offset_v = some 17000000000;
  strict = true;
  trace_length = 2048;
  shift_per_fraction = some 20000000000;
}

abbrev narrowed : Step
narrowed = record { action = narrow; center_v = pos 120000000000; amplitude_v = 400000000000 }

plan_narrowed : plan_refinement_step stage ≡ narrowed
unfolding plan_refinement_step ◌-ℤ◌ ◌+ℤ◌
plan_narrowed = refl

plan_refinement_step-Allows_example : Allows stage (plan_refinement_step stage)
plan_refinement_step-Allows_example = plan_refinement_step-Allows stage

abbrev acceptance : AcceptanceSettings
acceptance = record {
  capture_fraction = pos 500000;
  max_correction_span = pos 4000000;
  settle_ms = 300;
}

acceptance_window_tight :
    acceptance_window acceptance 80000000000 (some 30000000000)
    ≡ record { tolerance_v = 6000000000; bound_v = some 12000000000; tightened = true }
unfolding acceptance_window
acceptance_window_tight = refl

acceptance_window-Guards_example :
    Guards acceptance 80000000000
      (some 30000000000)
      (acceptance_window acceptance 80000000000 (some 30000000000))
acceptance_window-Guards_example =
    acceptance_window-Guards acceptance 80000000000 (some 30000000000)

abbrev guard : IdentityGuard
guard = record {
  slope = true;
  strict_baseline = some (record { sideband_v = 16900000000; resolution = 6100 });
  coarse_baseline = none;
  trace_length = 2048;
}

started_guard : init true (some 16900000000) 6100 2048 strict ≡ guard
unfolding init
started_guard = refl

-- A better resolved reading, the first of the other detector, and one of the old resolution.
abbrev checks : List Check
checks =
    record {
      target_slope_rising = true;
      sideband_offset_v = some 23600000000;
      amplitude_v = 400000000000;
      detector = strict;
      resolution_samples = 8800;
      check_sideband = true;
    }
    ∷ record {
      target_slope_rising = true;
      sideband_offset_v = some 32300000000;
      amplitude_v = 400000000000;
      detector = coarse;
      resolution_samples = 8800;
      check_sideband = true;
    }
    ∷ record {
      target_slope_rising = true;
      sideband_offset_v = some 22000000000;
      amplitude_v = 400000000000;
      detector = strict;
      resolution_samples = 8800;
      check_sideband = true;
    }
    ∷ []

accepted_walk :
    run (some guard) checks
    ≡ some (record {
      slope = true;
      strict_baseline = some (record { sideband_v = 23600000000; resolution = 8800 });
      coarse_baseline = some (record { sideband_v = 32300000000; resolution = 8800 });
      trace_length = 2048;
    })
unfolding run
accepted_walk = refl

run-Tracks_example : Tracks guard checks (run (some guard) checks)
run-Tracks_example = run-Tracks guard checks
