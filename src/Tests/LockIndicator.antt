-- ===== src/Tests/LockIndicator.antt =====
-- Concrete runs of linien-gateway/app/lock_indicator.py.
use linien_multi_device.Prelude.{
  ℤ, pos, true, false, none, some, [], ◌∷◌, ◌≡◌, ◌≢◌, ◌∙◌, refl, arith,
}
use linien_multi_device.Payload.{PyText}
use linien_multi_device.AutoRelock.{lost}
use linien_multi_device.LockIndicator.{
  Config, Stats, Evaluator, init, update, bad_reasons, reason_if, control_reasons, error_reasons,
  monitor_reasons, hard_fail,
}
use linien_multi_device.LockIndicator.Settings.{defaults, IsNormal}
use linien_multi_device.LockIndicator.Decision.{IsCounting, IsSound, update-IsSound}
use linien_multi_device.LockIndicator.Frames.{Frame, IsBad, IsGood, update-config, run}
use linien_multi_device.LockIndicator.Streaks.{run_lost}

-- No error signal, which the default configuration asks for.
abbrev blind : Stats
blind = record {
  control_mean_v = some (pos 0);
  control_range_counts = some (pos 5000000);
  error_std_v = none;
  error_mean_abs_v = none;
  monitor_mean_v = none;
}

abbrev frame : Frame
frame = record { stats = blind; ts = pos 1000000; wall = pos 1000000 }

-- No signal is watched, so that every frame looks good.
abbrev lenient : Config
lenient = record defaults {
  use_control = false;
  use_error = false;
  use_monitor = false;
  good_hold_s = pos 50000;
}

abbrev strict : Evaluator
strict = init (record defaults { bad_hold_s = pos 50000 }) (pos 0)

abbrev lost_evaluator : Evaluator
lost_evaluator = record (init lenient (pos 0)) { state = lost }

-- As long a good hold as five frames at most can count.
abbrev patient : Evaluator
patient = record (init (record lenient { good_hold_s = pos 10000000 }) (pos 0)) { state = lost }

defaults-IsNormal : IsNormal defaults
defaults-IsNormal = ground arith

strict-IsCounting : IsCounting strict
strict-IsCounting = ground arith

init-IsCounting : IsCounting (init defaults (pos 0))
init-IsCounting = ground arith

blind_reasons : (stuck rail : ℤ) → bad_reasons strict.config blind stuck rail ≢ []
unfolding bad_reasons reason_if control_reasons error_reasons monitor_reasons
blind_reasons stuck rail h = ground arith

blind-IsBad : (e : Evaluator) → e.config ≡ strict.config → IsBad frame e
blind-IsBad e same = rw same (blind_reasons _ _)

any-IsGood : (hold : ℤ) → IsGood (record lenient { good_hold_s = hold }) frame
unfolding bad_reasons reason_if control_reasons error_reasons monitor_reasons hard_fail
any-IsGood hold stuck rail = (refl, refl)

update-IsSound_example :
    IsSound (update true blind (pos 1000000) (pos 1000000) (init defaults (pos 0)))
    × IsCounting (update true blind (pos 1000000) (pos 1000000) (init defaults (pos 0)))
update-IsSound_example =
    update-IsSound true blind (pos 1000000) (pos 1000000) (init defaults (pos 0)) defaults-IsNormal
      init-IsCounting

run_lost_example : (run (frame ∷ frame ∷ frame ∷ []) strict).state ≡ lost
run_lost_example =
    let second = update true blind (pos 1000000) (pos 1000000) strict in
    let third = update true blind (pos 1000000) (pos 1000000) second in
    let kept = update-config frame strict refl in
    run_lost frame (frame ∷ frame ∷ []) strict refl strict-IsCounting
      (
        blind-IsBad strict refl,
        (
          blind-IsBad second kept,
          (blind-IsBad third (update-config frame second (rw kept refl) ∙ kept), tt),
        ),
      )
      (omega arith)

-- Text is never a number here, and stands as it is.
abbrev py : PyText
py = record { strip_lower = λ s. s; float_of = λ s. none }
