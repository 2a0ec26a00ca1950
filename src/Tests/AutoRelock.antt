-- ===== src/Tests/AutoRelock.antt =====
-- Concrete runs of linien-gateway/app/auto_relock.py.
use linien_multi_device.Prelude.{
  ℤ, pos, ◌≤◌, ◌≢◌, true, false, none, some, List, [], ◌∷◌, ◌≡◌, inr, refl, arith, ◌-ℤ◌,
}
use linien_multi_device.Payload.{PyText}
use linien_multi_device.AutoRelock.{
  Config, Controller, lost_pending, waiting_unlocked_trace, verifying, cooldown, sweep, relock,
  locked, lost, init, elapsed, is_lost, has_fresh_unlocked_trace, tick, complete_action,
}
use linien_multi_device.AutoRelock.Invariant.{
  IsWellFormed, Call, tick_call, complete_call, config_call, run, run-init-IsWellFormed,
  complete_action_cancelled,
}
use linien_multi_device.AutoRelock.Attempts.{Explains, tick-Explains, run-attempts}
use linien_multi_device.AutoRelock.Cycle.{
  Tick, tick_of, ticks, IsQuiet, AtRest, Succeeded, relock_cycle,
}
use linien_multi_device.AutoRelock.Cooldown.{Cools, ticks-Cools}
use linien_multi_device.AutoRelock.Settings.{defaults, set_enabled, IsNormal, set_enabled-true}

abbrev config : Config
config = record defaults { enabled = true }

-- Text is never a number here, and stands as it is.
abbrev plain_text : PyText
plain_text = record { strip_lower = λ s. s; float_of = λ s. none }

config-IsNormal : IsNormal config
config-IsNormal = ground arith

abbrev fresh : Controller
fresh = init config true

-- Lost since 0, at a clock of 0.8 s.
abbrev lost_controller : Controller
lost_controller = record fresh { state = lost_pending; lost_since = some (pos 0) }

-- A sweep that was handed out at 0.8 s and has not come back.
abbrev sweeping : Controller
sweeping = record lost_controller {
  attempts = 1;
  pending_action = some sweep;
  lost_since = none;
  retry_primed = false;
}

abbrev waiting : Controller
waiting = record fresh {
  state = waiting_unlocked_trace;
  wait_since = some (pos 900000);
  attempts = 1;
}

abbrev verified : Controller
verified = record fresh {
  state = verifying;
  verify_since = some (pos 1000000);
  verify_good_since = some (pos 1000000);
  attempts = 1;
}

abbrev cooling_down : Controller
cooling_down = record fresh { state = cooldown; cooldown_until = some (pos 9000000) }

cooling_down-IsWellFormed : IsWellFormed cooling_down
cooling_down-IsWellFormed = ground arith

abbrev calls : List Call
calls =
    tick_call false none none (pos 0)
    ∷ tick_call false (some lost) none (pos 800000)
    ∷ complete_call sweep true none (pos 900000)
    ∷ tick_call false none (some (pos 950000)) (pos 1000000)
    ∷ []

run-init-IsWellFormed_example : IsWellFormed (run (config_call defaults ∷ calls) (init config true))
run-init-IsWellFormed_example = run-init-IsWellFormed config true (config_call defaults ∷ calls)

complete_action_cancelled_example :
    complete_action sweep true none (pos 5000000) cooling_down ≡ cooling_down
complete_action_cancelled_example =
    complete_action_cancelled sweep true none (pos 5000000) cooling_down cooling_down-IsWellFormed
      (inr refl)

tick-Explains_example :
    Explains false none
      (some (pos 950000))
      (pos 1000000)
      waiting
      (tick false none (some (pos 950000)) (pos 1000000) waiting)
tick-Explains_example = tick-Explains false none (some (pos 950000)) (pos 1000000) waiting

run-attempts_example : (run calls fresh).attempts ≤ 2
run-attempts_example = run-attempts calls fresh tt (omega arith)

abbrev lost_tick : ℤ → Tick
lost_tick ts = record { lock = true; indicator = some lost; trace_at = none; ts = ts }

abbrev blind_tick : ℤ → Tick
blind_tick ts = record { lock = false; indicator = none; trace_at = none; ts = ts }

abbrev trace_tick : ℤ → Tick
trace_tick ts = record { lock = false; indicator = none; trace_at = some ts; ts = ts }

abbrev good_tick : ℤ → Tick
good_tick ts = record { lock = true; indicator = some locked; trace_at = none; ts = ts }

fresh-AtRest : AtRest fresh
fresh-AtRest = record {
  enabled = refl;
  in_phase = refl;
  pending_action = refl;
  cooldown_until = refl;
  retry_primed = refl;
}

-- Lost from 0 on and again at 0.4 s, swept at 0.9 s, blind at 0.92 s, good from 1.2 s to 2.4 s.
relock_cycle_example :
    let (c1, a1) = tick_of (lost_tick (pos 0)) fresh in
    let (c2, lost_actions) = ticks (lost_tick (pos 400000) ∷ []) c1 in
    let (c3, a3) = tick_of (lost_tick (pos 800000)) c2 in
    let c4 = complete_action sweep true none (pos 900000) c3 in
    let (c5, blind_actions) = ticks (blind_tick (pos 920000) ∷ []) c4 in
    let (c6, a6) = tick_of (trace_tick (pos 950000)) c5 in
    let c7 = complete_action relock true none (pos 1100000) c6 in
    let (c8, a8) = tick_of (good_tick (pos 1200000)) c7 in
    let (c9, good_actions) = ticks (good_tick (pos 1300000) ∷ []) c8 in
    let (c10, a10) = tick_of (good_tick (pos 2400000)) c9 in
    (a1 ≡ none)
    × IsQuiet lost_actions
    × (a3 ≡ some sweep)
    × IsQuiet blind_actions
    × (a6 ≡ some relock)
    × (a8 ≡ none)
    × IsQuiet good_actions
    × (a10 ≡ none)
    × Succeeded (pos 2400000) c10
unfolding elapsed is_lost has_fresh_unlocked_trace ◌-ℤ◌
relock_cycle_example =
    relock_cycle fresh (lost_tick (pos 0)) (lost_tick (pos 800000)) (trace_tick (pos 950000))
      (good_tick (pos 1200000)) (good_tick (pos 2400000)) (lost_tick (pos 400000) ∷ [])
      (blind_tick (pos 920000) ∷ []) (good_tick (pos 1300000) ∷ []) (pos 900000) (pos 1100000)
      fresh-AtRest refl (omega arith) (refl, refl) ((refl, refl, refl), tt) (refl, refl) refl
      ((refl, refl), tt) refl (refl, refl, refl) ((refl, refl, refl), tt) (refl, refl) refl

abbrev cooling_controller : Controller
cooling_controller = record fresh { state = cooldown; cooldown_until = some (pos 5000000) }

ticks-Cools_example :
    let (c1, actions) = ticks (lost_tick (pos 1000000) ∷ []) cooling_controller in
    let (c2, a) = tick_of (lost_tick (pos 5000000)) c1 in
    IsQuiet actions
    × Cools (pos 5000000) c1
    × (a ≡ none)
    × (c2.state ≢ cooldown)
    × (c2.cooldown_until ≡ none)
ticks-Cools_example =
    ticks-Cools (pos 5000000) (lost_tick (pos 1000000) ∷ []) (lost_tick (pos 5000000))
      cooling_controller
      (record { enabled = refl; in_phase = refl; cooldown_until = refl; lost_since = refl })
      (refl, tt) refl

sweeping-IsWellFormed : IsWellFormed (record sweeping { lost_since = some (pos 0) })
sweeping-IsWellFormed = ground arith

-- A sweep is pending when the controller is switched on again, and stays so.
set_enabled-true_example : set_enabled plain_text true sweeping ≡ sweeping
set_enabled-true_example = set_enabled-true plain_text sweeping config-IsNormal
