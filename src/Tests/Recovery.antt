-- ===== src/Tests/Recovery.antt =====
-- Concrete runs of linien-gateway/app/device_recovery.py and of the recovery in
-- linien-gateway/app/session.py.
use linien_multi_device.Prelude.{
  ◌≡◌, refl, pos, true, false, none, some, List, [], ◌∷◌, ◌==◌, if◌then◌else◌,
}
use linien_multi_device.Recovery.{
  start_reboot, connect, persist_recovery, Session, Phase, queued, completed, dispatching, Recovery,
  init, is_active,
}
use linien_multi_device.Recovery.Reboot.{
  Board, ran, broken, exited, rebooted, reboot_device, run_reboot, wait,
}
use linien_multi_device.Recovery.Calls.{
  Call, run, step, start_reboot_call, set_phase_call, cancel_call, connect_async_call, connect_call,
  poll_failure_call,
}
use linien_multi_device.Recovery.Edges.{Edge, IsKept, step-Edge, run-IsKept}
use linien_multi_device.Recovery.Invariant.{
  IsConsistent, IsGuarded, run-init-IsConsistent, run-init-IsGuarded,
}
use linien_multi_device.Recovery.Waiting.{is_decided, reboot_device-Decided}
use linien_multi_device.Recovery.Outcome.{IsProven, reboot_device-IsProven}
use linien_multi_device.Recovery.Completion.{run_reboot-ends}

abbrev recovery : Recovery
recovery = record {
  operation_id = "op";
  phase = queued;
  started_at = pos 1;
  updated_at = pos 1;
  error = none;
}

-- A board that is away for three rounds and then answers another id.
abbrev board : Board
board = record {
  cancelled_before = false;
  first = ran 0 "one";
  cancelled_after = false;
  cancelled_dispatching = false;
  allows = λ p. true;
  sent = exited 0;
  cancelled_at = λ k. false;
  answer = λ k. if k == 3 then ran 0 "two" else broken "unreachable";
  took = λ k. 500000;
}

abbrev session : Session
session = record {
  connected = false;
  connecting = false;
  last_error = none;
  last_connected_at = none;
  last_healthy_boot_id = none;
  diagnosis_cache = none;
  last_diagnosis_category = none;
  wants_diagnosis = false;
  recovery = some recovery;
  recovery_cancel = false;
  removed = false;
  saved_recovery = some recovery;
  saved_healthy = none;
}

abbrev cancelled_session : Session
cancelled_session = record session {
  recovery = some (record recovery { phase = Phase.cancelled });
  recovery_cancel = true;
}

abbrev calls : List Call
calls =
    start_reboot_call true (pos 1) "op"
    ∷ connect_async_call
    ∷ set_phase_call true (pos 2) "op" dispatching none
    ∷ cancel_call true (pos 3) false
    ∷ set_phase_call true (pos 4) "op" completed none
    ∷ connect_call (pos 5) false none none none
    ∷ poll_failure_call "gone"
    ∷ []

board_reboots : let (outcome, _) = reboot_device board 0 in outcome ≡ rebooted "two"
unfolding reboot_device wait
board_reboots = refl

reboot_device-Decided_example :
    let (outcome, _) = reboot_device board 0 in is_decided outcome ≡ true
reboot_device-Decided_example = reboot_device-Decided board 0

reboot_device-IsProven_example : IsProven board (reboot_device board 0)
reboot_device-IsProven_example = reboot_device-IsProven board 0

run_reboot-ends_example :
    let (s', _) = run_reboot board 0 (pos 9) "op" session in is_active s'.recovery ≡ false
unfolding reboot_device wait
run_reboot-ends_example = run_reboot-ends board 0 (pos 9) "op" session (refl, (refl, refl)) refl

run-init-IsConsistent_example : IsConsistent (run calls (init (pos 0) (some recovery) none))
run-init-IsConsistent_example =
    run-init-IsConsistent calls (pos 0) (some recovery) none
      (refl, (tt, (refl, (refl, (refl, ((refl, refl), (tt, tt)))))))

-- A reboot whose record could not be saved: nothing connects then, since it counts as running.
abbrev unsaved_calls : List Call
unsaved_calls =
    start_reboot_call false (pos 1) "op" ∷ connect_call (pos 2) false none none none ∷ []

run-init-IsGuarded_example : IsGuarded (run unsaved_calls (init (pos 0) none none))
run-init-IsGuarded_example = run-init-IsGuarded unsaved_calls (pos 0) none none

unsaved_reboot_stuck :
    let s = run unsaved_calls (init (pos 0) none none) in
    (is_active s.recovery ≡ true) × ((s.connected ≡ false) × (s.saved_recovery ≡ none))
unfolding run step init start_reboot connect persist_recovery
unsaved_reboot_stuck = (refl, (refl, refl))

step-Edge_example :
    Edge true none
      (step (start_reboot_call true (pos 1) "op") (record session { recovery = none })).recovery
step-Edge_example =
    step-Edge (start_reboot_call true (pos 1) "op") (record session { recovery = none })

abbrev late_calls : List Call
late_calls =
    set_phase_call true (pos 4) "op" completed none
    ∷ connect_call (pos 5) false none none none
    ∷ poll_failure_call "gone"
    ∷ []

run-IsKept_example : IsKept cancelled_session.recovery (run late_calls cancelled_session).recovery
run-IsKept_example = run-IsKept late_calls cancelled_session refl refl
