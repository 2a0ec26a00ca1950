-- ===== src/Recovery/Calls.antt =====
-- The operations of linien-gateway/app/session.py on the recovery and on the connection, as a data type,
-- and their runs in any order: requests, worker threads and the poll thread interleave freely.
use linien_multi_device.Prelude.{ℤ, Bool, Option, String, List, [], ◌∷◌}
use linien_multi_device.Recovery.{
  Session, Phase, Diagnosis, set_recovery_phase, cancel_recovery, start_reboot, connect_async,
  connect, disconnect, handle_poll_failure, apply_diagnosis, request_diagnosis_probe,
  note_healthy_boot_id, reset_connection_state,
}

pub data Call : Type 0 where
  start_reboot_call : Bool → ℤ → String → Call
  set_phase_call : Bool → ℤ → String → Phase → Option String → Call
  worker_reset_call : Call
  cancel_call : Bool → ℤ → Bool → Call
  connect_async_call : Call
  connect_call : ℤ → Bool → Option String → Option String → Option String → Call
  disconnect_call : Call
  poll_failure_call : String → Call
  diagnosis_call : Diagnosis → Call
  request_call : Call
  boot_id_call : Bool → Option String → Call

unfoldable pub step : Call → Session → Session
step (start_reboot_call saved now id) s = let (s', _) = start_reboot saved now id s in s'
step (set_phase_call saved now id phase error) s =
    let (s', _) = set_recovery_phase saved now id phase error s in s'
step worker_reset_call s = let (s', _) = reset_connection_state Option.none Bool.false s in s'
step (cancel_call saved now removed) s = cancel_recovery saved now removed s
step connect_async_call s = let (s', _) = connect_async s in s'
step (connect_call now reserved outcome dropped healthy) s =
    let (s', _) = connect now reserved outcome dropped healthy s in s'
step disconnect_call s = let (s', _) = disconnect s in s'
step (poll_failure_call error) s = let (s', _) = handle_poll_failure error s in s'
step (diagnosis_call d) s = let (s', _) = apply_diagnosis d s in s'
step request_call s = let (s', _) = request_diagnosis_probe s in s'
step (boot_id_call saved id) s = note_healthy_boot_id saved id s

unfoldable pub run : List Call → Session → Session
run [] s = s
run (c ∷ cs) s = run cs (step c s)
