-- ===== src/Tests/Diagnosis.antt =====
-- Concrete runs of linien-gateway/app/diagnosis.py.
use linien_multi_device.Prelude.{
  ◌+◌, ◌≤◌, ℤ, pos, true, false, Option, none, some, String, List, [], ◌∷◌, ◌≡◌, refl, negsuc,
}
use linien_multi_device.Diagnosis.{
  Ssh, connected, LockRead, methods, value, failed, looks_rebooted, probe_device, rebooted, locked,
  read_lock_bit, classify_diagnosis, probe_ssh, should_read, is_true, judge, judge_up,
  judge_crashed, judge_gateware, has_bit, read_methods, run_lock_bit_cmd, or_no_value, differ,
  younger_than,
}
use linien_multi_device.BoardEvents.{is_given}
use linien_multi_device.Diagnosis.Verdict.{diagnose, diagnosis_locked}
use linien_multi_device.Diagnosis.Schedule.{Probe, init, Session}
use linien_multi_device.Diagnosis.Schedule.Counts.{times, times_due}
use linien_multi_device.Diagnosis.Schedule.Exclusive.{
  Event, requested, dispatched, ended, run, run-IsExclusive,
}

-- The board answers with its gateware loaded; monitor fails, the second method reads 1.
abbrev answer : Ssh
answer =
    connected (some (pos 90000000)) (some true) (some "boot-1")
      (methods (("monitor", failed "not found") ∷ ("devmem", value 1) ∷ []))

abbrev other_boot : Ssh
other_boot =
    connected (some (pos 90000000)) (some true) (some "boot-2")
      (methods (("monitor", value 1) ∷ []))

answer-locked :
    (diagnose "rp-1" false none (pos 0) (pos 120000000) (some "boot-1") true answer).lock_state
    ≡ locked
unfolding classify_diagnosis judge judge_up judge_crashed judge_gateware has_bit probe_device
    probe_ssh should_read is_true looks_rebooted differ younger_than is_given read_lock_bit
    read_methods run_lock_bit_cmd or_no_value
answer-locked = refl

other_boot-rebooted :
    (diagnose "rp-1" false none (pos 0) (pos 120000000) (some "boot-1") true other_boot).category
    ≡ rebooted
unfolding classify_diagnosis judge judge_up judge_crashed judge_gateware has_bit probe_device
    probe_ssh should_read is_true looks_rebooted differ younger_than is_given read_lock_bit
    read_methods run_lock_bit_cmd or_no_value
other_boot-rebooted = refl

diagnosis_locked_example :
    (uptime : ℤ) × (boot_id : Option String) × (register : LockRead) × (answer
      ≡ connected (some uptime) (some true) boot_id register)
    × (looks_rebooted uptime none (pos 120000000) (some "boot-1") boot_id ≡ false)
    × ((read_lock_bit register).0 ≡ some 1)
diagnosis_locked_example =
    diagnosis_locked "rp-1" false none (pos 0) (pos 120000000) (some "boot-1") true answer
      answer-locked

abbrev down : Session
down = record {
  connected = false;
  connecting = false;
  wants_diagnosis = true;
  recovery_active = false;
  host = "rp-1";
  since = none;
  last_healthy_boot_id = none;
}

abbrev events : List Event
events =
    requested "d1" (pos 0) (pos 5)
    ∷ requested "d1" (negsuc 3) (pos 6)
    ∷ dispatched true (pos 7)
    ∷ requested "d1" (pos 0) (pos 8)
    ∷ ended "d1" (some down) (pos 9)
    ∷ dispatched false (pos 30000000)
    ∷ []

run-IsExclusive_example :
    times_due "d1" (run events (init (pos 20000000))).heap
      + times "d1" (run events (init (pos 20000000))).running
    ≤ 1
run-IsExclusive_example = run-IsExclusive (pos 20000000) events "d1"

abbrev scheduled : Probe
scheduled = record (init (pos 20000000)) {
  heap =
      record { due = pos 5; seq = 0; key = "d1" }
      ∷ record { due = pos 9; seq = 1; key = "d2" }
      ∷ [];
  pending = "d1" ∷ "d2" ∷ [];
  next_seq = 2;
}
