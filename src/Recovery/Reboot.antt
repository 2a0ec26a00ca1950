-- ===== src/Recovery/Reboot.antt =====
-- linien-gateway/app/device_recovery.py: reboot_device, and from linien-gateway/app/session.py the worker
-- _run_reboot around it. What the board, its SSH server and the callbacks answer is the parameter
-- `Board`, by the number of the question; the clock is in microseconds.
use linien_multi_device.Prelude.{
  ℕ, zero, suc, ◌+◌, ℤ, Bool, true, false, not, ◌||◌, ◌&&◌, none, some, String, List, [], ◌∷◌,
  str_eq, ltb, ◌==◌, if◌then◌else◌,
}
use linien_multi_device.Recovery.{
  Session, Phase, dispatching, waiting_for_boot, host_online, completed, Event, reboot_completed,
  reboot_failed, set_recovery_phase, reset_connection_state,
}

-- One SSH command: the login refused, an exception, or an exit code and the stripped output.
pub data Ssh : Type 0 where
  login_refused : Ssh
  broken : String → Ssh
  ran : ℕ → String → Ssh

pub data Read : Type 0 where
  auth_failed : Read
  read_failed : String → Read
  boot_id : String → Read

pub read_boot_id : Ssh → Read
read_boot_id login_refused = auth_failed
read_boot_id (broken error) = read_failed error
read_boot_id (ran exited id) =
    if not (exited == 0) || str_eq id ""
    then read_failed "Could not read the Red Pitaya boot ID over SSH"
    else boot_id id

-- Sending the reboot command: the connection fails, the command raises, or it exits.
pub data Sent : Type 0 where
  open_refused : Sent
  open_failed : Sent
  send_failed : Sent
  exited : ℕ → Sent

pub record Board : Type 0 where
  pub cancelled_before : Bool
  pub first : Ssh
  pub cancelled_after : Bool
  pub cancelled_dispatching : Bool
  pub allows : Phase → Bool
  pub sent : Sent
  pub cancelled_at : ℕ → Bool
  pub answer : ℕ → Ssh
  pub took : ℕ → ℕ

pub data Outcome : Type 0 where
  rebooted : String → Outcome
  recovery_cancelled : Outcome
  raised : String → Outcome
  out_of_fuel : Outcome

-- REBOOT_TIMEOUT_S and REBOOT_POLL_INTERVAL_S.
abbrev pub timeout_us : ℕ
timeout_us = 180000000

abbrev pub interval_us : ℕ
interval_us = 2000000

-- One round of the loop behind its two guards; `rest` is what follows its sleep.
unfoldable pub round : Board → String → Read → Outcome × List Phase → Outcome × List Phase
round b previous auth_failed rest = (raised "SSH authentication failed after reboot", [])
round b previous (read_failed _) rest = rest
round b previous (boot_id id) rest =
    if str_eq id previous
    then rest
    else if b.allows host_online
    then (rebooted id, host_online ∷ [])
    else (recovery_cancelled, [])

-- The loop from its `k`-th round on, with the phases that it sets.
unfoldable pub wait : Board → String → ℕ → ℕ → ℕ → ℕ → Outcome × List Phase
unfolding round read_boot_id
wait b previous zero k now deadline = (out_of_fuel, [])
wait b previous (suc fuel) k now deadline =
    let rest = wait b previous fuel (k + 1) (now + b.took k + interval_us) deadline in
    if ltb now deadline
    then if b.cancelled_at k
      then (recovery_cancelled, [])
      else round b previous (read_boot_id (b.answer k)) rest
    else (raised "Timed out waiting for the Red Pitaya to reboot", [])

-- At most 90 rounds fit between the start and the deadline.
abbrev pub rounds : ℕ
rounds = 91

unfoldable pub wait_for_boot : Board → String → ℕ → Outcome × List Phase
wait_for_boot b previous now =
    if b.allows waiting_for_boot
    then (let (outcome, phases) = wait b previous rounds 0 now (now + timeout_us) in
        (outcome, dispatching ∷ waiting_for_boot ∷ phases))
    else (recovery_cancelled, dispatching ∷ [])

unfoldable pub dispatch : Board → String → ℕ → Sent → Outcome × List Phase
unfolding wait_for_boot
dispatch b previous now open_refused = (raised "SSH authentication failed", dispatching ∷ [])
dispatch b previous now open_failed =
    (raised "Could not dispatch the remote reboot command", dispatching ∷ [])
dispatch b previous now send_failed = wait_for_boot b previous now
dispatch b previous now (exited code) =
    let sent = wait_for_boot b previous now in
    if code == 0 then sent else (raised "The remote reboot command was rejected", dispatching ∷ [])

unfoldable pub after_read : Board → ℕ → Read → Outcome × List Phase
unfolding dispatch
after_read b now auth_failed = (raised "SSH authentication failed", [])
after_read b now (read_failed error) = (raised error, [])
after_read b now (boot_id previous) =
    let dispatched = dispatch b previous now b.sent in
    if b.cancelled_after || not (b.allows dispatching)
    then (recovery_cancelled, [])
    else if b.cancelled_dispatching
    then (recovery_cancelled, dispatching ∷ [])
    else dispatched

-- `now` is the clock when the wait begins.
unfoldable pub reboot_device : Board → ℕ → Outcome × List Phase
unfolding after_read read_boot_id
reboot_device b now =
    if b.cancelled_before then (recovery_cancelled, []) else after_read b now (read_boot_id b.first)

abbrev is_dispatching : Phase → Bool
is_dispatching dispatching = true
is_dispatching _ = false

-- The callback that _run_reboot passes: false where it raises RecoveryCancelled.
unfoldable pub update_phase : ℤ → String → Phase → Session → Session × Bool
unfolding set_recovery_phase reset_connection_state
update_phase now id phase s =
    let (s', set) = set_recovery_phase true now id phase none s in
    let (s'', _) = reset_connection_state none false s' in
    if set && is_dispatching phase then (s'', set) else (s', set)

-- What _run_reboot does with the outcome.
unfoldable pub finish_reboot : ℤ → String → Outcome → Session → Session × List Event
unfolding set_recovery_phase reset_connection_state
finish_reboot now id (rebooted _) s =
    let (s', set) = set_recovery_phase true now id completed none s in
    let (s'', _) = reset_connection_state none false s' in
    if set then (s'', reboot_completed id ∷ []) else (s', [])
finish_reboot now id recovery_cancelled s = (s, [])
finish_reboot now id (raised error) s =
    let (s', set) = set_recovery_phase true now id Phase.failed (some error) s in
    if set then (s', reboot_failed id error ∷ []) else (s', [])
finish_reboot now id out_of_fuel s = (s, [])

unfoldable pub set_phases : ℤ → String → List Phase → Session → Session
unfolding update_phase
set_phases now id [] s = s
set_phases now id (phase ∷ rest) s =
    let (s', _) = update_phase now id phase s in set_phases now id rest s'

-- The whole worker where nothing interleaves with it and each save succeeds.
unfoldable pub run_reboot : Board → ℕ → ℤ → String → Session → Session × List Event
unfolding reboot_device set_phases finish_reboot
run_reboot b clock now id s =
    let (outcome, phases) = reboot_device b clock in
    finish_reboot now id outcome (set_phases now id phases s)
