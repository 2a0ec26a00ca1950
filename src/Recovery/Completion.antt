-- ===== src/Recovery/Completion.antt =====
-- linien-gateway/app/session.py: the recovery record at the end of an undisturbed _run_reboot.
use linien_multi_device.Prelude.{
  ℕ, zero, suc, ◌+◌, ◌≡◌, refl, arith, ℤ, Bool, true, false, not, ◌||◌, ◌&&◌, Option, none, some,
  String, List, [], ◌∷◌, str_eq, ltb, ◌==◌, if_intro,
}
use linien_multi_device.Recovery.{
  Phase, dispatching, waiting_for_boot, completed, failed, Session, Recovery, is_active,
  is_finished, set_recovery_phase, reset_connection_state, persist_recovery,
}
use linien_multi_device.Recovery.Reboot.{
  Board, Read, auth_failed, read_failed, boot_id, Sent, open_refused, open_failed, send_failed,
  exited, Outcome, rebooted, recovery_cancelled, raised, out_of_fuel, read_boot_id, round, wait,
  wait_for_boot, dispatch, after_read, reboot_device, timeout_us, interval_us, rounds,
  finish_reboot, update_phase, set_phases, run_reboot,
}
use linien_multi_device.Recovery.Waiting.{reboot_device-Decided, is_decided}

abbrev runs_record : String → Option Recovery → Bool
runs_record id none = false
runs_record id (some r) = str_eq r.operation_id id && not (is_finished r.phase)

-- The operation is the session's, it goes on, and neither a cancel nor a removal has come.
abbrev pub IsRunning : String → Session → Type 0
IsRunning id s =
    (runs_record id s.recovery ≡ true) × ((s.recovery_cancel ≡ false) × (s.removed ≡ false))

set_recovery_phase-sets :
    (now : ℤ) (id : String) (phase : Phase) (error : Option String) (s : Session)
    → IsRunning id s
    → let (s', set) = set_recovery_phase true now id phase error s in
      (set ≡ true)
      × ((runs_record id s'.recovery ≡ not (is_finished phase))
          × ((is_active s'.recovery ≡ not (is_finished phase))
              × ((s'.recovery_cancel ≡ false) × (s'.removed ≡ false))))
unfolding set_recovery_phase persist_recovery
set_recovery_phase-sets now id phase error s h = ground (arith, h)

reset_connection_state-same :
    (error : Option String) (request : Bool) (s : Session)
    → let (s', _) = reset_connection_state error request s in
      (s'.recovery ≡ s.recovery)
      × ((s'.recovery_cancel ≡ s.recovery_cancel) × (s'.removed ≡ s.removed))
unfolding reset_connection_state
reset_connection_state-same error request s = ground arith

update_phase-IsRunning :
    (now : ℤ) (id : String) (phase : Phase) (s : Session)
    → is_finished phase ≡ false
    → IsRunning id s
    → let (s', _) = update_phase now id phase s in IsRunning id s'
unfolding update_phase
update_phase-IsRunning now id phase s p h =
    let (s', _) = set_recovery_phase true now id phase none s in
    ground (
      arith,
      h,
      set_recovery_phase-sets now id phase none s h,
      reset_connection_state-same none false s',
    )

abbrev unfinished : List Phase → Bool
unfinished [] = true
unfinished (p ∷ ps) = not (is_finished p) && unfinished ps

set_phases-IsRunning :
    (now : ℤ) (id : String) (phases : List Phase) (s : Session)
    → unfinished phases ≡ true
    → IsRunning id s
    → IsRunning id (set_phases now id phases s)
unfolding set_phases
set_phases-IsRunning now id [] s p h = h
set_phases-IsRunning now id (phase ∷ rest) s p h =
    let (s', _) = update_phase now id phase s in
    set_phases-IsRunning now id rest s' (ground arith)
      (update_phase-IsRunning now id phase s (ground arith) h)

abbrev Unfinished : Outcome × List Phase → Type 0
Unfinished (_, phases) = unfinished phases ≡ true

round-Unfinished :
    (b : Board) (previous : String) (r : Read) (rest : Outcome × List Phase)
    → Unfinished rest
    → Unfinished (round b previous r rest)
unfolding round
round-Unfinished b previous auth_failed rest h = refl
round-Unfinished b previous (read_failed _) rest h = h
round-Unfinished b previous (boot_id id) rest h = ground (arith, h)

wait-Unfinished :
    (b : Board) (previous : String) (fuel k now deadline : ℕ)
    → Unfinished (wait b previous fuel k now deadline)
unfolding wait
wait-Unfinished b previous zero k now deadline = refl
wait-Unfinished b previous (suc fuel) k now deadline =
    let later = wait-Unfinished b previous fuel (k + 1) (now + b.took k + interval_us) deadline in
    if_intro Unfinished (ltb now deadline) _ _
      (λ _.
        if_intro Unfinished (b.cancelled_at k) _ _ (λ _. refl)
          (λ _. round-Unfinished b previous (read_boot_id (b.answer k)) _ later))
      (λ _. refl)

wait_for_boot-Unfinished :
    (b : Board) (previous : String) (now : ℕ) → Unfinished (wait_for_boot b previous now)
unfolding wait_for_boot
wait_for_boot-Unfinished b previous now =
    if_intro Unfinished (b.allows waiting_for_boot) _ _
      (λ _. wait-Unfinished b previous rounds 0 now (now + timeout_us)) (λ _. refl)

dispatch-Unfinished :
    (b : Board) (previous : String) (now : ℕ) (sent : Sent)
    → Unfinished (dispatch b previous now sent)
unfolding dispatch
dispatch-Unfinished b previous now open_refused = refl
dispatch-Unfinished b previous now open_failed = refl
dispatch-Unfinished b previous now send_failed = wait_for_boot-Unfinished b previous now
dispatch-Unfinished b previous now (exited code) =
    if_intro Unfinished (code == 0) _ _ (λ _. wait_for_boot-Unfinished b previous now) (λ _. refl)

after_read-Unfinished : (b : Board) (now : ℕ) (r : Read) → Unfinished (after_read b now r)
unfolding after_read
after_read-Unfinished b now auth_failed = refl
after_read-Unfinished b now (read_failed error) = refl
after_read-Unfinished b now (boot_id previous) =
    if_intro Unfinished (b.cancelled_after || not (b.allows dispatching)) _ _ (λ _. refl)
      (λ _.
        if_intro Unfinished b.cancelled_dispatching _ _ (λ _. refl)
          (λ _. dispatch-Unfinished b previous now b.sent))

reboot_device-Unfinished : (b : Board) (now : ℕ) → Unfinished (reboot_device b now)
unfolding reboot_device
reboot_device-Unfinished b now =
    if_intro Unfinished b.cancelled_before _ _ (λ _. refl)
      (λ _. after_read-Unfinished b now (read_boot_id b.first))

abbrev pub is_cancel : Outcome → Bool
is_cancel recovery_cancelled = true
is_cancel _ = false

finish_reboot-ends :
    (now : ℤ) (id : String) (o : Outcome) (s : Session)
    → is_decided o ≡ true
    → is_cancel o ≡ false
    → IsRunning id s
    → let (s', _) = finish_reboot now id o s in is_active s'.recovery ≡ false
unfolding finish_reboot
finish_reboot-ends now id (rebooted b) s d c h =
    let (s', _) = set_recovery_phase true now id completed none s in
    ground (
      arith,
      set_recovery_phase-sets now id completed none s h,
      reset_connection_state-same none false s',
    )
finish_reboot-ends now id recovery_cancelled s d c h = cc
finish_reboot-ends now id (raised error) s d c h =
    ground (arith, set_recovery_phase-sets now id failed (some error) s h)
finish_reboot-ends now id out_of_fuel s d c h = cc

-- A worker that runs to its end, where nothing else comes in between, each save succeeds and no cancel is seen: it leaves
-- no active recovery, whatever the board answers.
pub run_reboot-ends :
    (b : Board) (clock : ℕ) (now : ℤ) (id : String) (s : Session)
    → IsRunning id s
    → (let (outcome, _) = reboot_device b clock in is_cancel outcome) ≡ false
    → let (s', _) = run_reboot b clock now id s in is_active s'.recovery ≡ false
unfolding run_reboot
run_reboot-ends b clock now id s h c =
    let (outcome, phases) = reboot_device b clock in
    finish_reboot-ends now id outcome (set_phases now id phases s) (reboot_device-Decided b clock) c
      (set_phases-IsRunning now id phases s (reboot_device-Unfinished b clock) h)
