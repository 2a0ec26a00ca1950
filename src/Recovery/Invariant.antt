-- ===== src/Recovery/Invariant.antt =====
-- linien-gateway/app/session.py: what holds of a session's recovery, connection and diagnosis after any
-- run of its operations.
use linien_multi_device.Prelude.{
  ℤ, Bool, true, false, not, ◌&&◌, ◌||◌, Option, none, some, String, List, [], ◌∷◌, ◌≡◌, refl,
  arith, if_intro,
}
use linien_multi_device.Recovery.{
  Session, Phase, Recovery, LastHealthy, Refusal, is_active, init, persist_recovery,
  persist_last_healthy, clear_diagnosis, clear_finished_recovery, set_recovery_phase,
  cancel_recovery, start_reboot, connect_async, connect, finish_connect, disconnect,
  handle_poll_failure, apply_diagnosis, request_diagnosis_probe, note_healthy_boot_id,
  reset_connection_state, mark_removed, keep_healthy, drop_finished, fail_connect, has_finished,
}
use linien_multi_device.Recovery.Calls.{
  Call, step, run, start_reboot_call, set_phase_call, worker_reset_call, cancel_call,
  connect_async_call, connect_call, disconnect_call, poll_failure_call, diagnosis_call,
  request_call, boot_id_call,
}

-- No connection is made while a recovery is active, and no diagnosis is shown while connected.
abbrev pub IsGuarded : Session → Type 0
IsGuarded s =
    (is_active s.recovery && s.connecting ≡ false) × (s.connected ≡ true → s.diagnosis_cache ≡ none)

-- Besides, no probe is wanted and no diagnosis is shown while a recovery is active, and the saved record
-- is the session's, until it is removed.
abbrev pub IsConsistent : Session → Type 0
IsConsistent s =
    (is_active s.recovery && s.connecting ≡ false)
    × ((is_active s.recovery && s.wants_diagnosis ≡ false)
        × ((is_active s.recovery ≡ true → s.diagnosis_cache ≡ none)
            × ((s.connected ≡ true → s.diagnosis_cache ≡ none)
                × (s.removed ≡ false → s.saved_recovery ≡ s.recovery))))

-- Each save of the call succeeds.
abbrev Saves : Call → Type 0
Saves (start_reboot_call saved _ _) = saved ≡ true
Saves (set_phase_call saved _ _ _ _) = saved ≡ true
Saves (cancel_call saved _ _) = saved ≡ true
Saves (connect_call _ _ _ dropped healthy) = (dropped ≡ none) × (healthy ≡ none)
Saves _ = Unit

-- What an operation does to either.
abbrev Keeps : Session → Type 0 → Session → Type 0
Keeps s saves s' = (IsGuarded s → IsGuarded s') × (saves → IsConsistent s → IsConsistent s')

set_recovery_phase-Keeps :
    (saved : Bool) (now : ℤ) (id : String) (phase : Phase) (error : Option String) (s : Session)
    → let (s', _) = set_recovery_phase saved now id phase error s in Keeps s (saved ≡ true) s'
unfolding set_recovery_phase persist_recovery
set_recovery_phase-Keeps saved now id phase error s =
    (λ h. ground (arith, h), λ u h. ground (arith, u, h))

cancel_recovery-Keeps :
    (saved : Bool) (now : ℤ) (removed : Bool) (s : Session)
    → Keeps s (saved ≡ true) (cancel_recovery saved now removed s)
unfolding cancel_recovery persist_recovery mark_removed
cancel_recovery-Keeps saved now removed s = (λ h. ground (arith, h), λ u h. ground (arith, u, h))

start_reboot-Keeps :
    (saved : Bool) (now : ℤ) (id : String) (s : Session)
    → let (s', _) = start_reboot saved now id s in Keeps s (saved ≡ true) s'
unfolding start_reboot persist_recovery
start_reboot-Keeps saved now id s = (λ h. ground (arith, h), λ u h. ground (arith, u, h))

reset_connection_state-Keeps :
    (error : Option String) (request : Bool) (s : Session)
    → let (s', _) = reset_connection_state error request s in Keeps s Unit s'
unfolding reset_connection_state
reset_connection_state-Keeps error request s = (λ h. ground (arith, h), λ u h. ground (arith, h))

clear_finished_recovery-Keeps :
    (saved : Bool) (s : Session) → Keeps s (saved ≡ true) (clear_finished_recovery saved s)
unfolding clear_finished_recovery persist_recovery
clear_finished_recovery-Keeps saved s = (λ h. ground (arith, h), λ u h. ground (arith, u, h))

note_healthy_boot_id-Keeps :
    (saved : Bool) (id : Option String) (s : Session)
    → Keeps s Unit (note_healthy_boot_id saved id s)
unfolding note_healthy_boot_id persist_last_healthy
note_healthy_boot_id-Keeps saved none s = (λ h. h, λ u h. h)
note_healthy_boot_id-Keeps saved (some id) s = (λ h. ground (arith, h), λ u h. ground (arith, h))

keep_healthy-Keeps :
    (healthy : Option String) (s : Session) → Keeps s (healthy ≡ none) (keep_healthy healthy s)
unfolding keep_healthy persist_last_healthy fail_connect
keep_healthy-Keeps none s = (λ h. ground (arith, h), λ u h. ground (arith, h))
keep_healthy-Keeps (some error) s =
    let (guarded, _) = reset_connection_state-Keeps (some error) true s in
    (λ h. if_intro IsGuarded s.removed _ _ (λ _. h) (λ _. guarded h), λ u h. ground arith)

drop_finished-Keeps :
    (dropped healthy : Option String) (s : Session)
    → Keeps s ((dropped ≡ none) × (healthy ≡ none)) (drop_finished dropped healthy s)
unfolding drop_finished fail_connect
drop_finished-Keeps none healthy s =
    let cleared = clear_finished_recovery true s in
    let (g1, c1) = clear_finished_recovery-Keeps true s in
    let (g2, c2) = keep_healthy-Keeps healthy cleared in (λ h. g2 (g1 h), λ u h. c2 u.1 (c1 refl h))
drop_finished-Keeps (some error) healthy s =
    let cleared = clear_finished_recovery false s in
    let (g1, _) = clear_finished_recovery-Keeps false s in
    let (g2, _) = keep_healthy-Keeps healthy cleared in
    let (g3, _) = reset_connection_state-Keeps (some error) true cleared in
    (
      λ h.
          if_intro IsGuarded (has_finished s.recovery && not s.removed) _ _ (λ _. g3 (g1 h))
            (λ _. g2 (g1 h)),
      λ u h. ground (arith, u.0),
    )

finish_connect-Keeps :
    (now : ℤ) (outcome dropped healthy : Option String) (s : Session)
    → is_active s.recovery ≡ false
    → Keeps s ((dropped ≡ none) × (healthy ≡ none)) (finish_connect now outcome dropped healthy s)
unfolding finish_connect clear_diagnosis
finish_connect-Keeps now none dropped healthy s idle =
    let up = clear_diagnosis (record s {
      connected = true;
      connecting = false;
      last_error = none;
      last_connected_at = some now;
    }) in
    let (g, c) = drop_finished-Keeps dropped healthy up in
    (λ h. g (ground (arith, h)), λ u h. c u (ground (arith, h)))
finish_connect-Keeps now (some error) dropped healthy s idle =
    let begun : Session = record s { connecting = true } in
    let (g, c) = reset_connection_state-Keeps (some error) true begun in
    (λ h. g (ground (arith, h)), λ u h. c tt (ground (arith, h)))

abbrev Result : Session → Type 0 → Session × Option Refusal → Type 0
Result s saves (s', _) = Keeps s saves s'

connect-Keeps :
    (now : ℤ) (reserved : Bool) (outcome dropped healthy : Option String) (s : Session)
    → Result s
        ((dropped ≡ none) × (healthy ≡ none))
        (connect now reserved outcome dropped healthy s)
unfolding connect
connect-Keeps now reserved outcome dropped healthy s =
    let P = Result s ((dropped ≡ none) × (healthy ≡ none)) in
    if_intro P (is_active s.recovery) _ _ (λ _. (λ h. ground (arith, h), λ u h. ground (arith, h)))
      (λ idle.
        if_intro P (s.connected || (s.connecting && not reserved)) _ _ (λ _. (λ h. h, λ u h. h))
          (λ _. finish_connect-Keeps now outcome dropped healthy s idle))

step-Keeps : (c : Call) (s : Session) → Keeps s (Saves c) (step c s)
unfolding step disconnect connect_async apply_diagnosis request_diagnosis_probe handle_poll_failure
step-Keeps (start_reboot_call saved now id) s = start_reboot-Keeps saved now id s
step-Keeps (set_phase_call saved now id phase error) s =
    set_recovery_phase-Keeps saved now id phase error s
step-Keeps worker_reset_call s = reset_connection_state-Keeps none false s
step-Keeps (cancel_call saved now removed) s = cancel_recovery-Keeps saved now removed s
step-Keeps connect_async_call s = (λ h. ground (arith, h), λ u h. ground (arith, h))
step-Keeps (connect_call now reserved outcome dropped healthy) s =
    connect-Keeps now reserved outcome dropped healthy s
step-Keeps disconnect_call s =
    let (s', _) = reset_connection_state s.last_error false s in
    let (g, c) = reset_connection_state-Keeps s.last_error false s in
    (
      λ h.
          if_intro (λ (r : Session × Option Refusal). let (x, _) = r in IsGuarded x)
            (is_active s.recovery) _ _ (λ _. h) (λ _. g h),
      λ u h.
          if_intro (λ (r : Session × Option Refusal). let (x, _) = r in IsConsistent x)
            (is_active s.recovery) _ _ (λ _. h) (λ _. c tt h),
    )
step-Keeps (poll_failure_call error) s = reset_connection_state-Keeps (some error) true s
step-Keeps (diagnosis_call d) s = (λ h. ground (arith, h), λ u h. ground (arith, h))
step-Keeps request_call s = (λ h. ground (arith, h), λ u h. ground (arith, h))
step-Keeps (boot_id_call saved id) s = note_healthy_boot_id-Keeps saved id s

run-IsGuarded : (cs : List Call) (s : Session) → IsGuarded s → IsGuarded (run cs s)
unfolding run
run-IsGuarded [] s h = h
run-IsGuarded (c ∷ cs) s h = let (g, _) = step-Keeps c s in run-IsGuarded cs (step c s) (g h)

-- Each save of the calls succeeds.
abbrev pub AllSave : List Call → Type 0
AllSave [] = Unit
AllSave (c ∷ cs) = Saves c × AllSave cs

run-IsConsistent :
    (cs : List Call) (s : Session) → AllSave cs → IsConsistent s → IsConsistent (run cs s)
unfolding run
run-IsConsistent [] s u h = h
run-IsConsistent (c ∷ cs) s (saves, u) h =
    let (_, keeps) = step-Keeps c s in run-IsConsistent cs (step c s) u (keeps saves h)

init-IsConsistent :
    (now : ℤ) (r : Option Recovery) (h : Option LastHealthy) → IsConsistent (init now r h)
unfolding init
init-IsConsistent now none h = ground arith
init-IsConsistent now (some r) h = ground (arith)

-- After any run of calls on a session that a gateway has just loaded, whatever was stored and whichever
-- saves fail: no connect is pending while a recovery is active, and no diagnosis is cached while the
-- device is connected.
pub run-init-IsGuarded :
    (cs : List Call) (now : ℤ) (r : Option Recovery) (h : Option LastHealthy)
    → IsGuarded (run cs (init now r h))
run-init-IsGuarded cs now r h =
    run-IsGuarded cs (init now r h) (ground (arith, init-IsConsistent now r h))

-- After any run of calls, the saves of which succeed, on a session that a gateway has just loaded,
-- whatever was stored: no connect is pending and no probe is wanted while a recovery is active, no
-- diagnosis is cached while one is active or the device connected, and devices.json has the recovery
-- record unless it was removed.
pub run-init-IsConsistent :
    (cs : List Call) (now : ℤ) (r : Option Recovery) (h : Option LastHealthy)
    → AllSave cs
    → IsConsistent (run cs (init now r h))
run-init-IsConsistent cs now r h u =
    run-IsConsistent cs (init now r h) u (init-IsConsistent now r h)
