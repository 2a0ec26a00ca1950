-- ===== src/Recovery/Edges.antt =====
-- linien-gateway/app/session.py: which changes of the recovery record an operation can make.
use linien_multi_device.Prelude.{
  ℤ, Bool, true, false, not, Option, none, some, String, List, [], ◌∷◌, ◌≡◌, refl, sym, arith,
  if_intro, Bool-cases, Option-cases, inl, inr, str_eq, ◌||◌, ◌&&◌, ◌⊎◌,
}
use mathlib.Core.Path.{subst}
use linien_multi_device.Recovery.{
  Session, Phase, cancelled, is_finished, Recovery, is_active, persist_recovery,
  persist_last_healthy, clear_diagnosis, clear_finished_recovery, set_recovery_phase,
  cancel_recovery, start_reboot, connect_async, connect, finish_connect, disconnect,
  handle_poll_failure, apply_diagnosis, note_healthy_boot_id, reset_connection_state, Refusal,
  new_recovery, mark_removed, keep_healthy, drop_finished, fail_connect,
}
use linien_multi_device.Recovery.Calls.{
  Call, step, run, start_reboot_call, set_phase_call, worker_reset_call, cancel_call,
  connect_async_call, connect_call, disconnect_call, poll_failure_call, diagnosis_call,
  request_call, boot_id_call,
}

-- What one operation does to the record: it stays, a new operation starts where none is active, an
-- active one goes on under its own id and start time, or a finished one is dropped.
pub data Edge (starting : Bool) (before after : Option Recovery) : Type 0 where
  stay : after ≡ before → Edge starting before after
  begin :
      (now : ℤ) (id : String)
      → starting ≡ true
      → is_active before ≡ false
      → after ≡ some (new_recovery now id)
      → Edge starting before after
  go_on :
      (r : Recovery) (phase : Phase) (now : ℤ) (error : Option String)
      → before ≡ some r
      → is_finished r.phase ≡ false
      → after ≡ some (record r { phase = phase; updated_at = now; error = error })
      → Edge starting before after
  drop :
      (r : Recovery)
      → before ≡ some r
      → is_finished r.phase ≡ true
      → after ≡ none
      → Edge starting before after

abbrev Steps : Session → Session → Type 0
Steps s s' = Edge false s.recovery s'.recovery

set_recovery_phase-Edge :
    (saved : Bool) (now : ℤ) (id : String) (phase : Phase) (error : Option String) (s : Session)
    → let (s', _) = set_recovery_phase saved now id phase error s in Steps s s'
unfolding set_recovery_phase persist_recovery
set_recovery_phase-Edge saved now id phase error s = elim (Option-cases s.recovery) [
  | inl e ↦ stay (ground arith)
  | inr (r, e) ↦
      elim (Bool-cases
        (not (str_eq r.operation_id id) || is_finished r.phase || s.recovery_cancel || s.removed)) [
          | inl stop ↦ stay (ground arith)
          | inr go ↦ go_on r phase now error e (ground arith) (ground arith)
        ]
]

cancel_recovery-Edge :
    (saved : Bool) (now : ℤ) (removed : Bool) (s : Session)
    → Steps s (cancel_recovery saved now removed s)
unfolding cancel_recovery persist_recovery mark_removed
cancel_recovery-Edge saved now removed s = elim (Option-cases s.recovery) [
  | inl e ↦ stay (ground arith)
  | inr (r, e) ↦ elim (Bool-cases (is_finished r.phase)) [
    | inl stop ↦ stay (ground arith)
    | inr go ↦ go_on r cancelled now none e go (ground arith)
  ]
]

start_reboot-Edge :
    (saved : Bool) (now : ℤ) (id : String) (s : Session)
    → let (s', _) = start_reboot saved now id s in Edge true s.recovery s'.recovery
unfolding start_reboot persist_recovery
start_reboot-Edge saved now id s =
    elim (Bool-cases (is_active s.recovery || s.connecting || s.removed)) [
      | inl stop ↦ stay (ground arith)
      | inr go ↦ begin now id refl (ground arith) (ground arith)
    ]

clear_finished_recovery-Edge :
    (saved : Bool) (s : Session) → Steps s (clear_finished_recovery saved s)
unfolding clear_finished_recovery persist_recovery
clear_finished_recovery-Edge saved s = elim (Option-cases s.recovery) [
  | inl e ↦ stay (ground arith)
  | inr (r, e) ↦ elim (Bool-cases (is_finished r.phase)) [
    | inl stop ↦ drop r e stop (ground arith)
    | inr go ↦ stay (ground arith)
  ]
]

reset_connection_state-same :
    (error : Option String) (request : Bool) (s : Session)
    → let (s', _) = reset_connection_state error request s in s'.recovery ≡ s.recovery
unfolding reset_connection_state
reset_connection_state-same error request s = ground arith

keep_healthy-same :
    (healthy : Option String) (s : Session) → (keep_healthy healthy s).recovery ≡ s.recovery
unfolding keep_healthy persist_last_healthy fail_connect
keep_healthy-same none s = ground arith
keep_healthy-same (some error) s = ground (arith, reset_connection_state-same (some error) true s)

drop_finished-same :
    (dropped healthy : Option String) (s : Session)
    → (saved : Bool) × ((drop_finished dropped healthy s).recovery
        ≡ (clear_finished_recovery saved s).recovery)
unfolding drop_finished fail_connect
drop_finished-same none healthy s =
    (true, keep_healthy-same healthy (clear_finished_recovery true s))
drop_finished-same (some error) healthy s =
    let cleared = clear_finished_recovery false s in
    (
      false,
      ground (
        arith,
        keep_healthy-same healthy cleared,
        reset_connection_state-same (some error) true cleared,
      ),
    )

finish_connect-Edge :
    (now : ℤ) (outcome dropped healthy : Option String) (s : Session)
    → Steps s (finish_connect now outcome dropped healthy s)
unfolding finish_connect clear_diagnosis
finish_connect-Edge now none dropped healthy s =
    let up = clear_diagnosis (record s {
      connected = true;
      connecting = false;
      last_error = none;
      last_connected_at = some now;
    }) in
    let (saved, same) = drop_finished-same dropped healthy up in
    subst (λ r. Edge false s.recovery r) (sym same) (clear_finished_recovery-Edge saved up)
finish_connect-Edge now (some error) dropped healthy s =
    stay (reset_connection_state-same (some error) true (record s { connecting = true }))

abbrev pub is_start : Call → Bool
is_start (start_reboot_call _ _ _) = true
is_start _ = false

-- Every call, whenever it comes, changes the recovery record along one of these edges: a finished
-- record never goes on, an active one is never replaced by another operation, and only start_reboot
-- begins one.
pub step-Edge : (c : Call) (s : Session) → Edge (is_start c) s.recovery (step c s).recovery
unfolding step disconnect connect_async connect apply_diagnosis note_healthy_boot_id
    handle_poll_failure
step-Edge (start_reboot_call saved now id) s = start_reboot-Edge saved now id s
step-Edge (set_phase_call saved now id phase error) s =
    set_recovery_phase-Edge saved now id phase error s
step-Edge worker_reset_call s = stay (reset_connection_state-same none false s)
step-Edge (cancel_call saved now removed) s = cancel_recovery-Edge saved now removed s
step-Edge connect_async_call s = stay (ground arith)
step-Edge (connect_call now reserved outcome dropped healthy) s =
    if_intro (λ (p : Session × Option Refusal). let (s', _) = p in Steps s s')
      (is_active s.recovery) _ _ (λ _. stay refl)
      (λ _.
        if_intro (λ (p : Session × Option Refusal). let (s', _) = p in Steps s s')
          (s.connected || (s.connecting && not reserved)) _ _ (λ _. stay refl)
          (λ _. finish_connect-Edge now outcome dropped healthy s))
step-Edge disconnect_call s =
    stay (ground (arith, reset_connection_state-same s.last_error false s))
step-Edge (poll_failure_call error) s = stay (reset_connection_state-same (some error) true s)
step-Edge (diagnosis_call d) s = stay (ground arith)
step-Edge request_call s = stay (ground arith)
step-Edge (boot_id_call saved id) s = stay (ground arith)

abbrev pub any_start : List Call → Bool
any_start [] = false
any_start (c ∷ cs) = is_start c || any_start cs

-- What stays or is dropped.
abbrev pub IsKept : Option Recovery → Option Recovery → Type 0
IsKept before after = (after ≡ before) ⊎ (after ≡ none)

edge-IsKept :
    (before after : Option Recovery)
    → is_active before ≡ false
    → Edge false before after
    → IsKept before after
edge-IsKept before after h (stay e) = inl e
edge-IsKept before after h (begin now id p i e) = inl (cc)
edge-IsKept before after h (go_on r phase now error e i f) = inl (ground arith)
edge-IsKept before after h (drop r e i f) = inr f

-- A reboot that has finished or was cancelled stays as it is: whatever is called after it, its
-- worker's late calls included, its record is unchanged or dropped, until another reboot is started.
pub run-IsKept :
    (cs : List Call) (s : Session)
    → any_start cs ≡ false
    → is_active s.recovery ≡ false
    → IsKept s.recovery (run cs s).recovery
unfolding run
run-IsKept [] s none_starts h = inl refl
run-IsKept (c ∷ cs) s none_starts h =
    let first =
      edge-IsKept s.recovery (step c s).recovery h
        (subst (λ b. Edge b s.recovery (step c s).recovery) (ground arith) (step-Edge c s)) in
    let idle : is_active (step c s).recovery ≡ false = ground (arith, first) in
    ground (arith, first, run-IsKept cs (step c s) (ground arith) idle)
