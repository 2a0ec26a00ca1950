-- ===== src/Recovery.antt =====
-- linien-gateway/app/session.py: the connection flags, the diagnosis and the recovery record of a
-- DeviceSession, with the operations on them. Each operation is one step, as under its locks, and
-- whether its saves succeed is an argument. What
-- the client, the plots and the parameters hold is left out. Times are integers, in microseconds.
pub mod Reboot
pub mod Calls
pub mod Edges
pub mod Invariant
pub mod Waiting
pub mod Outcome
pub mod Completion
use linien_multi_device.Prelude.{
  ℕ, ℤ, pos, ◌-ℤ◌, max_ℤ, min_ℤ, ltb_ℤ, Bool, true, false, not, ◌&&◌, ◌||◌, Option, none, some,
  String, List, [], ◌∷◌, str_eq, if◌then◌else◌,
}

pub data Phase : Type 0 where
  queued dispatching waiting_for_boot host_online completed failed cancelled : Phase

-- `phase in {"completed", "failed", "cancelled"}`
abbrev pub is_finished : Phase → Bool
is_finished completed = true
is_finished failed = true
is_finished cancelled = true
is_finished _ = false

pub record Recovery : Type 0 where
  pub operation_id : String
  pub phase : Phase
  pub started_at : ℤ
  pub updated_at : ℤ
  pub error : Option String

-- A probe's result: its category, and the rest of it.
pub record Diagnosis : Type 0 where
  pub category : String
  pub message : String

-- LAST_HEALTHY_KEY's record in the device's parameters.
pub record LastHealthy : Type 0 where
  pub at : Option ℤ
  pub boot_id : Option String

pub record Session : Type 0 where
  pub connected : Bool
  pub connecting : Bool
  pub last_error : Option String
  pub last_connected_at : Option ℤ
  pub last_healthy_boot_id : Option String
  pub diagnosis_cache : Option Diagnosis
  pub last_diagnosis_category : Option String
  pub wants_diagnosis : Bool
  pub recovery : Option Recovery
  pub recovery_cancel : Bool
  pub removed : Bool
  pub saved_recovery : Option Recovery
  pub saved_healthy : Option LastHealthy

pub data Event : Type 0 where
  status_published : Event
  probe_requested : Event
  diagnosis_logged : Diagnosis → Event
  reboot_completed : String → Event
  reboot_failed : String → String → Event

abbrev pub is_active : Option Recovery → Bool
is_active none = false
is_active (some r) = not (is_finished r.phase)

pub recovery_active : Session → Bool
recovery_active s = is_active s.recovery

-- The record that a restarted gateway finds: an unfinished one has failed.
pub restored : ℤ → Option Recovery → Option Recovery
restored now none = none
restored now (some r) =
    if is_finished r.phase
    then some r
    else some (record r {
      phase = failed;
      updated_at = now;
      error = some "Gateway restarted before reboot verification completed";
    })

-- `min(float(at), time.time())`, where the stored time is positive.
stored_time : ℤ → Option ℤ → Option ℤ
stored_time now none = none
stored_time now (some at) = if ltb_ℤ (pos 0) at then some (min_ℤ at now) else none

stored_id : Option String → Option String
stored_id none = none
stored_id (some id) = if str_eq id "" then none else some id

abbrev at_of : Option LastHealthy → Option ℤ
at_of none = none
at_of (some h) = h.at

abbrev id_of : Option LastHealthy → Option String
id_of none = none
id_of (some h) = h.boot_id

-- __init__, from what devices.json holds of the device.
unfoldable pub init : ℤ → Option Recovery → Option LastHealthy → Session
unfolding restored stored_time stored_id
init now recovery healthy = record {
  connected = false;
  connecting = false;
  last_error = none;
  last_connected_at = stored_time now (at_of healthy);
  last_healthy_boot_id = stored_id (id_of healthy);
  diagnosis_cache = none;
  last_diagnosis_category = none;
  wants_diagnosis = false;
  recovery = restored now recovery;
  recovery_cancel = false;
  removed = false;
  saved_recovery = restored now recovery;
  saved_healthy = healthy;
}

-- `saved` is whether device_store.save_device wrote devices.json; it raises where it did not.
unfoldable pub persist_recovery : Bool → Session → Session
persist_recovery saved s =
    if s.removed || not saved then s else record s { saved_recovery = s.recovery }

pub persist_last_healthy : Bool → Session → Session
persist_last_healthy saved s = if s.removed || not saved then s else record s {
  saved_healthy = some (record { at = s.last_connected_at; boot_id = s.last_healthy_boot_id });
}

-- What the thread of _record_healthy_boot_id does with its answer.
pub note_healthy_boot_id : Bool → Option String → Session → Session
unfolding persist_last_healthy
note_healthy_boot_id saved none s = s
note_healthy_boot_id saved (some id) s =
    if str_eq id "" || not s.connected then s else elim s.last_healthy_boot_id [
      | none ↦ persist_last_healthy saved (record s { last_healthy_boot_id = some id })
      | some known ↦
          if str_eq id known
          then s
          else persist_last_healthy saved (record s { last_healthy_boot_id = some id })
    ]

pub seconds_since_last_connected : ℤ → Session → Option ℤ
seconds_since_last_connected now s = elim s.last_connected_at [
  | none ↦ none
  | some t ↦ some (max_ℤ (pos 0) (now -ℤ t))
]

pub request_diagnosis_probe : Session → Session × List Event
request_diagnosis_probe s =
    if is_active s.recovery
    then (s, [])
    else (record s { wants_diagnosis = true }, probe_requested ∷ [])

pub clear_diagnosis : Session → Session
clear_diagnosis s = record s {
  wants_diagnosis = false;
  diagnosis_cache = none;
  last_diagnosis_category = none;
}

same_category : String → Option String → Bool
same_category c none = false
same_category c (some d) = str_eq c d

pub apply_diagnosis : Diagnosis → Session → Session × List Event
unfolding same_category
apply_diagnosis d s = if s.connected || is_active s.recovery then (s, []) else (
  record s { diagnosis_cache = some d; last_diagnosis_category = some d.category },
  if same_category d.category s.last_diagnosis_category
      then status_published ∷ []
      else diagnosis_logged d ∷ status_published ∷ [],
)

abbrev is_operation : String → Recovery → Bool
is_operation id r = str_eq r.operation_id id

-- Whether it returned that the phase was set: it raises, with the phase set, where the save does.
pub set_recovery_phase : Bool → ℤ → String → Phase → Option String → Session → Session × Bool
unfolding persist_recovery
set_recovery_phase saved now id phase error s = elim s.recovery [
  | none ↦ (s, false)
  | some r ↦
      if not (str_eq r.operation_id id) || is_finished r.phase || s.recovery_cancel || s.removed
      then (s, false)
      else (
        persist_recovery saved (record s {
          recovery = some (record r { phase = phase; updated_at = now; error = error });
        }),
        saved,
      )
]

pub clear_finished_recovery : Bool → Session → Session
unfolding persist_recovery
clear_finished_recovery saved s = elim s.recovery [
  | none ↦ s
  | some r ↦
      if is_finished r.phase then persist_recovery saved (record s { recovery = none }) else s
]

-- The errors that start_reboot (with that of a failed save), connect, connect_async and disconnect raise.
pub data Refusal : Type 0 where
  recovery_running : Refusal
  device_connecting : Refusal
  device_removed : Refusal
  save_failed : Refusal

abbrev pub new_recovery : ℤ → String → Recovery
new_recovery now id = record {
  operation_id = id;
  phase = queued;
  started_at = now;
  updated_at = now;
  error = none;
}

-- `id` is the uuid4 of the operation.
unfoldable pub start_reboot : Bool → ℤ → String → Session → Session × Option Refusal
unfolding persist_recovery clear_diagnosis
start_reboot saved now id s =
    if is_active s.recovery
    then (s, some recovery_running)
    else if s.connecting
    then (s, some device_connecting)
    else if s.removed
    then (s, some device_removed)
    else let s' = persist_recovery saved (record s { recovery = some (new_recovery now id) }) in
      let started = clear_diagnosis (record s' { recovery_cancel = false }) in
      if saved then (started, none) else (s', some save_failed)

abbrev pub cancelled_at : ℤ → Recovery → Recovery
cancelled_at now r = record r { phase = cancelled; updated_at = now; error = none }

pub mark_removed : Bool → Session → Session
mark_removed removed s = if removed then record s { removed = true } else s

-- A save that raises keeps it from marking the session as removed.
pub cancel_recovery : Bool → ℤ → Bool → Session → Session
unfolding persist_recovery mark_removed
cancel_recovery saved now removed s =
    let s' : Session = record s { recovery_cancel = true } in
    elim s'.recovery [
      | none ↦ mark_removed removed s'
      | some r ↦
          let kept = persist_recovery saved (record s' { recovery = some (cancelled_at now r) }) in
          if is_finished r.phase
          then mark_removed removed s'
          else if saved || s.removed
          then mark_removed removed kept
          else kept
    ]

pub reset_connection_state : Option String → Bool → Session → Session × List Event
unfolding request_diagnosis_probe clear_diagnosis
reset_connection_state error request s =
    let s' : Session = record s { connected = false; connecting = false; last_error = error } in
    if request then request_diagnosis_probe s' else (clear_diagnosis s', [])

pub connect_async : Session → Session × Option Refusal
connect_async s =
    if is_active s.recovery
    then (s, some recovery_running)
    else if s.connected || s.connecting
    then (s, none)
    else (record s { connecting = true }, none)

pub has_finished : Option Recovery → Bool
has_finished none = false
has_finished (some r) = is_finished r.phase

-- What connect() does with the exception of a save.
pub fail_connect : String → Session → Session
unfolding reset_connection_state
fail_connect error s = let (s', _) = reset_connection_state (some error) true s in s'

-- The last save of connect(); none, or the error's text.
pub keep_healthy : Option String → Session → Session
unfolding persist_last_healthy fail_connect
keep_healthy none s = persist_last_healthy true s
keep_healthy (some error) s = if s.removed then s else fail_connect error s

pub drop_finished : Option String → Option String → Session → Session
unfolding clear_finished_recovery keep_healthy fail_connect has_finished
drop_finished none healthy s = keep_healthy healthy (clear_finished_recovery true s)
drop_finished (some error) healthy s =
    let cleared = clear_finished_recovery false s in
    if has_finished s.recovery && not s.removed
    then fail_connect error cleared
    else keep_healthy healthy cleared

-- The part of connect() behind its guards: the client's answer, and those of its two saves, are none,
-- or the error's text.
pub finish_connect : ℤ → Option String → Option String → Option String → Session → Session
unfolding reset_connection_state drop_finished clear_diagnosis
finish_connect now (some error) dropped healthy s =
    let (s', _) = reset_connection_state (some error) true (record s { connecting = true }) in s'
finish_connect now none dropped healthy s =
    let up : Session = record s {
      connected = true;
      connecting = false;
      last_error = none;
      last_connected_at = some now;
    } in
    drop_finished dropped healthy (clear_diagnosis up)

unfoldable pub connect :
    ℤ → Bool → Option String → Option String → Option String → Session → Session × Option Refusal
unfolding finish_connect
connect now reserved outcome dropped healthy s =
    if is_active s.recovery
    then (record s { connecting = false }, some recovery_running)
    else if s.connected || (s.connecting && not reserved)
    then (s, none)
    else (finish_connect now outcome dropped healthy s, none)

pub disconnect : Session → Session × Option Refusal
unfolding reset_connection_state
disconnect s =
    if is_active s.recovery
    then (s, some recovery_running)
    else let (s', _) = reset_connection_state s.last_error false s in (s', none)

pub handle_poll_failure : String → Session → Session × List Event
unfolding reset_connection_state
handle_poll_failure error s = reset_connection_state (some error) true s
