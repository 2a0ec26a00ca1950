-- ===== src/Telemetry/Polling.antt =====
-- linien-gateway/app/rp_telemetry.py: one poll of one device, _apply_reading, _log_transitions and
-- the read on demand. What a poll captured before its requests is an argument of what follows.
-- The log lines and the pushes of a step are its events, in their order.
use linien_multi_device.Prelude.{
  ℕ, ◌+◌, ℤ, Bool, true, false, not, ◌&&◌, Option, none, some, String, List, [], ◌∷◌, ◌++◌, str_eq,
  leb, ◌==◌, if◌then◌else◌,
}
use linien_multi_device.Prelude.Assoc.{Assoc, lookup, insert}
use linien_multi_device.LogStore.{Level, info, warning}
use linien_multi_device.Telemetry.{
  State, running, stopped, not_installed, is_running, HostMetrics, empty_metrics, Entry, or_new,
  effective_state, StatusFields, status_fields,
}
use linien_multi_device.Telemetry.Protocol.{Reading, failed}
use linien_multi_device.Telemetry.Signature.{material_signature, same_signature, same_text}

-- What the code reads of a device: its key and host, and of its install record the flag and the
-- version where that is text.
pub record Device : Type 0 where
  pub key : String
  pub host : String
  pub installed : Bool
  pub recorded_version : Option String
  pub influx_enabled : Bool

pub record Sample : Type 0 where
  pub device : Device
  pub temperature_c : ℤ
  pub sampled_at : ℤ
  pub metrics : HostMetrics

pub data Event : Type 0 where
  recovered : State → Event
  mismatch : String → Event
  unavailable : Level → State → Option String → Event
  published : Event

-- The settings of the manager: BUNDLED_VERSION and `_stale_after_s`.
pub record Settings : Type 0 where
  pub bundled : String
  pub stale_after_s : ℤ

abbrev fall_back : Option String → Option String → Option String
fall_back none recorded = recorded
fall_back (some v) recorded = some v

unfoldable pub note_installed : Option Bool → Device → Entry → Entry
note_installed none device e = e
note_installed (some false) device e = record e { installed = false }
note_installed (some true) device e = record e {
  installed = true;
  version = fall_back e.version device.recorded_version;
}

unfoldable pub note_probed : Bool → Entry → Entry
note_probed probed e =
    if probed then record e { version_probed = true; version_probe_failures = 0 } else e

unfoldable pub note_version : Option String → Entry → Entry
note_version none e = e
note_version (some v) e = record e { version = some v }

abbrev or_empty : Option HostMetrics → HostMetrics
or_empty none = empty_metrics
or_empty (some m) = m

unfoldable pub take_success : ℤ → Bool → ℤ → Option HostMetrics → Entry → Entry
take_success now track t metrics e = record e {
  temperature_c = some t;
  metrics = or_empty metrics;
  sampled_at = some now;
  last_success_at = some now;
  error = none;
  consecutive_failures = if track then 0 else e.consecutive_failures;
}

unfoldable pub take_failure : Bool → Option String → Entry → Entry
take_failure track message e = record e {
  metrics = empty_metrics;
  error = message;
  consecutive_failures = if track then e.consecutive_failures + 1 else e.consecutive_failures;
  version_probed = false;
  version_probe_failures = 0;
}

abbrev pub taken : State → Option ℤ → Option ℤ
taken running temperature = temperature
taken _ temperature = none

-- The branch on `reading.state == STATE_RUNNING and reading.temperature_c is not None`.
unfoldable pub fold_reading : ℤ → Device → Bool → Reading → Entry → Entry × Option Sample
unfolding take_success take_failure
fold_reading now device track r e = elim (taken r.state r.temperature_c) [
  | none ↦ (record (take_failure track r.error e) { state = r.state }, none)
  | some t ↦ (
    record (take_success now track t r.metrics e) { state = r.state },
    some (record {
      device = device;
      temperature_c = t;
      sampled_at = now;
      metrics = or_empty r.metrics;
    }),
  )
]

-- What _apply_reading captures under its lock for _log_transitions, which runs after it.
pub record Transition : Type 0 where
  pub previous_state : State
  pub reading : Reading
  pub failures : ℕ
  pub loss_reported : Bool
  pub version : Option String
  pub installed : Bool

unfoldable pub note_recovery : Transition → Entry → Entry × List Event
note_recovery t e =
    if t.loss_reported
    then (record e { loss_reported = false }, recovered t.previous_state ∷ [])
    else (e, [])

abbrev mismatched : Bool → String → Option String → Option String
mismatched installed bundled none = none
mismatched installed bundled (some v) = if installed && not (str_eq v bundled) then some v else none

unfoldable pub note_mismatch : String → Transition → Entry → Entry × List Event
note_mismatch bundled t e = elim (mismatched t.installed bundled t.version) [
  | none ↦ (e, [])
  | some v ↦ (
    record e { logged_version_mismatch = some v },
    if same_text e.logged_version_mismatch (some v) then [] else mismatch v ∷ [],
  )
]

abbrev loss_level : State → Level
loss_level not_installed = info
loss_level _ = warning

-- SUSTAINED_LOSS_POLLS is 3.
unfoldable pub note_loss : Transition → Entry → Entry × List Event
note_loss t e =
    if t.failures == 3 && not t.loss_reported
    then (
      record e { loss_reported = true },
      unavailable (loss_level t.reading.state) t.reading.state t.reading.error ∷ [],
    )
    else (e, [])

-- _log_transitions takes the lock once for the outage and once for the version; each is a step.
unfoldable pub log_outage : Transition → Entry → Entry × List Event
unfolding note_recovery note_loss
log_outage t e = if is_running t.reading.state then note_recovery t e else note_loss t e

unfoldable pub log_version : String → Transition → Entry → Entry × List Event
unfolding note_mismatch
log_version bundled t e = if is_running t.reading.state then note_mismatch bundled t e else (e, [])

-- The two with nothing in between.
unfoldable pub log_transitions : String → Option Transition → Entry → Entry × List Event
unfolding log_outage log_version
log_transitions bundled none e = (e, [])
log_transitions bundled (some t) e =
    let (e', first) = log_outage t e in
    let (e'', second) = log_version bundled t e' in (e'', first ++ second)

-- `_publish`, where the material signature changed.
unfoldable pub push : Settings → ℤ → Entry → Entry → List Event
push cfg now old new =
    let previous = material_signature old (effective_state cfg.stale_after_s now old) in
    let current = material_signature new (effective_state cfg.stale_after_s now new) in
    if same_signature current previous then [] else published ∷ []

abbrev is_stale_view : Option ℕ → ℕ → Bool
is_stale_view none seq = false
is_stale_view (some expected) seq = not (seq == expected)

unfoldable pub transition : Bool → State → Reading → Entry → Option Transition
transition track previous r e =
    if track
    then some (record {
      previous_state = previous;
      reading = r;
      failures = e.consecutive_failures;
      loss_reported = e.loss_reported;
      version = e.version;
      installed = e.installed;
    })
    else none

unfoldable pub apply_current :
    Settings
    → ℤ
    → Device
    → Bool
    → Option Bool
    → Bool
    → Option String
    → Reading
    → Entry
    → Entry × Option Sample × Option Transition × List Event
unfolding note_installed note_probed note_version fold_reading transition
apply_current cfg now device track installed probed version r e =
    let told = note_probed probed (note_installed installed device e) in
    let (e', sample) = fold_reading now device track r (note_version version told) in
    (e', sample, transition track told.state r e', push cfg now e e')

-- The part of _apply_reading under its lock, with the push that ends it.
unfoldable pub apply_reading :
    Settings
    → ℤ
    → Device
    → Option ℕ
    → Bool
    → Option Bool
    → Bool
    → Option String
    → Reading
    → Entry
    → Entry × Option Sample × Option Transition × List Event
unfolding apply_current
apply_reading cfg now device expect_seq track installed probed version r e =
    if is_stale_view expect_seq e.mutation_seq
    then (e, none, none, [])
    else apply_current cfg now device track installed probed version r e

-- A refused connection on a board that the record does not call installed.
unfoldable pub name_missing : Bool → Reading → Reading
name_missing installed r = elim r.state [
  | stopped ↦ if installed then r else failed not_installed "no telemetry service on this board"
  | _ ↦ r
]

abbrev pub needs_version : Reading → Entry → Bool
needs_version r e = is_running r.state && not e.version_probed

-- What the VERSION request comes to: the entry and whether the probe is settled.
-- VERSION_PROBE_ATTEMPTS is 3.
unfoldable pub count_probe : Option String → Entry → Entry × Bool
count_probe (some v) e = (e, true)
count_probe none e =
    let e' = record e { version_probe_failures = e.version_probe_failures + 1 } in
    (e', leb 3 e'.version_probe_failures)

-- The VERSION request, which is made only where it is needed: the entry, whether the probe is settled,
-- and the version that was answered.
unfoldable pub ask_version : Option String → Reading → Entry → Entry × Bool × Option String
unfolding count_probe
ask_version answer r e =
    let (e', probed) = count_probe answer e in
    if needs_version r e then (e', probed, answer) else (e, false, none)

-- What _poll_device does after its STATUS request was answered, up to _log_transitions: `reading` is that
-- answer and `answer` the VERSION request's, with nothing between its count and _apply_reading.
-- `expect_seq` was captured before.
unfoldable pub finish_poll :
    Settings
    → ℤ
    → Device
    → ℕ
    → Reading
    → Option String
    → Entry
    → Entry × Option Sample × Option Transition × List Event
unfolding name_missing ask_version
finish_poll cfg now device expect_seq reading answer e =
    let r = name_missing device.installed reading in
    let (e', probed, version) = ask_version answer r e in
    apply_reading cfg now device (some expect_seq) true (some device.installed) probed version r e'

-- read_temperature after its request, up to the status it returns.
unfoldable pub finish_read :
    Settings
    → ℤ
    → Device
    → ℕ
    → Reading
    → Entry
    → Entry × Option Sample × Option Transition × List Event
unfolding name_missing
finish_read cfg now device expect_seq reading e =
    apply_reading cfg now device (some expect_seq) false (some device.installed) false none
      (name_missing device.installed reading) e

-- A poll and a read on the manager's cache, where nothing else comes between their steps.
pub poll_device :
    Settings
    → ℤ
    → Device
    → Reading
    → Option String
    → Assoc Entry
    → Assoc Entry × Option Sample × List Event
poll_device cfg now device reading answer entries =
    if str_eq device.key ""
    then (entries, none, [])
    else let e = or_new (lookup device.key entries) in
      let (e', sample, t, pushed) = finish_poll cfg now device e.mutation_seq reading answer e in
      let (e'', logged) = log_transitions cfg.bundled t e' in
      (insert device.key e'' entries, sample, logged ++ pushed)

pub read_temperature : Settings → ℤ → Device → Reading → Assoc Entry → Assoc Entry × StatusFields
read_temperature cfg now device reading entries =
    let e = or_new (lookup device.key entries) in
    let (e', _, _, _) = finish_read cfg now device e.mutation_seq reading e in
    let entries' = insert device.key e' entries in
    (entries', status_fields cfg.bundled cfg.stale_after_s now device.key entries')
