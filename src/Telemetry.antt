-- ===== src/Telemetry.antt =====
-- linien-gateway/app/rp_telemetry.py: the cache of the class RpTelemetryManager and what is read from it.
-- Temperatures, loads, voltages, percentages and times are integers, in millionths of their unit;
-- sizes are integers in kB. The manager's lock makes each operation on an entry one step.
pub mod Protocol
pub mod Signature
pub mod Polling
pub mod Actions
pub mod Influx
pub mod Calls
pub mod Freshness
pub mod Health
pub mod Bounds
pub mod Outages
pub mod Reports
pub mod Shown
pub mod Batches
use linien_multi_device.Prelude.{
  ℕ, ◌*◌, ◌/◌, ℤ, pos, ◌-ℤ◌, ltb_ℤ, leb_ℤ, max_ℤ, min_ℤ, Bool, true, false, not, ◌&&◌, Option, none,
  some, is_some, String, List, [], str_eq, if◌then◌else◌,
}
use linien_multi_device.Prelude.Int.{to_ℕ}
use linien_multi_device.Prelude.Assoc.{Assoc, lookup, insert, erase}

pub data State : Type 0 where
  unknown not_installed running stopped offline stale error version_mismatch : State

pub record HostMetrics : Type 0 where
  pub cpu_percent : Option ℤ
  pub load1 : Option ℤ
  pub mem_total_kb : Option ℤ
  pub mem_available_kb : Option ℤ
  pub uptime_s : Option ℤ
  pub root_free_kb : Option ℤ
  pub vccaux_v : Option ℤ

abbrev pub empty_metrics : HostMetrics
empty_metrics = record {
  cpu_percent = none;
  load1 = none;
  mem_total_kb = none;
  mem_available_kb = none;
  uptime_s = none;
  root_free_kb = none;
  vccaux_v = none;
}

pub is_empty : HostMetrics → Bool
is_empty m =
    not (is_some m.cpu_percent)
    && not (is_some m.load1)
    && not (is_some m.mem_total_kb)
    && not (is_some m.mem_available_kb)
    && not (is_some m.uptime_s)
    && not (is_some m.root_free_kb)
    && not (is_some m.vccaux_v)

-- `100.0 * used / total`, rounded down to a millionth.
used_percent : Option ℤ → Option ℤ → Option ℤ
used_percent (some total) (some available) =
    if leb_ℤ total (pos 0)
    then none
    else let used = max_ℤ (pos 0) (min_ℤ total (total -ℤ available)) in
      some (pos (100000000 * to_ℕ used / to_ℕ total))
used_percent _ _ = none

pub mem_used_percent : HostMetrics → Option ℤ
unfolding used_percent
mem_used_percent m = used_percent m.mem_total_kb m.mem_available_kb

pub record Credentials : Type 0 where
  pub url : String
  pub org : String
  pub token : String
  pub bucket : String
  pub measurement : String

abbrev pub is_given : String → Bool
is_given s = not (str_eq s "")

pub is_usable : Credentials → Bool
is_usable c =
    is_given c.url
    && is_given c.org
    && is_given c.token
    && is_given c.bucket
    && is_given c.measurement

pub data SkipReason : Type 0 where
  influx_logging_disabled no_influx_credentials : SkipReason

pub record Entry : Type 0 where
  pub state : State
  pub temperature_c : Option ℤ
  pub metrics : HostMetrics
  pub sampled_at : Option ℤ
  pub version : Option String
  pub error : Option String
  pub installed : Bool
  pub version_probed : Bool
  pub version_probe_failures : ℕ
  pub logged_version_mismatch : Option String
  pub mutation_seq : ℕ
  pub consecutive_failures : ℕ
  pub last_success_at : Option ℤ
  pub loss_reported : Bool
  pub influx_credentials : Option Credentials
  pub influx_credentials_checked_at : Option ℤ
  pub influx_error_reported : Bool
  pub influx_skip_reason : Option SkipReason

abbrev pub new_entry : Entry
new_entry = record {
  state = unknown;
  temperature_c = none;
  metrics = empty_metrics;
  sampled_at = none;
  version = none;
  error = none;
  installed = false;
  version_probed = false;
  version_probe_failures = 0;
  logged_version_mismatch = none;
  mutation_seq = 0;
  consecutive_failures = 0;
  last_success_at = none;
  loss_reported = false;
  influx_credentials = none;
  influx_credentials_checked_at = none;
  influx_error_reported = false;
  influx_skip_reason = none;
}

abbrev pub or_new : Option Entry → Entry
or_new none = new_entry
or_new (some e) = e

abbrev pub is_running : State → Bool
is_running running = true
is_running _ = false

-- `sampled_at is not None and now - sampled_at > stale_after_s`
pub is_old : Option ℤ → ℤ → ℤ → Bool
is_old none now stale_after_s = false
is_old (some t) now stale_after_s = ltb_ℤ stale_after_s (now -ℤ t)

pub effective_state : ℤ → ℤ → Entry → State
unfolding is_old
effective_state stale_after_s now e =
    if not (is_running e.state)
    then e.state
    else if is_old e.sampled_at now stale_after_s
    then stale
    else e.state

pub record StatusFields : Type 0 where
  pub temperature_c : Option ℤ
  pub sampled_at : Option ℤ
  pub age_s : Option ℤ
  pub metrics : Option (HostMetrics × Option ℤ)
  pub state : State
  pub version : Option String
  pub update_available : Bool
  pub installed : Bool
  pub error : Option String
  pub influx_skip_reason : Option SkipReason

pub differs : String → Option String → Bool
differs bundled none = false
differs bundled (some v) = not (str_eq v bundled)

pub age : ℤ → Option ℤ → Option ℤ
age now none = none
age now (some t) = some (max_ℤ (pos 0) (now -ℤ t))

-- `None if metrics.is_empty() else {...}`, with the percentage that the payload adds.
pub shown_metrics : HostMetrics → Option (HostMetrics × Option ℤ)
unfolding mem_used_percent is_empty
shown_metrics m = if is_empty m then none else some (m, mem_used_percent m)

-- The payload of one entry; the port and the two constants that it repeats are left out.
unfoldable pub status_of : String → ℤ → ℤ → Entry → StatusFields
unfolding effective_state age differs
status_of bundled stale_after_s now e =
    let state = effective_state stale_after_s now e in
    record {
      temperature_c = if is_running state then e.temperature_c else none;
      sampled_at = e.sampled_at;
      age_s = age now e.sampled_at;
      metrics = shown_metrics (if is_running state then e.metrics else empty_metrics);
      state = state;
      version = e.version;
      update_available = e.installed && differs bundled e.version;
      installed = e.installed;
      error = e.error;
      influx_skip_reason = e.influx_skip_reason;
    }

pub status_fields : String → ℤ → ℤ → String → Assoc Entry → StatusFields
unfolding status_of
status_fields bundled stale_after_s now key entries =
    status_of bundled stale_after_s now (or_new (lookup key entries))

pub forget : String → Assoc Entry → Assoc Entry
forget key entries = erase key entries

pub set_influx_credentials : String → Option Credentials → ℤ → Assoc Entry → Assoc Entry
set_influx_credentials key snapshot now entries =
    insert key
      (record (or_new (lookup key entries)) {
        influx_credentials = snapshot;
        influx_credentials_checked_at = some now;
      })
      entries

pub get_influx_credentials : String → Assoc Entry → Option Credentials
get_influx_credentials key entries = elim (lookup key entries) [
  | none ↦ none
  | some e ↦ e.influx_credentials
]

pub influx_skip_reason : String → Assoc Entry → Option SkipReason
influx_skip_reason key entries = elim (lookup key entries) [
  | none ↦ none
  | some e ↦ e.influx_skip_reason
]
