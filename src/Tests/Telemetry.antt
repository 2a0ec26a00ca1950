-- ===== src/Tests/Telemetry.antt =====
-- Concrete runs of linien-gateway/app/rp_telemetry.py.
use linien_multi_device.Prelude.{
  ℕ, ◌+◌, ◌≡◌, ◌≢◌, refl, arith, ◌-ℤ◌, pos, true, false, Option, none, some, String, List, [], ◌∷◌,
  ap, ◌⊎◌,
}
use linien_multi_device.Telemetry.{
  empty_metrics, Credentials, Entry, new_entry, running, offline, status_of, shown_metrics,
}
use linien_multi_device.Telemetry.Protocol.{
  PyText, finite, Answer, read_telemetry, connection_refused, Reading, failed, parse_status_line,
}
use linien_multi_device.Telemetry.Polling.{
  Settings, Device, Sample, Transition, finish_poll, finish_read, name_missing, apply_reading,
  log_outage, note_recovery, note_loss,
}
use linien_multi_device.Telemetry.Actions.{
  ServiceAction, restart, stop, service_action, note_started, note_active, bump,
}
use linien_multi_device.Telemetry.Calls.{Call, poll, log_health, log_build, service, step, run}
use linien_multi_device.Telemetry.Freshness.{probe_failures, finish_poll-late}
use linien_multi_device.Telemetry.Health.{losses, recoveries, bit}
use linien_multi_device.Telemetry.Outages.{run-balanced, run_cleared}
use linien_multi_device.Telemetry.Shown.{run-IsFresh, IsFresh, service_action-metrics}
use linien_multi_device.Telemetry.Bounds.{IsAccepted, IsRefused, parse_status_line-IsAccepted}
use linien_multi_device.Telemetry.Influx.{write_failed, write_recovered}
use linien_multi_device.Telemetry.Reports.{report_run, changes, report_run-changes}

abbrev py : PyText
py = record {
  strip = λ s. s;
  split = λ s. "cpu=7" ∷ "memavail=9" ∷ "memtotal=8" ∷ [];
  split_twice = λ s. "RPT1" ∷ "45" ∷ "cpu=7 memavail=9 memtotal=8" ∷ [];
  partition = λ s. ("cpu", true, "7");
  float_of = λ s. finite (pos 45000000);
  int_of = λ s. some (pos 9);
  repr = λ s. s;
  two_decimals = λ n. "";
}

abbrev cfg : Settings
cfg = record { bundled = "1.4.0"; stale_after_s = pos 90000000 }

abbrev board : Device
board = record {
  key = "a";
  host = "h";
  installed = true;
  recorded_version = some "1.3.0";
  influx_enabled = true;
}

abbrev refused : Answer
refused = Answer.raised connection_refused

abbrev running_reading : Reading
running_reading = record {
  state = running;
  temperature_c = some (pos 45000000);
  version = none;
  error = none;
  metrics = none;
}

-- What is captured of a poll that failed as the third in a row, and of one that was answered then.
abbrev third_failure : Transition
third_failure = record {
  previous_state = offline;
  reading = failed offline "refused";
  failures = 3;
  loss_reported = false;
  version = none;
  installed = true;
}

abbrev answered : Transition
answered = record {
  previous_state = offline;
  reading = running_reading;
  failures = 0;
  loss_reported = true;
  version = some "1.3.0";
  installed = true;
}

-- Three failed polls, a poll that is answered, a restart and a poll that started before it.
abbrev calls : List Call
calls =
    poll true (pos 1) board 0 false none refused
    ∷ poll true (pos 2) board 0 false none refused
    ∷ poll true (pos 3) board 0 false none refused
    ∷ log_health third_failure
    ∷ poll true (pos 4) board 0 true (some "1.3.0") (Answer.line "x")
    ∷ log_health answered
    ∷ log_build answered
    ∷ service restart true
    ∷ poll true (pos 5) board 0 false none refused
    ∷ poll false (pos 6) board 1 false none (Answer.line "x")
    ∷ []

is_stop : ServiceAction → ℕ
is_stop stop = 1
is_stop _ = 0

restart_is_not_stop : restart ≢ stop
unfolding is_stop
restart_is_not_stop p = omega (arith, ap is_stop p)

abbrev one_poll : List Call
one_poll = poll true (pos 4) board 0 true (some "1.3.0") (Answer.line "x") ∷ []

finish_poll-late_example :
    let (e', _) = run cfg py calls new_entry in
    (finish_poll cfg (pos 9) board 0 running_reading none e' ≡ (
      record e' { version_probe_failures = probe_failures board running_reading none e' },
      none,
      none,
      [],
    ))
    × (finish_read cfg (pos 9) board 0 running_reading e' ≡ (e', none, none, []))
finish_poll-late_example =
    finish_poll-late cfg py (pos 9) board running_reading none calls new_entry refl

abbrev outage : List Call
outage = log_health third_failure ∷ log_health answered ∷ service restart true ∷ []

-- A restart comes between a poll and its log line: the loss is reset and a recovery reported as well.
abbrev overtaken : List Call
overtaken = log_health third_failure ∷ service restart true ∷ log_health answered ∷ []

overtaken_unbalanced :
    let (e', events) = run cfg py overtaken new_entry in
    losses events + 0
    ≢ recoveries events + run_cleared cfg py overtaken new_entry + bit e'.loss_reported
unfolding run step log_outage note_recovery note_loss service_action note_started note_active bump
overtaken_unbalanced p = omega (arith, p)

run-balanced_example :
    let (e', events) = run cfg py outage new_entry in
    losses events + 0
    ≡ recoveries events + run_cleared cfg py outage new_entry + bit e'.loss_reported
unfolding step log_outage note_recovery note_loss
run-balanced_example = run-balanced cfg py outage new_entry (refl, (refl, (tt, tt)))

run-IsFresh_example : let (e, _) = run cfg py one_poll new_entry in IsFresh cfg (pos 10) e
unfolding run step read_telemetry name_missing apply_reading status_of ◌-ℤ◌
run-IsFresh_example = run-IsFresh cfg py one_poll (pos 10) refl

abbrev warm : Entry
warm = record new_entry {
  state = running;
  temperature_c = some (pos 40000000);
  sampled_at = some (pos 1);
  metrics = record empty_metrics { cpu_percent = some (pos 7000000) };
}

service_action-metrics_example :
    let shown = status_of "1.4.0" (pos 90000000) (pos 9) (service_action restart true warm) in
    (shown.temperature_c ≡ none)
    × ((shown.age_s ≡ none) × (shown.metrics ≡ shown_metrics warm.metrics))
service_action-metrics_example = service_action-metrics cfg restart (pos 9) warm restart_is_not_stop

parse_status_line-IsAccepted_example :
    IsAccepted (parse_status_line py "RPT1 45 cpu=7")
    ⊎ IsRefused (parse_status_line py "RPT1 45 cpu=7")
parse_status_line-IsAccepted_example = parse_status_line-IsAccepted py "RPT1 45 cpu=7"

abbrev outcomes : List (Option String)
outcomes = some "HTTP 500" ∷ some "HTTP 401" ∷ none ∷ none ∷ some "HTTP 500" ∷ []

report_run-changes_example :
    let (_, notices) = report_run (λ s. false) outcomes new_entry in
    notices ≡ write_failed "HTTP 500" ∷ write_recovered ∷ write_failed "HTTP 500" ∷ []
unfolding changes
report_run-changes_example = report_run-changes (λ s. false) outcomes new_entry

abbrev credentials : Credentials
credentials = record { url = "u"; org = "o"; token = "t"; bucket = "b"; measurement = "m" }

abbrev sample : Sample
sample = record {
  device = board;
  temperature_c = pos 45000000;
  sampled_at = pos 9;
  metrics = empty_metrics;
}
