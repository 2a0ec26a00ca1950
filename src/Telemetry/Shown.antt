-- ===== src/Telemetry/Shown.antt =====
-- linien-gateway/app/rp_telemetry.py: what status_fields shows of a device's reading.
use linien_multi_device.Prelude.{
  ◌≢◌, ℤ, ◌-ℤ◌, ltb_ℤ, true, false, none, some, List, ◌≡◌, refl, arith, is_some, Option-cases, inl,
  inr,
}
use linien_multi_device.Telemetry.{
  State, running, unknown, stopped, not_installed, offline, stale, error, version_mismatch,
  is_running, Entry, new_entry, status_of, effective_state, is_old, shown_metrics,
}
use linien_multi_device.Telemetry.Protocol.{PyText}
use linien_multi_device.Telemetry.Polling.{Settings}
use linien_multi_device.Telemetry.Actions.{
  start, restart, service_action, note_started, note_active, bump, ServiceAction,
}
use linien_multi_device.Telemetry.Calls.{Call, run}
use linien_multi_device.Telemetry.Health.{IsTimed}
use linien_multi_device.Telemetry.Outages.{run-new_entry-IsTimed}

-- The reading is of now: its state is running and its sample is at most `stale_after_s` old.
abbrev pub IsFresh : Settings → ℤ → Entry → Type 0
IsFresh cfg now e =
    (e.state ≡ running)
    × (t : ℤ) × (e.sampled_at ≡ some t)
    × (ltb_ℤ cfg.stale_after_s (now -ℤ t) ≡ false)

running_of : (s : State) → is_running s ≡ true → s ≡ running
running_of running h = refl
running_of unknown h = cc
running_of not_installed h = cc
running_of stopped h = cc
running_of offline h = cc
running_of stale h = cc
running_of error h = cc
running_of version_mismatch h = cc

effective_running :
    (cfg : Settings) (now : ℤ) (e : Entry)
    → is_running (effective_state cfg.stale_after_s now e) ≡ true
    → (is_running e.state ≡ true) × (is_old e.sampled_at now cfg.stale_after_s ≡ false)
unfolding effective_state
effective_running cfg now e h = ground arith

status_of-IsFresh :
    (cfg : Settings) (now : ℤ) (e : Entry)
    → IsTimed e
    → is_some (status_of cfg.bundled cfg.stale_after_s now e).temperature_c ≡ true
    → IsFresh cfg now e
unfolding status_of is_old
status_of-IsFresh cfg now e s h =
    let shown : is_running (effective_state cfg.stale_after_s now e) ≡ true = ground arith in
    let (up, young) = effective_running cfg now e shown in
    elim (Option-cases e.sampled_at) [
      | inl p ↦ ground (arith, s)
      | inr (t, p) ↦ (running_of e.state up, t, p, ground arith)
    ]

-- After any run from a new entry: where the status payload has a temperature, the state is running and
-- the sample is no older than the staleness window.
pub run-IsFresh :
    (cfg : Settings) (py : PyText) (cs : List Call) (now : ℤ)
    → let (e, _) = run cfg py cs new_entry in
      is_some (status_of cfg.bundled cfg.stale_after_s now e).temperature_c ≡ true
      → IsFresh cfg now e
run-IsFresh cfg py cs now =
    let (e, _) = run cfg py cs new_entry in
    status_of-IsFresh cfg now e (run-new_entry-IsTimed cfg py cs)

-- A start or restart that leaves the service active keeps the metrics of the reading before it: the
-- status payload then has neither a temperature nor an age, but has those metrics.
pub service_action-metrics :
    (cfg : Settings) (a : ServiceAction) (now : ℤ) (e : Entry)
    → a ≢ ServiceAction.stop
    → let shown = status_of cfg.bundled cfg.stale_after_s now (service_action a true e) in
      (shown.temperature_c ≡ none)
      × ((shown.age_s ≡ none) × (shown.metrics ≡ shown_metrics e.metrics))
unfolding service_action note_started note_active bump status_of effective_state is_old
service_action-metrics cfg start now e h = ground arith
service_action-metrics cfg restart now e h = ground arith
service_action-metrics cfg ServiceAction.stop now e h = ground arith
