-- ===== src/Telemetry/Freshness.antt =====
-- linien-gateway/app/rp_telemetry.py: polls and reads that an operator action has overtaken.
use linien_multi_device.Prelude.{
  ℕ, suc, ◌+◌, ◌≤◌, ◌≢◌, ℤ, Bool, true, false, Option, none, some, String, List, [], ◌∷◌, ◌≡◌, refl,
  arith, if◌then◌else◌, ap, ◌∙◌, any,
}
use linien_multi_device.Telemetry.{Entry}
use linien_multi_device.Telemetry.Protocol.{Reading}
use linien_multi_device.Telemetry.Polling.{
  Settings, Device, finish_poll, count_probe, needs_version, name_missing, apply_reading,
  ask_version, finish_read, apply_current, note_installed, note_probed, note_version, fold_reading,
  take_success, take_failure, Transition, log_outage, log_version, note_recovery, note_loss,
  note_mismatch,
}
use linien_multi_device.Telemetry.Protocol.{PyText, read_telemetry}
use linien_multi_device.Telemetry.Actions.{
  start, stop, restart, uninstall, service_action, note_service_version, note_verified,
  note_deployed, bump, note_started, note_active,
}
use linien_multi_device.Telemetry.Calls.{
  Call, count, poll, log_health, log_build, deploy, verify, remove, service, inspect, step, run,
}

apply_reading-stale :
    (cfg : Settings) (now : ℤ) (device : Device) (seq : ℕ) (track : Bool) (installed : Option Bool)
    (probed : Bool) (v : Option String) (r : Reading) (e : Entry)
    → seq ≢ e.mutation_seq
    → apply_reading cfg now device (some seq) track installed probed v r e ≡ (e, none, none, [])
unfolding apply_reading
apply_reading-stale cfg now device seq track installed probed v r e h = ground arith

-- The count of unanswered VERSION requests after a poll's request.
abbrev pub probe_failures : Device → Reading → Option String → Entry → ℕ
probe_failures device r (some v) e = e.version_probe_failures
probe_failures device r none e =
    if needs_version (name_missing device.installed r) e
    then suc e.version_probe_failures
    else e.version_probe_failures

ask_version-entry :
    (device : Device) (r : Reading) (v : Option String) (e : Entry)
    → let (e', _, _) = ask_version v (name_missing device.installed r) e in
      e' ≡ record e { version_probe_failures = probe_failures device r v e }
unfolding ask_version count_probe
ask_version-entry device r none e = ground arith
ask_version-entry device r (some v) e = ground arith

-- The steps that bump `mutation_seq`: those of the operator actions.
abbrev pub bumps : Call → Bool
bumps deploy = true
bumps (verify _ _ _) = true
bumps remove = true
bumps (service _ _) = true
bumps (inspect (some _)) = true
bumps _ = false

apply_reading-seq :
    (cfg : Settings) (now : ℤ) (d : Device) (seq : Option ℕ) (track : Bool) (o : Option Bool)
    (p : Bool) (v : Option String) (r : Reading) (e : Entry)
    → let (e', _, _, _) = apply_reading cfg now d seq track o p v r e in
      e'.mutation_seq ≡ e.mutation_seq
unfolding apply_reading apply_current note_installed note_probed note_version fold_reading
    take_success take_failure
apply_reading-seq cfg now d seq track o p v r e = ground arith

log-seq :
    (b : String) (t : Transition) (e : Entry)
    → let (e1, _) = log_outage t e in
      let (e2, _) = log_version b t e in
      (e1.mutation_seq ≡ e.mutation_seq) × (e2.mutation_seq ≡ e.mutation_seq)
unfolding log_outage note_recovery note_loss log_version note_mismatch
log-seq b t e = (ground arith, ground arith)

module _ (cfg : Settings) (py : PyText) where
  step-seq :
      (c : Call) (e : Entry)
      → let (e', _) = step cfg py c e in
        e'.mutation_seq ≡ (if bumps c then e.mutation_seq + 1 else e.mutation_seq)
  unfolding step count_probe note_deployed note_verified uninstall service_action note_started
      note_active note_service_version bump
  step-seq (count none) e = refl
  step-seq (count (some v)) e = refl
  step-seq (poll track now d seq probed v answer) e =
      apply_reading-seq cfg now d (some seq) track (some d.installed) probed v
        (name_missing d.installed (read_telemetry py d.host answer)) e
  step-seq (log_health t) e = (log-seq cfg.bundled t e).0
  step-seq (log_build t) e = (log-seq cfg.bundled t e).1
  step-seq deploy e = refl
  step-seq (verify now host answer) e = ground arith
  step-seq remove e = refl
  step-seq (service stop active) e = refl
  step-seq (service start active) e = ground arith
  step-seq (service restart active) e = ground arith
  step-seq (inspect none) e = refl
  step-seq (inspect (some v)) e = refl

  -- The steps of a run that bump it.
  abbrev bumps_in : List Call → ℕ
  bumps_in [] = 0
  bumps_in (c ∷ cs) = (if bumps c then 1 else 0) + bumps_in cs

  run-seq :
      (cs : List Call) (e : Entry)
      → let (e', _) = run cfg py cs e in e'.mutation_seq ≡ e.mutation_seq + bumps_in cs
  unfolding run
  run-seq [] e = ground arith
  run-seq (c ∷ cs) e = let (e', _) = step cfg py c e in ground (arith, step-seq c e, run-seq cs e')

  bumps_in-any : (cs : List Call) → any bumps cs ≡ true → 1 ≤ bumps_in cs
  bumps_in-any [] h = ground arith
  bumps_in-any (c ∷ cs) h = ground (arith, bumps_in-any cs)

  -- A poll or a read on demand that captured the `mutation_seq` of an entry before a run of steps with at
  -- least one of an operator action in it: its end gives no sample, has nothing to log or push, and
  -- leaves every field but, for a poll, the count of unanswered VERSION requests.
  pub finish_poll-late :
      (now : ℤ) (d : Device) (r : Reading) (v : Option String) (cs : List Call) (e : Entry)
      → any bumps cs ≡ true
      → let (e', _) = run cfg py cs e in
        (finish_poll cfg now d e.mutation_seq r v e'
          ≡ (record e' { version_probe_failures = probe_failures d r v e' }, none, none, []))
        × (finish_read cfg now d e.mutation_seq r e' ≡ (e', none, none, []))
  unfolding finish_poll finish_read
  finish_poll-late now d r v cs e h =
      let e' = (run cfg py cs e).0 in
      let m = name_missing d.installed r in
      let asked = (ask_version v m e').0 in
      let same = ask_version-entry d r v e' in
      let keeps : asked.mutation_seq ≡ e'.mutation_seq = ap (λ (x : Entry). x.mutation_seq) same in
      let moved : e.mutation_seq ≢ e'.mutation_seq =
        λ p. omega (arith, p, run-seq cs e, bumps_in-any cs h) in
      (
        apply_reading-stale cfg now d e.mutation_seq true (some d.installed) _ _ m asked
              (λ p. moved (p ∙ keeps))
            ∙ ap (λ x. (x, none, none, [])) same,
        apply_reading-stale cfg now d e.mutation_seq false (some d.installed) false none m e' moved,
      )
