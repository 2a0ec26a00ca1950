-- ===== src/Telemetry/Outages.antt =====
-- linien-gateway/app/rp_telemetry.py: the cached sample and the reports of outages over any run of the
-- steps of polls, reads on demand, log lines and operator actions.
use linien_multi_device.Prelude.{
  ℕ, ◌+◌, ℤ, Bool, true, false, Option, none, some, String, List, [], ◌∷◌, ◌≡◌, refl, arith,
  if◌then◌else◌,
}
use linien_multi_device.Telemetry.{Entry, new_entry}
use linien_multi_device.Telemetry.Protocol.{PyText, Reading, read_telemetry}
use linien_multi_device.Telemetry.Polling.{
  Settings, Device, Transition, Event, apply_reading, count_probe, name_missing, log_outage,
  log_version, note_recovery, note_loss, note_mismatch,
}
use linien_multi_device.Telemetry.Actions.{
  ServiceAction, start, stop, restart, uninstall, service_action, note_service_version,
  note_verified, note_deployed, bump, note_started, note_active,
}
use linien_multi_device.Telemetry.Calls.{
  Call, count, poll, log_health, log_build, deploy, verify, remove, service, inspect, step, run,
  IsRead, read_telemetry-IsRead,
}
use linien_multi_device.Telemetry.Health.{
  IsTimed, losses, recoveries, bit, losses-append, recoveries-append, apply_current-IsTimed,
  apply_current-loss, log_outage-balanced,
}

apply_reading-IsTimed :
    (cfg : Settings) (now : ℤ) (d : Device) (seq : Option ℕ) (track : Bool) (o : Option Bool)
    (p : Bool) (v : Option String) (r : Reading) (e : Entry)
    → IsTimed e
    → let (e', _, _, _) = apply_reading cfg now d seq track o p v r e in IsTimed e'
unfolding apply_reading
apply_reading-IsTimed cfg now d seq track o p v r e s =
    ground (arith, s, apply_current-IsTimed cfg now d track o p v r e s)

apply_reading-loss :
    (cfg : Settings) (now : ℤ) (d : Device) (seq : Option ℕ) (track : Bool) (o : Option Bool)
    (p : Bool) (v : Option String) (r : Reading) (e : Entry)
    → let (e', _, _, events) = apply_reading cfg now d seq track o p v r e in
      (e'.loss_reported ≡ e.loss_reported) × ((losses events ≡ 0) × (recoveries events ≡ 0))
unfolding apply_reading
apply_reading-loss cfg now d seq track o p v r e =
    ground (arith, apply_current-loss cfg now d track o p v r e)

note_verified-IsTimed :
    (now : ℤ) (r : Reading) (e : Entry)
    → IsRead r
    → IsTimed e
    → let (e', _) = note_verified now r e in IsTimed e'
unfolding note_verified bump
note_verified-IsTimed now r e h s = ground (arith, h, s)

service_action-IsTimed :
    (a : ServiceAction) (active : Bool) (e : Entry)
    → IsTimed e
    → IsTimed (service_action a active e)
unfolding service_action note_started note_active bump
service_action-IsTimed stop active e s = s
service_action-IsTimed start active e s = ground (arith, s)
service_action-IsTimed restart active e s = ground (arith, s)

log_version-loss :
    (b : String) (t : Transition) (e : Entry)
    → let (e', events) = log_version b t e in
      (e'.loss_reported ≡ e.loss_reported) × ((losses events ≡ 0) × (recoveries events ≡ 0))
unfolding log_version note_mismatch
log_version-loss b t e = ground arith

-- The operator actions that reset the health counters, and whether one hides a reported loss.
abbrev pub resets : Call → Bool
resets deploy = true
resets remove = true
resets (service stop _) = false
resets (service _ _) = true
resets _ = false

abbrev pub cleared : Call → Entry → ℕ
cleared c e = if resets c then bit e.loss_reported else 0

-- A log step finds the flag that was captured for it: no other has changed it since.
abbrev Fits : Call → Entry → Type 0
Fits (log_health t) e = t.loss_reported ≡ e.loss_reported
Fits _ e = Unit

abbrev Balances : Call → Entry → Entry × List Event → Type 0
Balances c e (e', events) =
    recoveries events + bit e'.loss_reported + cleared c e ≡ losses events + bit e.loss_reported

service_action-Balances :
    (a : ServiceAction) (active : Bool) (e : Entry)
    → Balances (service a active) e (service_action a active e, [])
unfolding service_action note_started note_active bump
service_action-Balances stop active e = ground arith
service_action-Balances start active e = ground arith
service_action-Balances restart active e = ground arith

module _ (cfg : Settings) (py : PyText) where
  step-IsTimed : (c : Call) (e : Entry) → IsTimed e → let (e', _) = step cfg py c e in IsTimed e'
  unfolding step count_probe log_outage note_recovery note_loss log_version note_mismatch
      note_deployed uninstall note_service_version bump
  step-IsTimed (count none) e s = s
  step-IsTimed (count (some v)) e s = s
  step-IsTimed (poll track now d seq probed v answer) e s =
      apply_reading-IsTimed cfg now d (some seq) track (some d.installed) probed v
        (name_missing d.installed (read_telemetry py d.host answer)) e s
  step-IsTimed (log_health t) e s = ground (arith, s)
  step-IsTimed (log_build t) e s = ground (arith, s)
  step-IsTimed deploy e s = s
  step-IsTimed (verify now host answer) e s =
      note_verified-IsTimed now (read_telemetry py host answer) e
        (read_telemetry-IsRead py host answer) s
  step-IsTimed remove e s = refl
  step-IsTimed (service a active) e s = service_action-IsTimed a active e s
  step-IsTimed (inspect none) e s = s
  step-IsTimed (inspect (some v)) e s = s

  run-IsTimed :
      (cs : List Call) (e : Entry) → IsTimed e → let (e', _) = run cfg py cs e in IsTimed e'
  unfolding run
  run-IsTimed [] e s = s
  run-IsTimed (c ∷ cs) e s = let (e', _) = step cfg py c e in run-IsTimed cs e' (step-IsTimed c e s)

  -- After any run of steps from a new entry, in any order: a temperature is cached exactly together with
  -- the time of its sample.
  pub run-new_entry-IsTimed : (cs : List Call) → let (e', _) = run cfg py cs new_entry in IsTimed e'
  run-new_entry-IsTimed cs = run-IsTimed cs new_entry refl

  step-Balances : (c : Call) (e : Entry) → Fits c e → Balances c e (step cfg py c e)
  unfolding step count_probe note_deployed note_verified uninstall note_service_version bump
  step-Balances (count none) e f = ground arith
  step-Balances (count (some v)) e f = ground arith
  step-Balances (poll track now d seq probed v answer) e f = ground (
    arith,
    apply_reading-loss cfg now d (some seq) track (some d.installed) probed v
        (name_missing d.installed (read_telemetry py d.host answer)) e,
  )
  step-Balances (log_health t) e f = ground (arith, log_outage-balanced t e f)
  step-Balances (log_build t) e f = ground (arith, log_version-loss cfg.bundled t e)
  step-Balances deploy e f = ground arith
  step-Balances (verify now host answer) e f = ground arith
  step-Balances remove e f = ground arith
  step-Balances (service a active) e f = service_action-Balances a active e
  step-Balances (inspect none) e f = ground arith
  step-Balances (inspect (some v)) e f = ground arith

  -- Each log step of a run fits.
  abbrev pub Undisturbed : List Call → Entry → Type 0
  Undisturbed [] e = Unit
  Undisturbed (c ∷ cs) e = Fits c e × (let (e', _) = step cfg py c e in Undisturbed cs e')

  -- The reported losses that the operator actions of a run reset.
  abbrev pub run_cleared : List Call → Entry → ℕ
  run_cleared [] e = 0
  run_cleared (c ∷ cs) e = let (e', _) = step cfg py c e in cleared c e + run_cleared cs e'

  -- Over any run of steps in which no other step changes the reported loss between a poll and its log
  -- lines, the lines that report a loss, with one that was reported before, are as many as the lines
  -- that report a recovery, the losses that operator actions reset, and the one still reported.
  pub run-balanced :
      (cs : List Call) (e : Entry)
      → Undisturbed cs e
      → let (e', events) = run cfg py cs e in
        losses events + bit e.loss_reported
        ≡ recoveries events + run_cleared cs e + bit e'.loss_reported
  unfolding run
  run-balanced [] e u = ground arith
  run-balanced (c ∷ cs) e (fits, u) =
      let (e', first) = step cfg py c e in
      let (_, rest) = run cfg py cs e' in
      ground (
        arith,
        step-Balances c e fits,
        run-balanced cs e' u,
        losses-append first rest,
        recoveries-append first rest,
      )
