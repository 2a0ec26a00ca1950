-- ===== src/Telemetry/Calls.antt =====
-- The steps on one device's telemetry entry (linien-gateway/app/rp_telemetry.py) as a data type, with
-- the network's answers as their arguments, and their runs in any order. A step carries what it captured
-- before, which need not be the entry's any more: a poll its `mutation_seq`, a log step its transition.
use linien_multi_device.Prelude.{
  ℕ, ℤ, Bool, Option, some, String, List, [], ◌∷◌, ◌++◌, ◌≡◌, refl, arith, is_some,
}
use linien_multi_device.Telemetry.{Entry, is_running}
use linien_multi_device.Telemetry.Protocol.{
  PyText, Reading, Float, invalid, non_finite, finite, Answer, Failure, classify_exception,
  parse_temperature, parse_parts, parse_status_line, read_answer, read_telemetry,
  connection_refused, timeout, value_error, limit_overrun, os_error, other_error,
}
use linien_multi_device.Telemetry.Polling.{
  Settings, Device, Event, Transition, count_probe, name_missing, apply_reading, log_outage,
  log_version,
}
use linien_multi_device.Telemetry.Actions.{
  ServiceAction, note_deployed, note_verified, uninstall, service_action, note_service_version,
}

-- `count` is the count of an unanswered VERSION request, `poll` what _apply_reading does for a poll
-- (its first flag is set) or a read on demand, `log_health` and `log_build` the two parts of
-- _log_transitions with what was captured for them; `deploy` and `verify` are the two parts of install.
pub data Call : Type 0 where
  count : Option String → Call
  poll : Bool → ℤ → Device → ℕ → Bool → Option String → Answer → Call
  log_health log_build : Transition → Call
  deploy : Call
  verify : ℤ → String → Answer → Call
  remove : Call
  service : ServiceAction → Bool → Call
  inspect : Option String → Call

module _ (cfg : Settings) (py : PyText) where
  unfoldable pub step : Call → Entry → Entry × List Event
  step (count version) e = let (e', _) = count_probe version e in (e', [])
  step (poll track now device seq probed version answer) e =
      let r = name_missing device.installed (read_telemetry py device.host answer) in
      let (e', _, _, events) =
        apply_reading cfg now device (some seq) track (some device.installed) probed version r e in
      (e', events)
  step (log_health t) e = log_outage t e
  step (log_build t) e = log_version cfg.bundled t e
  step deploy e = (note_deployed cfg e, [])
  step (verify now host answer) e =
      let (e', _) = note_verified now (read_telemetry py host answer) e in (e', [])
  step remove e = (uninstall e, [])
  step (service action active) e = (service_action action active e, [])
  step (inspect version) e = (note_service_version version e, [])

  unfoldable pub run : List Call → Entry → Entry × List Event
  run [] e = (e, [])
  run (c ∷ cs) e = let (e', first) = step c e in let (e'', rest) = run cs e' in (e'', first ++ rest)

-- A reading that is running has a temperature, and no other has one.
abbrev pub IsRead : Reading → Type 0
IsRead r = is_some r.temperature_c ≡ is_running r.state

parse_temperature-IsRead :
    (py : PyText) (raw : String) (rest : List String) (t : Float)
    → IsRead (parse_temperature py raw rest t)
unfolding parse_temperature
parse_temperature-IsRead py raw rest invalid = refl
parse_temperature-IsRead py raw rest non_finite = refl
parse_temperature-IsRead py raw rest (finite t) = ground arith

parse_parts-IsRead : (py : PyText) (parts : List String) → IsRead (parse_parts py parts)
unfolding parse_parts
parse_parts-IsRead py [] = refl
parse_parts-IsRead py (id ∷ []) = ground arith
parse_parts-IsRead py (id ∷ second ∷ rest) =
    ground (arith, parse_temperature-IsRead py second rest (py.float_of second))

classify_exception-IsRead : (f : Failure) → IsRead (classify_exception f)
unfolding classify_exception
classify_exception-IsRead connection_refused = refl
classify_exception-IsRead timeout = refl
classify_exception-IsRead value_error = refl
classify_exception-IsRead limit_overrun = refl
classify_exception-IsRead (os_error text) = refl
classify_exception-IsRead (other_error text) = refl

pub read_telemetry-IsRead :
    (py : PyText) (host : String) (answer : Answer) → IsRead (read_telemetry py host answer)
unfolding read_telemetry read_answer parse_status_line
read_telemetry-IsRead py host (Answer.line text) =
    ground (arith, parse_parts-IsRead py (py.split_twice (py.strip text)))
read_telemetry-IsRead py host (Answer.raised failure) =
    ground (arith, classify_exception-IsRead failure)
