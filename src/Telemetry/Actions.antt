-- ===== src/Telemetry/Actions.antt =====
-- linien-gateway/app/rp_telemetry.py: what install, uninstall, the service actions and service_status
-- write to a device's cache entry once their SSH commands were answered. Each of them bumps
-- `mutation_seq`, so a poll that captured an earlier one is dropped. The events are in Polling's words.
use linien_multi_device.Prelude.{
  ◌+◌, ℤ, Bool, true, false, Option, none, some, String, if◌then◌else◌,
}
use linien_multi_device.Telemetry.{running, stopped, not_installed, Entry}
use linien_multi_device.Telemetry.Protocol.{Reading}
use linien_multi_device.Telemetry.Polling.{Settings}

pub data ServiceAction : Type 0 where
  start stop restart : ServiceAction

unfoldable pub bump : Entry → Entry
bump e = record e { mutation_seq = e.mutation_seq + 1 }

-- install, once the service was deployed and restarted. Its verifying read comes after it, and what that
-- writes is a step of its own.
unfoldable pub note_deployed : Settings → Entry → Entry
unfolding bump
note_deployed cfg e = bump (record e {
  installed = true;
  version = some cfg.bundled;
  version_probed = false;
  version_probe_failures = 0;
  logged_version_mismatch = none;
  consecutive_failures = 0;
  loss_reported = false;
})

abbrev is_up : Reading → Bool
is_up r = elim r.state [ running ↦ true | _ ↦ false ]

-- The read that verifies an install. A failed one makes install raise, `ok = false` here.
unfoldable pub note_verified : ℤ → Reading → Entry → Entry × Bool
unfolding bump
note_verified now r e =
    if is_up r
    then (
      bump (record e {
        state = running;
        temperature_c = r.temperature_c;
        sampled_at = some now;
        last_success_at = some now;
        error = none;
      }),
      true,
    )
    else (bump (record e { state = r.state; error = r.error }), false)

unfoldable pub uninstall : Entry → Entry
unfolding bump
uninstall e = bump (record e {
  installed = false;
  state = not_installed;
  version = none;
  version_probed = false;
  version_probe_failures = 0;
  logged_version_mismatch = none;
  temperature_c = none;
  sampled_at = none;
  error = none;
  consecutive_failures = 0;
  loss_reported = false;
})

-- The fields that a start or restart sets where the unit is active afterwards.
unfoldable pub note_active : Entry → Entry
note_active e = record e {
  state = running;
  error = none;
  temperature_c = none;
  sampled_at = none;
  version_probed = false;
  version_probe_failures = 0;
}

unfoldable pub note_started : Bool → Entry → Entry
unfolding note_active
note_started active e =
    let e' = record e { consecutive_failures = 0; loss_reported = false } in
    if active then note_active e' else e'

-- `active` is whether `systemctl is-active` answered "active".
unfoldable pub service_action : ServiceAction → Bool → Entry → Entry
unfolding bump note_started
service_action stop active e =
    bump (record e { state = stopped; error = some "service stopped by operator" })
service_action start active e = note_started active (bump e)
service_action restart active e = note_started active (bump e)

-- service_status: the version of the binary on disk, where it answered one.
unfoldable pub note_service_version : Option String → Entry → Entry
unfolding bump
note_service_version none e = e
note_service_version (some v) e = bump (record e { version = some v })
