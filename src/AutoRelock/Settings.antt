-- ===== src/AutoRelock/Settings.antt =====
-- AutoRelockConfig.from_mapping and to_dict, and the controller's set_config and set_enabled on
-- mappings (linien-gateway/app/auto_relock.py).
use linien_multi_device.Prelude.{
  ◌*◌, ◌≤◌, pos, pos_part, max_ℤ, ◌≤ℤ◌, Bool, true, false, Option, none, some, [], ◌∷◌, ◌≡◌, arith,
}
use linien_multi_device.Payload.{
  PyText, boolean, number, Mapping, million, as_bool, as_float, as_int, get, put, round_int-whole,
}
use linien_multi_device.AutoRelock.{Config, Controller, init, set_config}

abbrev pub defaults : Config
defaults = record {
  enabled = false;
  trigger_hold_s = pos 800000;
  verify_hold_s = pos 1200000;
  cooldown_s = pos 8000000;
  unlocked_trace_timeout_s = pos 2000000;
  max_attempts = 2;
}

pub from_mapping : PyText → Option Mapping → Config
from_mapping py none = defaults
from_mapping py (some payload) = record {
  enabled = as_bool py (get "enabled" payload) defaults.enabled;
  trigger_hold_s =
      max_ℤ (pos 50000) (as_float py (get "trigger_hold_s" payload) defaults.trigger_hold_s);
  verify_hold_s =
      max_ℤ (pos 50000) (as_float py (get "verify_hold_s" payload) defaults.verify_hold_s);
  cooldown_s = max_ℤ (pos 0) (as_float py (get "cooldown_s" payload) defaults.cooldown_s);
  unlocked_trace_timeout_s =
      max_ℤ (pos 100000)
        (as_float py (get "unlocked_trace_timeout_s" payload) defaults.unlocked_trace_timeout_s);
  max_attempts =
      pos_part (max_ℤ (pos 1) (as_int py (get "max_attempts" payload) (pos defaults.max_attempts)));
}

pub to_dict : Config → Mapping
to_dict c =
    ("enabled", boolean c.enabled)
    ∷ ("trigger_hold_s", number c.trigger_hold_s)
    ∷ ("verify_hold_s", number c.verify_hold_s)
    ∷ ("cooldown_s", number c.cooldown_s)
    ∷ ("unlocked_trace_timeout_s", number c.unlocked_trace_timeout_s)
    ∷ ("max_attempts", number (pos (c.max_attempts * million)))
    ∷ []

pub set_mapping : PyText → Option Mapping → Controller → Controller
set_mapping py payload c = set_config (from_mapping py payload) c

pub set_enabled : PyText → Bool → Controller → Controller
unfolding set_mapping
set_enabled py enabled c =
    set_mapping py (some (put "enabled" (boolean enabled) (to_dict c.config))) c

-- The bounds that a configuration read from a mapping keeps.
pub record IsNormal (c : Config) : Type 0 where
  pub trigger : pos 50000 ≤ℤ c.trigger_hold_s
  pub verify : pos 50000 ≤ℤ c.verify_hold_s
  pub cooldown : pos 0 ≤ℤ c.cooldown_s
  pub timeout : pos 100000 ≤ℤ c.unlocked_trace_timeout_s
  pub budget : 1 ≤ c.max_attempts

-- Whatever the mapping holds, the configuration read from it keeps the bounds.
pub from_mapping-IsNormal :
    (py : PyText) (payload : Option Mapping) → IsNormal (from_mapping py payload)
unfolding from_mapping
from_mapping-IsNormal py none = ground arith
from_mapping-IsNormal py (some payload) = ground arith

-- A configuration within the bounds is read back from its own dictionary, `enabled` put anew.
from_mapping-put :
    (py : PyText) (enabled : Bool) (c : Config)
    → IsNormal c
    → from_mapping py (some (put "enabled" (boolean enabled) (to_dict c)))
      ≡ record c { enabled = enabled }
unfolding from_mapping to_dict get put as_bool as_float as_int
from_mapping-put py enabled c h = ground (arith, round_int-whole c.max_attempts)

-- Reading back the dictionary of a configuration within the bounds gives that configuration.
pub from_mapping-to_dict :
    (py : PyText) (c : Config) → IsNormal c → from_mapping py (some (to_dict c)) ≡ c
unfolding from_mapping to_dict get as_bool as_float as_int
from_mapping-to_dict py c h = ground (arith, round_int-whole c.max_attempts)

-- Switching on a controller whose configuration is within the bounds changes `enabled` alone: the
-- phase, the attempts and an action that is still pending stay as they are.
pub set_enabled-true :
    (py : PyText) (c : Controller)
    → IsNormal c.config
    → set_enabled py true c ≡ record c { config = record c.config { enabled = true } }
unfolding set_enabled set_config
set_enabled-true py c h = simp (from_mapping-put py true c.config h)

-- Switching off a controller whose configuration is within the bounds changes `enabled` and puts
-- the rest back to the start, but for the hook, the events and the times of the last trigger,
-- attempt, success and failure.
pub set_enabled-false :
    (py : PyText) (c : Controller)
    → IsNormal c.config
    → set_enabled py false c ≡ record (init (record c.config { enabled = false }) c.event_hook) {
      last_trigger_at = c.last_trigger_at;
      last_attempt_at = c.last_attempt_at;
      last_success_at = c.last_success_at;
      last_failure_at = c.last_failure_at;
      emitted = c.emitted;
    }
unfolding set_enabled set_config
set_enabled-false py c h = simp (from_mapping-put py false c.config h)
