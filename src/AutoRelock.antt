-- ===== src/AutoRelock.antt =====
-- linien-gateway/app/auto_relock.py: the class AutoRelockController, method by method. tick() is cut
-- at its early returns: one function for each phase that it tests for, in the order of the tests.
-- Times are integers, in microseconds; `now` is always given, as the callers' clock reading.
mod Types
pub mod Invariant
pub mod Attempts
pub mod Settings
pub mod Progress
pub mod Cycle
pub mod Cooldown
pub use Types.{
  Config, Phase, Action, Indicator, Reason, Event, Controller, idle, lost_pending,
  waiting_unlocked_trace, verifying, cooldown, sweep, relock, unknown, locked, marginal, lost,
  max_attempts_reached, unlocked_trace_timeout, verify_failed, start_sweep_failed,
  start_relock_failed, attempt, success, failure,
}
use linien_multi_device.Prelude.{
  ℕ, ◌+◌, ◌*◌, ℤ, pos, ◌+ℤ◌, ◌-ℤ◌, ◌*ℤ◌, ltb_ℤ, leb_ℤ, max_ℤ, Bool, true, false, ◌&&◌, not, Option,
  none, some, String, List, [], ◌∷◌, ◌++◌, ltb, leb, ◌==◌, if◌then◌else◌,
}

abbrev pub init : Config → Bool → Controller
init config event_hook = record {
  config = config;
  event_hook = event_hook;
  state = idle;
  lost_since = none;
  wait_since = none;
  verify_since = none;
  verify_good_since = none;
  cooldown_until = none;
  retry_primed = false;
  pending_action = none;
  attempts = 0;
  last_trigger_at = none;
  last_attempt_at = none;
  last_success_at = none;
  last_failure_at = none;
  last_error = none;
  emitted = [];
}

-- `(ts - since) >= hold`
unfoldable pub elapsed : ℤ → ℤ → ℤ → Bool
elapsed hold since ts = leb_ℤ hold (ts -ℤ since)

pub emit_event : Event → Controller → Controller
emit_event e c = if c.event_hook then record c { emitted = c.emitted ++ e ∷ [] } else c

pub reset_transient : Controller → Controller
reset_transient c = record c {
  lost_since = none;
  wait_since = none;
  verify_since = none;
  verify_good_since = none;
  retry_primed = false;
  pending_action = none;
}

pub enter_cooldown : ℤ → Controller → Controller
unfolding reset_transient
enter_cooldown now c =
    let r = reset_transient c in
    if ltb_ℤ (pos 0) c.config.cooldown_s
    then record r {
      attempts = 0;
      cooldown_until = some (now +ℤ c.config.cooldown_s);
      state = cooldown;
    }
    else record r { attempts = 0; cooldown_until = none; state = idle }

-- What `_record_failure` does after the budget test: prime the retry.
prime_retry : ℤ → Controller → Controller
prime_retry now c = record c {
  state = lost_pending;
  retry_primed = true;
  lost_since = some (now -ℤ c.config.trigger_hold_s);
  wait_since = none;
  verify_since = none;
  verify_good_since = none;
}

pub record_failure : Reason → ℤ → Controller → Controller
unfolding emit_event enter_cooldown prime_retry
record_failure reason now c =
    let noted =
      emit_event (failure reason c.attempts c.config.max_attempts c.state now)
        (record c { last_error = some reason; last_failure_at = some now }) in
    if leb c.config.max_attempts c.attempts then enter_cooldown now noted else prime_retry now noted

pub begin_attempt : ℤ → Controller → Controller × Option Action
unfolding record_failure emit_event
begin_attempt now c =
    if leb c.config.max_attempts c.attempts
    then (record_failure max_attempts_reached now c, none)
    else (
      record (emit_event (attempt (c.attempts + 1) c.config.max_attempts now)
          (record c { attempts = c.attempts + 1; last_attempt_at = some now })) {
            pending_action = some sweep;
          },
      some sweep,
    )

-- `unlocked_trace_at is not None and (wait_since is None or unlocked_trace_at >= wait_since)`
unfoldable pub has_fresh_unlocked_trace : Option ℤ → Option ℤ → Bool
has_fresh_unlocked_trace none wait_since = false
has_fresh_unlocked_trace (some at) none = true
has_fresh_unlocked_trace (some at) (some since) = leb_ℤ since at

-- `since is not None and (ts - since) >= hold`
pub elapsed_since : ℤ → Option ℤ → ℤ → Bool
elapsed_since hold none ts = false
elapsed_since hold (some since) ts = elapsed hold since ts

-- `since is None or (ts - since) >= hold`
pub elapsed_or_unset : ℤ → Option ℤ → ℤ → Bool
elapsed_or_unset hold none ts = true
elapsed_or_unset hold (some since) ts = elapsed hold since ts

unfoldable pub is_lost : Option Indicator → Bool
is_lost (some lost) = true
is_lost _ = false

-- The reset that tick() and set_config() make while the controller is disabled.
pub disable : Controller → Controller
unfolding reset_transient
disable c =
    reset_transient
      (record c { state = idle; attempts = 0; cooldown_until = none; last_error = none })

pub tick_waiting : Option ℤ → ℤ → Controller → Controller × Option Action
unfolding has_fresh_unlocked_trace elapsed_since record_failure
tick_waiting unlocked_trace_at ts c =
    if has_fresh_unlocked_trace unlocked_trace_at c.wait_since
    then (record c { pending_action = some relock }, some relock)
    else if elapsed_since c.config.unlocked_trace_timeout_s c.wait_since ts
    then (record_failure unlocked_trace_timeout ts c, none)
    else (c, none)

-- The time since which the verification has been good: set on the first healthy tick.
pub good_since : Option ℤ → ℤ → ℤ
good_since none ts = ts
good_since (some since) ts = since

pub verify_timeout : Config → ℤ
verify_timeout config = max_ℤ (pos 1000000) (config.verify_hold_s *ℤ pos 2)

pub tick_verifying : Bool → Option Indicator → ℤ → Controller → Controller × Option Action
unfolding is_lost good_since elapsed_since verify_timeout record_failure emit_event enter_cooldown
tick_verifying lock indicator ts c =
    if lock && not (is_lost indicator)
    then (let since = good_since c.verify_good_since ts in
        let good = record c { verify_good_since = some since } in
        if elapsed c.config.verify_hold_s since ts
        then (
          enter_cooldown ts (
              emit_event (success c.attempts ts)
                (record good { last_success_at = some ts; last_error = none })),
          none,
        )
        else (good, none))
    else (let bad = record c { verify_good_since = none } in
        if elapsed_since (verify_timeout c.config) c.verify_since ts
        then (record_failure verify_failed ts bad, none)
        else (bad, none))

-- The retry that a failure primed, whatever the lock says.
pub tick_retry : ℤ → Controller → Controller × Option Action
unfolding elapsed_or_unset begin_attempt
tick_retry ts c =
    if elapsed_or_unset c.config.trigger_hold_s c.lost_since ts
    then begin_attempt ts (record c { retry_primed = false })
    else (c, none)

-- `if self._last_trigger_at is None or self._attempts == 0: self._last_trigger_at = ts`
note_trigger : ℤ → Controller → Controller
note_trigger ts c = elim c.last_trigger_at [
  | none ↦ record c { last_trigger_at = some ts }
  | some _ ↦ if c.attempts == 0 then record c { last_trigger_at = some ts } else c
]

tick_still_lost : ℤ → ℤ → Controller → Controller × Option Action
unfolding note_trigger begin_attempt
tick_still_lost since ts c =
    if elapsed c.config.trigger_hold_s since ts
    then begin_attempt ts (note_trigger ts c)
    else (record c { state = lost_pending }, none)

pub tick_lost : ℤ → Controller → Controller × Option Action
unfolding tick_still_lost
tick_lost ts c = elim c.lost_since [
  | none ↦ (record c { lost_since = some ts; state = lost_pending }, none)
  | some since ↦ tick_still_lost since ts c
]

tick_not_lost : Controller → Controller × Option Action
tick_not_lost c =
    let cleared = record c { lost_since = none } in
    elim c.state [ lost_pending ↦ (record cleared { state = idle }, none) | _ ↦ (cleared, none) ]

pub tick_trigger : Bool → Option Indicator → ℤ → Controller → Controller × Option Action
unfolding is_lost tick_lost tick_not_lost
tick_trigger lock indicator ts c =
    if lock && is_lost indicator then tick_lost ts c else tick_not_lost c

-- The tests on the phase, once the cooldown is behind. The phase is `c.state`.
pub tick_phase :
    Phase → Bool → Option Indicator → Option ℤ → ℤ → Controller → Controller × Option Action
unfolding tick_waiting tick_verifying tick_retry tick_trigger
tick_phase waiting_unlocked_trace lock indicator trace_at ts c = tick_waiting trace_at ts c
tick_phase verifying lock indicator trace_at ts c = tick_verifying lock indicator ts c
tick_phase lost_pending lock indicator trace_at ts c =
    if c.retry_primed then tick_retry ts c else tick_trigger lock indicator ts c
tick_phase _ lock indicator trace_at ts c = tick_trigger lock indicator ts c

-- `if self._state == "cooldown": self._cooldown_until = None; self._set_state("idle")`
pub leave_cooldown : Phase → Controller → Controller
leave_cooldown cooldown c = record c { cooldown_until = none; state = idle }
leave_cooldown _ c = c

-- `self._cooldown_until is not None and ts < self._cooldown_until`
pub cooling : Option ℤ → ℤ → Bool
cooling none ts = false
cooling (some until) ts = ltb_ℤ ts until

pub tick_ready : Bool → Option Indicator → Option ℤ → ℤ → Controller → Controller × Option Action
unfolding leave_cooldown tick_phase
tick_ready lock indicator unlocked_trace_at ts c =
    let c' = leave_cooldown c.state c in tick_phase c'.state lock indicator unlocked_trace_at ts c'

pub tick : Bool → Option Indicator → Option ℤ → ℤ → Controller → Controller × Option Action
unfolding disable cooling
tick lock indicator unlocked_trace_at ts c =
    if not c.config.enabled
    then (disable c, none)
    else if cooling c.cooldown_until ts
    then (record c { state = cooldown }, none)
    else tick_ready lock indicator unlocked_trace_at ts c

pub same_action : Action → Option Action → Bool
same_action sweep (some sweep) = true
same_action relock (some relock) = true
same_action _ _ = false

-- The effect of a result that is not stale, with the pending action cleared.
pub apply_result : Action → Bool → Option String → ℤ → Controller → Controller
unfolding record_failure
apply_result sweep true error ts c = record c {
  wait_since = some ts;
  state = waiting_unlocked_trace;
}
apply_result sweep false error ts c = record_failure (start_sweep_failed error) ts c
apply_result relock true error ts c = record c {
  verify_since = some ts;
  verify_good_since = none;
  wait_since = none;
  state = verifying;
}
apply_result relock false error ts c = record_failure (start_relock_failed error) ts c

pub complete_action : Action → Bool → Option String → ℤ → Controller → Controller
unfolding same_action apply_result
complete_action action succeeded error ts c =
    if same_action action c.pending_action
    then apply_result action succeeded error ts (record c { pending_action = none })
    else c

-- set_config() with a configuration object; what a mapping is turned into is in AutoRelock.Settings.
pub set_config : Config → Controller → Controller
unfolding disable
set_config config c =
    let configured = record c { config = config } in
    if config.enabled then configured else disable configured
