-- ===== src/AutoRelock/Invariant.antt =====
-- How the fields of the auto-relock controller go with its phase (linien-gateway/app/auto_relock.py).
use linien_multi_device.Prelude.{
  ℤ, Bool, true, false, Option, none, String, List, [], ◌∷◌, ◌≡◌, refl, arith, is_some, inl, inr,
  if_intro, ◌⊎◌, ◌∙◌,
}
use linien_multi_device.AutoRelock.{
  Config, Phase, Action, Indicator, Reason, Controller, idle, lost_pending, waiting_unlocked_trace,
  verifying, cooldown, relock, sweep, init, record_failure, begin_attempt, tick_waiting,
  tick_verifying, tick_retry, tick_trigger, tick_phase, disable, tick, tick_ready, leave_cooldown,
  complete_action, set_config,
}

abbrev pub is_cooldown : Phase → Bool
is_cooldown cooldown = true
is_cooldown _ = false

-- What each phase promises of the other fields. `cooldown_until` is set exactly in cooldown, and a
-- controller that is disabled or cools down waits for no action and has used no attempt.
pub record IsWellFormed (c : Controller) : Type 0 where
  pub until : is_some c.cooldown_until ≡ is_cooldown c.state
  pub disabled_state : c.config.enabled ≡ false → c.state ≡ idle
  pub disabled_attempts : c.config.enabled ≡ false → c.attempts ≡ 0
  pub disabled_pending : c.config.enabled ≡ false → c.pending_action ≡ none
  pub idle_lost : c.state ≡ idle → c.lost_since ≡ none
  pub cooldown_lost : c.state ≡ cooldown → c.lost_since ≡ none
  pub cooldown_attempts : c.state ≡ cooldown → c.attempts ≡ 0
  pub cooldown_pending : c.state ≡ cooldown → c.pending_action ≡ none
  pub waiting_since : c.state ≡ waiting_unlocked_trace → is_some c.wait_since ≡ true
  pub verifying_since : c.state ≡ verifying → is_some c.verify_since ≡ true
  pub pending_since : c.state ≡ lost_pending → is_some c.lost_since ≡ true

init-IsWellFormed : (config : Config) (hook : Bool) → IsWellFormed (init config hook)
init-IsWellFormed config hook = ground arith

record_failure-IsWellFormed :
    (reason : Reason) (now : ℤ) (c : Controller)
    → c.config.enabled ≡ true
    → is_some c.cooldown_until ≡ false
    → IsWellFormed (record_failure reason now c)
unfolding record_failure
record_failure-IsWellFormed reason now c on h = ground arith

-- An invariant of a step that returns an action beside the controller.
abbrev Keeps : Controller × Option Action → Type 0
Keeps (c, _) = IsWellFormed c

module _ (c : Controller) (on : c.config.enabled ≡ true)
    (free : is_some c.cooldown_until ≡ false) where
  begin_attempt-Keeps :
      (now : ℤ) → c.state ≡ lost_pending → is_some c.lost_since ≡ true → Keeps (begin_attempt now c)
  unfolding begin_attempt
  begin_attempt-Keeps now s l = ground arith

  tick_waiting-Keeps :
      (trace_at : Option ℤ) (ts : ℤ)
      → IsWellFormed c
      → c.state ≡ waiting_unlocked_trace
      → Keeps (tick_waiting trace_at ts c)
  unfolding tick_waiting
  tick_waiting-Keeps trace_at ts w s = ground arith

  tick_verifying-Keeps :
      (lock : Bool) (indicator : Option Indicator) (ts : ℤ)
      → IsWellFormed c
      → c.state ≡ verifying
      → Keeps (tick_verifying lock indicator ts c)
  unfolding tick_verifying
  tick_verifying-Keeps lock indicator ts w s = ground arith

  tick_retry-Keeps : (ts : ℤ) → IsWellFormed c → c.state ≡ lost_pending → Keeps (tick_retry ts c)
  unfolding tick_retry
  tick_retry-Keeps ts w s = ground arith

  tick_trigger-Keeps :
      (lock : Bool) (indicator : Option Indicator) (ts : ℤ)
      → IsWellFormed c
      → (c.state ≡ idle) ⊎ (c.state ≡ lost_pending)
      → Keeps (tick_trigger lock indicator ts c)
  unfolding tick_trigger
  tick_trigger-Keeps lock indicator ts w s = ground arith

  tick_phase-Keeps :
      (p : Phase) (lock : Bool) (indicator : Option Indicator) (trace_at : Option ℤ) (ts : ℤ)
      → IsWellFormed c
      → c.state ≡ p
      → Keeps (tick_phase p lock indicator trace_at ts c)
  unfolding tick_phase
  tick_phase-Keeps waiting_unlocked_trace lock indicator trace_at ts w s =
      tick_waiting-Keeps trace_at ts w s
  tick_phase-Keeps verifying lock indicator trace_at ts w s =
      tick_verifying-Keeps lock indicator ts w s
  tick_phase-Keeps lost_pending lock indicator trace_at ts w s =
      if_intro Keeps c.retry_primed _ _ (λ _. tick_retry-Keeps ts w s)
        (λ _. tick_trigger-Keeps lock indicator ts w (inr s))
  tick_phase-Keeps idle lock indicator trace_at ts w s =
      tick_trigger-Keeps lock indicator ts w (inl s)
  tick_phase-Keeps cooldown lock indicator trace_at ts w s = ground (arith, w.until)

disable-IsWellFormed : (c : Controller) → IsWellFormed (disable c)
unfolding disable
disable-IsWellFormed c = ground arith

leave_cooldown-IsWellFormed :
    (c : Controller) → IsWellFormed c → IsWellFormed (leave_cooldown c.state c)
unfolding leave_cooldown
leave_cooldown-IsWellFormed c w = ground arith

enabled-leave_cooldown :
    (p : Phase) (c : Controller) → (leave_cooldown p c).config.enabled ≡ c.config.enabled
unfolding leave_cooldown
enabled-leave_cooldown p c = ground arith

leave_cooldown-free :
    (c : Controller) → IsWellFormed c → is_some (leave_cooldown c.state c).cooldown_until ≡ false
unfolding leave_cooldown
leave_cooldown-free c w = ground arith

tick_ready-IsWellFormed :
    (lock : Bool) (indicator : Option Indicator) (trace_at : Option ℤ) (ts : ℤ) (c : Controller)
    → c.config.enabled ≡ true
    → IsWellFormed c
    → Keeps (tick_ready lock indicator trace_at ts c)
unfolding tick_ready
tick_ready-IsWellFormed lock indicator trace_at ts c on w =
    let c' = leave_cooldown c.state c in
    tick_phase-Keeps c' (enabled-leave_cooldown c.state c ∙ on) (leave_cooldown-free c w) c'.state
      lock indicator trace_at ts (leave_cooldown-IsWellFormed c w) refl

pub tick-IsWellFormed :
    (lock : Bool) (indicator : Option Indicator) (trace_at : Option ℤ) (ts : ℤ) (c : Controller)
    → IsWellFormed c
    → IsWellFormed (tick lock indicator trace_at ts c).0
unfolding tick
tick-IsWellFormed lock indicator trace_at ts c w =
    ground (arith, tick_ready-IsWellFormed lock indicator trace_at ts c)

pub complete_action-IsWellFormed :
    (action : Action) (succeeded : Bool) (error : Option String) (ts : ℤ) (c : Controller)
    → IsWellFormed c
    → IsWellFormed (complete_action action succeeded error ts c)
unfolding complete_action
complete_action-IsWellFormed action succeeded error ts c w = ground arith

pub set_config-IsWellFormed :
    (config : Config) (c : Controller) → IsWellFormed c → IsWellFormed (set_config config c)
unfolding set_config
set_config-IsWellFormed config c w = ground arith

-- The calls that the session and the API make on a controller.
pub data Call : Type 0 where
  tick_call : Bool → Option Indicator → Option ℤ → ℤ → Call
  complete_call : Action → Bool → Option String → ℤ → Call
  config_call : Config → Call

unfoldable pub run : List Call → Controller → Controller
run [] c = c
run (tick_call lock indicator trace_at ts ∷ calls) c =
    run calls (tick lock indicator trace_at ts c).0
run (complete_call action succeeded error ts ∷ calls) c =
    run calls (complete_action action succeeded error ts c)
run (config_call config ∷ calls) c = run calls (set_config config c)

run-IsWellFormed :
    (calls : List Call) (c : Controller) → IsWellFormed c → IsWellFormed (run calls c)
unfolding run
run-IsWellFormed [] c w = w
run-IsWellFormed (tick_call lock indicator trace_at ts ∷ calls) c w =
    run-IsWellFormed calls _ (tick-IsWellFormed lock indicator trace_at ts c w)
run-IsWellFormed (complete_call action succeeded error ts ∷ calls) c w =
    run-IsWellFormed calls _ (complete_action-IsWellFormed action succeeded error ts c w)
run-IsWellFormed (config_call config ∷ calls) c w =
    run-IsWellFormed calls _ (set_config-IsWellFormed config c w)

-- Whatever the session calls on a new controller, in whatever order and with whatever clock
-- readings, its fields agree with its phase.
pub run-init-IsWellFormed :
    (config : Config) (hook : Bool) (calls : List Call)
    → IsWellFormed (run calls (init config hook))
run-init-IsWellFormed config hook calls = run-IsWellFormed calls _ (init-IsWellFormed config hook)

-- In a well-formed controller, a result that comes back while it is disabled or cools down changes
-- nothing: a cancelled attempt is not resurrected.
pub complete_action_cancelled :
    (action : Action) (succeeded : Bool) (error : Option String) (ts : ℤ) (c : Controller)
    → IsWellFormed c
    → (c.config.enabled ≡ false) ⊎ (c.state ≡ cooldown)
    → complete_action action succeeded error ts c ≡ c
unfolding complete_action
complete_action_cancelled sweep succeeded error ts c w h = ground arith
complete_action_cancelled relock succeeded error ts c w h = ground arith
