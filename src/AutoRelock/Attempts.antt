-- ===== src/AutoRelock/Attempts.antt =====
-- When the controller hands out an action, what it has seen before, and how many attempts it makes
-- (linien-gateway/app/auto_relock.py).
use linien_multi_device.Prelude.{
  ◌+◌, ◌≤◌, ℤ, Bool, true, Option, none, some, String, ◌≡◌, arith, ◌⊎◌, inl, inr, Bool-cases,
  if_intro, List, [], ◌∷◌, ◌∙◌, ap, refl, not,
}
use linien_multi_device.AutoRelock.{
  Config, Phase, Action, Indicator, Reason, Controller, idle, lost_pending, waiting_unlocked_trace,
  verifying, cooldown, relock, sweep, tick_waiting, tick_verifying, tick_retry, tick_trigger,
  tick_phase, leave_cooldown, tick_ready, tick, complete_action, record_failure, is_lost,
  elapsed_or_unset, elapsed_since, disable, cooling, has_fresh_unlocked_trace,
}
use linien_multi_device.AutoRelock.Invariant.{Call, tick_call, complete_call, config_call, run}

-- What a step must have seen before it hands out an action at `ts`, and what it notes of it.
abbrev pub Explains :
    Bool → Option Indicator → Option ℤ → ℤ → Controller → Controller × Option Action → Type 0
Explains lock indicator trace_at ts c (c', none) = c'.attempts ≤ c.attempts
Explains lock indicator trace_at ts c (c', some relock) =
    (c.state ≡ waiting_unlocked_trace)
    × (c'.attempts ≡ c.attempts)
    × (c'.pending_action ≡ some relock)
    × (has_fresh_unlocked_trace trace_at c.wait_since ≡ true)
Explains lock indicator trace_at ts c (c', some sweep) =
    (c'.attempts ≡ c.attempts + 1)
    × (c'.attempts ≤ c.config.max_attempts)
    × (c'.pending_action ≡ some sweep)
    × (((c.retry_primed ≡ true) × (elapsed_or_unset c.config.trigger_hold_s c.lost_since ts ≡ true))
        ⊎ ((lock ≡ true)
            × (is_lost indicator ≡ true)
            × (elapsed_since c.config.trigger_hold_s c.lost_since ts ≡ true)))

module _ (lock : Bool) (indicator : Option Indicator) (trace_at : Option ℤ) (ts : ℤ)
    (c : Controller) where
  tick_waiting-Explains :
      c.state ≡ waiting_unlocked_trace
      → Explains lock indicator trace_at ts c (tick_waiting trace_at ts c)
  unfolding tick_waiting
  tick_waiting-Explains s = ground arith

  tick_verifying-Explains :
      Explains lock indicator trace_at ts c (tick_verifying lock indicator ts c)
  unfolding tick_verifying
  tick_verifying-Explains = ground arith

  tick_retry-Explains :
      c.retry_primed ≡ true → Explains lock indicator trace_at ts c (tick_retry ts c)
  unfolding tick_retry
  tick_retry-Explains p = ground arith

  tick_trigger-Explains : Explains lock indicator trace_at ts c (tick_trigger lock indicator ts c)
  unfolding tick_trigger elapsed_or_unset elapsed_since
  tick_trigger-Explains = ground arith

  tick_phase-Explains :
      (p : Phase)
      → c.state ≡ p
      → Explains lock indicator trace_at ts c (tick_phase p lock indicator trace_at ts c)
  unfolding tick_phase
  tick_phase-Explains waiting_unlocked_trace s = tick_waiting-Explains s
  tick_phase-Explains verifying s = tick_verifying-Explains
  tick_phase-Explains lost_pending s =
      if_intro (Explains lock indicator trace_at ts c) c.retry_primed _ _
        (λ primed. tick_retry-Explains primed) (λ _. tick_trigger-Explains)
  tick_phase-Explains idle s = tick_trigger-Explains
  tick_phase-Explains cooldown s = tick_trigger-Explains

  leave_cooldown-Explains :
      (p : Phase) (r : Controller × Option Action)
      → c.state ≡ p
      → Explains lock indicator trace_at ts (leave_cooldown p c) r
      → Explains lock indicator trace_at ts c r
  unfolding leave_cooldown
  leave_cooldown-Explains cooldown (c', none) s h = h
  leave_cooldown-Explains cooldown (c', some relock) s h = ground arith
  leave_cooldown-Explains cooldown (c', some sweep) s h = h
  leave_cooldown-Explains idle r s h = h
  leave_cooldown-Explains lost_pending r s h = h
  leave_cooldown-Explains waiting_unlocked_trace r s h = h
  leave_cooldown-Explains verifying r s h = h

tick_ready-Explains :
    (lock : Bool) (indicator : Option Indicator) (trace_at : Option ℤ) (ts : ℤ) (c : Controller)
    → Explains lock indicator trace_at ts c (tick_ready lock indicator trace_at ts c)
unfolding tick_ready
tick_ready-Explains lock indicator trace_at ts c =
    let c' = leave_cooldown c.state c in
    leave_cooldown-Explains lock indicator trace_at ts c c.state
      (tick_phase c'.state lock indicator trace_at ts c') refl
      (tick_phase-Explains lock indicator trace_at ts c' c'.state refl)

-- A tick hands out "sweep" only within the attempt budget, which it counts, and only on a lock that is
-- lost and whose loss was noted at least the trigger hold ago, or on a primed retry whose noted loss, if
-- there is one, is as old; it hands out "relock" only while it waits
-- for an unlocked trace and one at least as new as the wait has come. It notes the action as
-- pending. A tick that hands out nothing starts no attempt.
pub tick-Explains :
    (lock : Bool) (indicator : Option Indicator) (trace_at : Option ℤ) (ts : ℤ) (c : Controller)
    → Explains lock indicator trace_at ts c (tick lock indicator trace_at ts c)
unfolding tick
tick-Explains lock indicator trace_at ts c = elim (Bool-cases c.config.enabled) [
  | inr off ↦ ground arith
  | inl on ↦
      (if_intro (Explains lock indicator trace_at ts c) (not c.config.enabled) (disable c, none) _
        (λ off. cc)
        λ _.
          if_intro (Explains lock indicator trace_at ts c) (cooling c.cooldown_until ts)
            (record c { state = cooldown }, none) (tick_ready lock indicator trace_at ts c)
            (λ cools. omega arith) λ _. tick_ready-Explains lock indicator trace_at ts c)
]

complete_action-attempts :
    (action : Action) (succeeded : Bool) (error : Option String) (ts : ℤ) (c : Controller)
    → (complete_action action succeeded error ts c).attempts ≤ c.attempts
unfolding complete_action
complete_action-attempts action succeeded error ts c = ground arith

tick-attempts :
    (lock : Bool) (indicator : Option Indicator) (trace_at : Option ℤ) (ts : ℤ) (c : Controller)
    → c.attempts ≤ c.config.max_attempts
    → (tick lock indicator trace_at ts c).0.attempts ≤ c.config.max_attempts
tick-attempts lock indicator trace_at ts c h =
    bound (tick lock indicator trace_at ts c) (tick-Explains lock indicator trace_at ts c)
  where
    bound :
        (r : Controller × Option Action)
        → Explains lock indicator trace_at ts c r
        → r.0.attempts ≤ c.config.max_attempts
    bound (c', none) e = omega arith
    bound (c', some relock) e = omega arith
    bound (c', some sweep) e = omega arith

record_failure-config :
    (reason : Reason) (now : ℤ) (c : Controller) → (record_failure reason now c).config ≡ c.config
unfolding record_failure
record_failure-config reason now c = ground arith

tick_phase-config :
    (p : Phase) (lock : Bool) (indicator : Option Indicator) (trace_at : Option ℤ) (ts : ℤ)
    (c : Controller)
    → (tick_phase p lock indicator trace_at ts c).0.config ≡ c.config
unfolding tick_phase
tick_phase-config waiting_unlocked_trace lock indicator trace_at ts c = ground arith
tick_phase-config verifying lock indicator trace_at ts c = ground arith
tick_phase-config lost_pending lock indicator trace_at ts c = ground arith
tick_phase-config _ lock indicator trace_at ts c = ground arith

config-leave_cooldown : (p : Phase) (c : Controller) → (leave_cooldown p c).config ≡ c.config
unfolding leave_cooldown
config-leave_cooldown p c = ground arith

tick_ready-config :
    (lock : Bool) (indicator : Option Indicator) (trace_at : Option ℤ) (ts : ℤ) (c : Controller)
    → (tick_ready lock indicator trace_at ts c).0.config ≡ c.config
unfolding tick_ready
tick_ready-config lock indicator trace_at ts c =
    let c' = leave_cooldown c.state c in
    tick_phase-config c'.state lock indicator trace_at ts c' ∙ config-leave_cooldown c.state c

pub tick-config :
    (lock : Bool) (indicator : Option Indicator) (trace_at : Option ℤ) (ts : ℤ) (c : Controller)
    → (tick lock indicator trace_at ts c).0.config ≡ c.config
unfolding tick
tick-config lock indicator trace_at ts c =
    ground (arith, tick_ready-config lock indicator trace_at ts c)

complete_action-config :
    (action : Action) (succeeded : Bool) (error : Option String) (ts : ℤ) (c : Controller)
    → (complete_action action succeeded error ts c).config ≡ c.config
unfolding complete_action
complete_action-config action succeeded error ts c = ground arith

-- The calls that do not change the configuration.
abbrev pub Unconfigured : List Call → Type 0
Unconfigured [] = Unit
Unconfigured (config_call _ ∷ _) = ⊥
Unconfigured (_ ∷ calls) = Unconfigured calls

-- From a controller with no more attempts than its budget, over any sequence of ticks and
-- completed actions the attempts stay within the budget.
pub run-attempts :
    (calls : List Call) (c : Controller)
    → Unconfigured calls
    → c.attempts ≤ c.config.max_attempts
    → (run calls c).attempts ≤ c.config.max_attempts
unfolding run
run-attempts [] c u h = h
run-attempts (config_call config ∷ calls) c u h = absurd u
run-attempts (tick_call lock indicator trace_at ts ∷ calls) c u h =
    let same = ap (λ (g : Config). g.max_attempts) (tick-config lock indicator trace_at ts c) in
    let kept = tick-attempts lock indicator trace_at ts c h in
    omega (arith, same, run-attempts calls (tick lock indicator trace_at ts c).0 u (omega arith))
run-attempts (complete_call action succeeded error ts ∷ calls) c u h =
    let c' = complete_action action succeeded error ts c in
    let same =
      ap (λ (g : Config). g.max_attempts) (complete_action-config action succeeded error ts c) in
    let kept = complete_action-attempts action succeeded error ts c in
    omega (arith, same, run-attempts calls c' u (omega arith))
