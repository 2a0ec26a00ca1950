-- ===== src/AutoRelock/Progress.antt =====
-- One tick of the controller after a failed attempt, and the ticks that note a success
-- (linien-gateway/app/auto_relock.py).
use linien_multi_device.Prelude.{
  ◌<◌, ℤ, ◌-ℤ◌, ◌≤ℤ◌, Bool, true, false, Option, some, String, ◌≡◌, arith, -ℤ_parts, ◌⊎◌, refl,
}
use linien_multi_device.AutoRelock.{
  Phase, Action, Indicator, Controller, lost_pending, waiting_unlocked_trace, verifying, cooldown,
  relock, sweep, elapsed, tick_ready, tick, complete_action, is_lost, good_since, tick_phase,
  leave_cooldown,
}
use linien_multi_device.AutoRelock.Invariant.{IsWellFormed}

elapsed-prime : (hold now ts : ℤ) → now ≤ℤ ts → elapsed hold (now -ℤ hold) ts ≡ true
unfolding elapsed
elapsed-prime hold now ts h = ground (arith, -ℤ_parts now hold, -ℤ_parts ts (now -ℤ hold))

-- In an enabled, well-formed controller a pending action that fails with attempts left is retried:
-- the next tick, at no earlier a clock reading, hands out "sweep" again, whatever the lock, the
-- indicator and the trace are then.
pub tick_retries :
    (action : Action) (error : Option String) (now ts : ℤ) (c : Controller) (lock : Bool)
    (indicator : Option Indicator) (trace_at : Option ℤ)
    → IsWellFormed c
    → c.pending_action ≡ some action
    → c.config.enabled ≡ true
    → c.attempts < c.config.max_attempts
    → now ≤ℤ ts
    → (tick lock indicator trace_at ts (complete_action action false error now c)).1 ≡ some sweep
unfolding tick tick_ready complete_action
tick_retries sweep error now ts c lock indicator trace_at w p on left le =
    ground (arith, elapsed-prime c.config.trigger_hold_s now ts le)
tick_retries relock error now ts c lock indicator trace_at w p on left le =
    ground (arith, elapsed-prime c.config.trigger_hold_s now ts le)

-- No success is noted, or the verification has been good for the whole hold.
Verified : Bool → Option Indicator → ℤ → Controller → Controller → Type 0
Verified lock indicator ts c c' =
    (c'.last_success_at ≡ c.last_success_at)
    ⊎ ((c.state ≡ verifying)
        × (lock ≡ true)
        × (is_lost indicator ≡ false)
        × (elapsed c.config.verify_hold_s (good_since c.verify_good_since ts) ts ≡ true))

module _ (lock : Bool) (indicator : Option Indicator) (trace_at : Option ℤ) (ts : ℤ)
    (c : Controller) where
  tick_phase-Verified :
      (p : Phase)
      → c.state ≡ p
      → Verified lock indicator ts c (tick_phase p lock indicator trace_at ts c).0
  unfolding tick_phase Verified
  tick_phase-Verified waiting_unlocked_trace s = ground arith
  tick_phase-Verified verifying s = ground arith
  tick_phase-Verified lost_pending s = ground arith
  tick_phase-Verified _ s = ground arith

leave_cooldown-Verified :
    (p : Phase) (lock : Bool) (indicator : Option Indicator) (ts : ℤ) (c c' : Controller)
    → c.state ≡ p
    → Verified lock indicator ts (leave_cooldown p c) c'
    → Verified lock indicator ts c c'
unfolding leave_cooldown Verified
leave_cooldown-Verified cooldown lock indicator ts c c' s h = ground arith
leave_cooldown-Verified _ lock indicator ts c c' s h = h

tick_ready-Verified :
    (lock : Bool) (indicator : Option Indicator) (trace_at : Option ℤ) (ts : ℤ) (c : Controller)
    → Verified lock indicator ts c (tick_ready lock indicator trace_at ts c).0
unfolding tick_ready
tick_ready-Verified lock indicator trace_at ts c =
    let c1 = leave_cooldown c.state c in
    leave_cooldown-Verified c.state lock indicator ts c
      (tick_phase c1.state lock indicator trace_at ts c1).0 refl
      (tick_phase-Verified lock indicator trace_at ts c1 c1.state refl)

-- A tick notes a success only in a verification whose lock has been good for the whole hold.
pub tick-Verified :
    (lock : Bool) (indicator : Option Indicator) (trace_at : Option ℤ) (ts : ℤ) (c : Controller)
    → let c' = (tick lock indicator trace_at ts c).0 in
      (c'.last_success_at ≡ c.last_success_at)
      ⊎ ((c.state ≡ verifying)
          × (lock ≡ true)
          × (is_lost indicator ≡ false)
          × (elapsed c.config.verify_hold_s (good_since c.verify_good_since ts) ts ≡ true))
unfolding tick Verified
tick-Verified lock indicator trace_at ts c =
    ground (arith, tick_ready-Verified lock indicator trace_at ts c)
