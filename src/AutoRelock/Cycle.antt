-- ===== src/AutoRelock/Cycle.antt =====
-- linien-gateway/app/auto_relock.py: the way of an AutoRelockController from a lost lock back to a success, as
-- a sequence of ticks and results.
use linien_multi_device.Prelude.{
  ℕ, suc, ◌<◌, ℤ, Bool, true, false, Option, none, some, List, [], ◌∷◌, ◌≡◌, refl, arith, All,
}
use linien_multi_device.AutoRelock.{
  Config, Phase, Action, Indicator, Controller, idle, lost_pending, waiting_unlocked_trace,
  verifying, relock, sweep, elapsed, has_fresh_unlocked_trace, tick_ready, tick, complete_action,
  is_lost,
}

-- What one tick is given.
pub record Tick : Type 0 where
  pub lock : Bool
  pub indicator : Option Indicator
  pub trace_at : Option ℤ
  pub ts : ℤ

abbrev pub tick_of : Tick → Controller → Controller × Option Action
tick_of t c = tick t.lock t.indicator t.trace_at t.ts c

-- Ticks, and the actions that they hand out.
unfoldable pub ticks : List Tick → Controller → Controller × List (Option Action)
ticks [] c = (c, [])
ticks (t ∷ rest) c =
    let (c', a) = tick_of t c in let (c'', actions) = ticks rest c' in (c'', a ∷ actions)

-- None of them hands out an action.
abbrev pub IsQuiet : List (Option Action) → Type 0
IsQuiet actions = All (λ a. a ≡ none) actions

-- A tick with the lock on and lost, before the trigger hold has passed.
abbrev pub StaysLost : ℤ → ℤ → Tick → Type 0
StaysLost hold since t =
    (t.lock ≡ true) × (is_lost t.indicator ≡ true) × (elapsed hold since t.ts ≡ false)

-- A tick that sees no trace as new as the wait, and comes before its timeout.
abbrev pub StaysBlind : ℤ → ℤ → Tick → Type 0
StaysBlind timeout since t =
    (has_fresh_unlocked_trace t.trace_at (some since) ≡ false)
    × (elapsed timeout since t.ts ≡ false)

-- A tick with the lock on and not lost, before the verify hold has passed.
abbrev pub StaysGood : ℤ → ℤ → Tick → Type 0
StaysGood hold since t =
    (t.lock ≡ true) × (is_lost t.indicator ≡ false) × (elapsed hold since t.ts ≡ false)

-- Where an enabled controller without a cooldown stands.
record Stands (config : Config) (n : ℕ) (p : Phase) (pending : Option Action)
    (since wait good : Option ℤ) (c : Controller) : Type 0 where
  same_config : c.config ≡ config
  tried : c.attempts ≡ n
  free : c.cooldown_until ≡ none
  unprimed : c.retry_primed ≡ false
  in_phase : c.state ≡ p
  awaits : c.pending_action ≡ pending
  lost_at : c.lost_since ≡ since
  waits : c.wait_since ≡ wait
  good_at : c.verify_good_since ≡ good

pub record Succeeded (at : ℤ) (c : Controller) : Type 0 where
  pub last_success_at : c.last_success_at ≡ some at
  pub last_error : c.last_error ≡ none
  pub attempts : c.attempts ≡ 0
  pub pending_action : c.pending_action ≡ none

-- Ticks that each keep a property and hand out nothing do so in any number.
pub ticks-IsQuiet :
    (P : Controller → Type 0) (Q : Tick → Type 0)
    → ((t : Tick) (c : Controller) → Q t → P c → let (c', a) = tick_of t c in (a ≡ none) × P c')
    → (ts : List Tick) (c : Controller) → All Q ts
    → P c
    → let (c', actions) = ticks ts c in IsQuiet actions × P c'
unfolding ticks
ticks-IsQuiet P Q keeps [] c all h = (tt, h)
ticks-IsQuiet P Q keeps (t ∷ ts) c (q, all) h =
    let (c', a) = tick_of t c in
    let (quiet, kept) = keeps t c q h in
    let (rest, last) = ticks-IsQuiet P Q keeps ts c' all kept in ((quiet, rest), last)

module _ (cfg : Config) (on : cfg.enabled ≡ true) (n : ℕ) where
  tick_notes :
      (t : Tick) (c : Controller) (wait good : Option ℤ)
      → Stands cfg n idle none none wait good c
      → t.lock ≡ true
      → is_lost t.indicator ≡ true
      → let (c', a) = tick_of t c in
        (a ≡ none) × Stands cfg n lost_pending none (some t.ts) wait good c'
  unfolding tick tick_ready
  tick_notes t c wait good s l h =
      let enabled : c.config.enabled ≡ true = rw s.same_config on in
      ground (
        arith, enabled, s.same_config, s.tried, s.free, s.unprimed, s.in_phase, s.awaits, s.lost_at,
        s.waits, s.good_at, l, h,
      )

  tick-StaysLost :
      (since : ℤ) (wait good : Option ℤ) (t : Tick) (c : Controller)
      → StaysLost cfg.trigger_hold_s since t
      → Stands cfg n lost_pending none (some since) wait good c
      → let (c', a) = tick_of t c in
        (a ≡ none) × Stands cfg n lost_pending none (some since) wait good c'
  unfolding tick tick_ready
  tick-StaysLost since wait good t c q s =
      let enabled : c.config.enabled ≡ true = rw s.same_config on in
      ground (
        arith, enabled, s.same_config, s.tried, s.free, s.unprimed, s.in_phase, s.awaits, s.lost_at,
        s.waits, s.good_at, q,
      )

  tick_sweeps :
      (since : ℤ) (wait good : Option ℤ) (t : Tick) (c : Controller)
      → Stands cfg n lost_pending none (some since) wait good c
      → n < cfg.max_attempts
      → t.lock ≡ true
      → is_lost t.indicator ≡ true
      → elapsed cfg.trigger_hold_s since t.ts ≡ true
      → let (c', a) = tick_of t c in
        (a ≡ some sweep) × Stands cfg (suc n) lost_pending (some sweep) (some since) wait good c'
  unfolding tick tick_ready
  tick_sweeps since wait good t c s left l h e =
      let enabled : c.config.enabled ≡ true = rw s.same_config on in
      let budget : c.attempts < c.config.max_attempts = rw (s.same_config, s.tried) left in
      ground (
        arith, enabled, budget, s.same_config, s.tried, s.free, s.unprimed, s.in_phase, s.awaits,
        s.lost_at, s.waits, s.good_at, l, h, e,
      )

  complete_sweep :
      (since : ℤ) (wait good : Option ℤ) (ts : ℤ) (c : Controller)
      → Stands cfg n lost_pending (some sweep) (some since) wait good c
      → Stands cfg n waiting_unlocked_trace none
          (some since)
          (some ts)
          good
          (complete_action sweep true none ts c)
  unfolding complete_action
  complete_sweep since wait good ts c s =
      let enabled : c.config.enabled ≡ true = rw s.same_config on in
      ground (
        arith, enabled, s.same_config, s.tried, s.free, s.unprimed, s.in_phase, s.awaits, s.lost_at,
        s.waits, s.good_at,
      )

  tick-StaysBlind :
      (lost_at since : ℤ) (good : Option ℤ) (t : Tick) (c : Controller)
      → StaysBlind cfg.unlocked_trace_timeout_s since t
      → Stands cfg n waiting_unlocked_trace none (some lost_at) (some since) good c
      → let (c', a) = tick_of t c in
        (a ≡ none) × Stands cfg n waiting_unlocked_trace none (some lost_at) (some since) good c'
  unfolding tick tick_ready
  tick-StaysBlind lost_at since good t c q s =
      let enabled : c.config.enabled ≡ true = rw s.same_config on in
      ground (
        arith, enabled, s.same_config, s.tried, s.free, s.unprimed, s.in_phase, s.awaits, s.lost_at,
        s.waits, s.good_at, q,
      )

  tick_relocks :
      (lost_at since : ℤ) (good : Option ℤ) (t : Tick) (c : Controller)
      → Stands cfg n waiting_unlocked_trace none (some lost_at) (some since) good c
      → has_fresh_unlocked_trace t.trace_at (some since) ≡ true
      → let (c', a) = tick_of t c in
        (a ≡ some relock)
        × Stands cfg n waiting_unlocked_trace (some relock) (some lost_at) (some since) good c'
  unfolding tick tick_ready
  tick_relocks lost_at since good t c s q =
      let enabled : c.config.enabled ≡ true = rw s.same_config on in
      ground (
        arith, enabled, s.same_config, s.tried, s.free, s.unprimed, s.in_phase, s.awaits, s.lost_at,
        s.waits, s.good_at, q,
      )

  complete_relock :
      (lost_at since : ℤ) (good : Option ℤ) (ts : ℤ) (c : Controller)
      → Stands cfg n waiting_unlocked_trace (some relock) (some lost_at) (some since) good c
      → Stands cfg n verifying none (some lost_at) none none (complete_action relock true none ts c)
  unfolding complete_action
  complete_relock lost_at since good ts c s =
      let enabled : c.config.enabled ≡ true = rw s.same_config on in
      ground (
        arith, enabled, s.same_config, s.tried, s.free, s.unprimed, s.in_phase, s.awaits, s.lost_at,
        s.waits, s.good_at,
      )

  tick_turns_good :
      (lost_at : ℤ) (t : Tick) (c : Controller)
      → Stands cfg n verifying none (some lost_at) none none c
      → StaysGood cfg.verify_hold_s t.ts t
      → let (c', a) = tick_of t c in
        (a ≡ none) × Stands cfg n verifying none (some lost_at) none (some t.ts) c'
  unfolding tick tick_ready
  tick_turns_good lost_at t c s q =
      let enabled : c.config.enabled ≡ true = rw s.same_config on in
      ground (
        arith, enabled, s.same_config, s.tried, s.free, s.unprimed, s.in_phase, s.awaits, s.lost_at,
        s.waits, s.good_at, q,
      )

  tick-StaysGood :
      (lost_at since : ℤ) (t : Tick) (c : Controller)
      → StaysGood cfg.verify_hold_s since t
      → Stands cfg n verifying none (some lost_at) none (some since) c
      → let (c', a) = tick_of t c in
        (a ≡ none) × Stands cfg n verifying none (some lost_at) none (some since) c'
  unfolding tick tick_ready
  tick-StaysGood lost_at since t c q s =
      let enabled : c.config.enabled ≡ true = rw s.same_config on in
      ground (
        arith, enabled, s.same_config, s.tried, s.free, s.unprimed, s.in_phase, s.awaits, s.lost_at,
        s.waits, s.good_at, q,
      )

  tick_succeeds :
      (lost_at since : ℤ) (t : Tick) (c : Controller)
      → Stands cfg n verifying none (some lost_at) none (some since) c
      → t.lock ≡ true
      → is_lost t.indicator ≡ false
      → elapsed cfg.verify_hold_s since t.ts ≡ true
      → let (c', a) = tick_of t c in (a ≡ none) × Succeeded t.ts c'
  unfolding tick tick_ready
  tick_succeeds lost_at since t c s l h e =
      let enabled : c.config.enabled ≡ true = rw s.same_config on in
      ground (
        arith, enabled, s.same_config, s.tried, s.free, s.unprimed, s.in_phase, s.awaits, s.lost_at,
        s.waits, s.good_at, l, h, e,
      )

-- Only a lock that is on and lost.
abbrev pub SeesLost : Tick → Type 0
SeesLost t = (t.lock ≡ true) × (is_lost t.indicator ≡ true)

abbrev pub SeesGood : Tick → Type 0
SeesGood t = (t.lock ≡ true) × (is_lost t.indicator ≡ false)

-- A controller that has nothing to do.
pub record AtRest (c : Controller) : Type 0 where
  pub enabled : c.config.enabled ≡ true
  pub in_phase : c.state ≡ idle
  pub pending_action : c.pending_action ≡ none
  pub cooldown_until : c.cooldown_until ≡ none
  pub retry_primed : c.retry_primed ≡ false

-- The whole way back of an enabled, idle controller with an attempt left. A tick sees the lock lost;
-- any number of ticks see it lost before the trigger hold has passed, and one after. Its sweep runs;
-- any number of ticks see no trace that is as new before the timeout, and then one sees it. Its
-- relock runs; a tick sees the lock good, and any number more before the verify hold, which is
-- positive, has passed, and one after. Then "sweep" and "relock" are handed out just at these two
-- ticks, every other tick hands out nothing, and at the end the success is noted with no attempt
-- and no action open.
pub relock_cycle :
    (c : Controller) (first due fresh turn last : Tick)
    (lost_ticks blind_ticks good_ticks : List Tick) (swept locked_at : ℤ)
    → AtRest c
    → c.lost_since ≡ none
    → c.attempts < c.config.max_attempts
    → SeesLost first
    → All (StaysLost c.config.trigger_hold_s first.ts) lost_ticks
    → SeesLost due
    → elapsed c.config.trigger_hold_s first.ts due.ts ≡ true
    → All (StaysBlind c.config.unlocked_trace_timeout_s swept) blind_ticks
    → has_fresh_unlocked_trace fresh.trace_at (some swept) ≡ true
    → StaysGood c.config.verify_hold_s turn.ts turn
    → All (StaysGood c.config.verify_hold_s turn.ts) good_ticks
    → SeesGood last
    → elapsed c.config.verify_hold_s turn.ts last.ts ≡ true
    → let (c1, a1) = tick_of first c in
      let (c2, lost_actions) = ticks lost_ticks c1 in
      let (c3, a3) = tick_of due c2 in
      let c4 = complete_action sweep true none swept c3 in
      let (c5, blind_actions) = ticks blind_ticks c4 in
      let (c6, a6) = tick_of fresh c5 in
      let c7 = complete_action relock true none locked_at c6 in
      let (c8, a8) = tick_of turn c7 in
      let (c9, good_actions) = ticks good_ticks c8 in
      let (c10, a10) = tick_of last c9 in
      (a1 ≡ none)
      × IsQuiet lost_actions
      × (a3 ≡ some sweep)
      × IsQuiet blind_actions
      × (a6 ≡ some relock)
      × (a8 ≡ none)
      × IsQuiet good_actions
      × (a10 ≡ none)
      × Succeeded last.ts c10
relock_cycle c first due fresh turn last lost_ticks blind_ticks good_ticks swept locked_at rest l0
      left (l1, h1) stay_lost (l2, h2) held blind seen turned stay_good (l3, h3) verified =
    let cfg = c.config in
    let on = rest.enabled in
    let n = c.attempts in
    let m = suc n in
    let wait = c.wait_since in
    let good = c.verify_good_since in
    let start : Stands cfg n idle none none wait good c = record {
      same_config = refl;
      tried = refl;
      free = rest.cooldown_until;
      unprimed = rest.retry_primed;
      in_phase = rest.in_phase;
      awaits = rest.pending_action;
      lost_at = l0;
      waits = refl;
      good_at = refl;
    } in
    let c1 = (tick_of first c).0 in
    let (q1, s1) = tick_notes cfg on n first c wait good start l1 h1 in
    let c2 = (ticks lost_ticks c1).0 in
    let (q2, s2) =
      ticks-IsQuiet (Stands cfg n lost_pending none (some first.ts) wait good)
        (StaysLost cfg.trigger_hold_s first.ts) (tick-StaysLost cfg on n first.ts wait good)
        lost_ticks c1 stay_lost s1 in
    let c3 = (tick_of due c2).0 in
    let (q3, s3) = tick_sweeps cfg on n first.ts wait good due c2 s2 left l2 h2 held in
    let c4 = complete_action sweep true none swept c3 in
    let s4 = complete_sweep cfg on m first.ts wait good swept c3 s3 in
    let c5 = (ticks blind_ticks c4).0 in
    let (q5, s5) =
      ticks-IsQuiet (Stands cfg m waiting_unlocked_trace none (some first.ts) (some swept) good)
        (StaysBlind cfg.unlocked_trace_timeout_s swept)
        (tick-StaysBlind cfg on m first.ts swept good) blind_ticks c4 blind s4 in
    let c6 = (tick_of fresh c5).0 in
    let (q6, s6) = tick_relocks cfg on m first.ts swept good fresh c5 s5 seen in
    let c7 = complete_action relock true none locked_at c6 in
    let s7 = complete_relock cfg on m first.ts swept good locked_at c6 s6 in
    let c8 = (tick_of turn c7).0 in
    let (q8, s8) = tick_turns_good cfg on m first.ts turn c7 s7 turned in
    let c9 = (ticks good_ticks c8).0 in
    let (q9, s9) =
      ticks-IsQuiet (Stands cfg m verifying none (some first.ts) none (some turn.ts))
        (StaysGood cfg.verify_hold_s turn.ts) (tick-StaysGood cfg on m first.ts turn.ts) good_ticks
        c8 stay_good s8 in
    let (q10, s10) = tick_succeeds cfg on m first.ts turn.ts last c9 s9 l3 h3 verified in
    (q1, q2, q3, q5, q6, q8, q9, q10, s10)
