-- ===== src/LockIndicator/Frames.antt =====
-- What one frame does to the lock indicator (linien-gateway/app/lock_indicator.py).
use linien_multi_device.Prelude.{
  ℤ, pos, ◌+ℤ◌, ◌≤ℤ◌, ◌<ℤ◌, Bool, true, false, some, List, [], ◌∷◌, ◌≡◌, ◌≢◌, ◌⊎◌, refl, arith,
  +ℤ_parts,
}
use linien_multi_device.AutoRelock.{locked, marginal, lost}
use linien_multi_device.LockIndicator.{
  Config, Stats, Reason, Evaluator, time_delta, hard_fail, bad_reasons, decide, judge, update,
  stuck_duration, rail_duration,
}
use linien_multi_device.LockIndicator.Decision.{time_delta_bounds}

-- A frame of a locked device: its statistics, its clock reading and that of the state change.
pub record Frame : Type 0 where
  pub stats : Stats
  pub ts : ℤ
  pub wall : ℤ

unfoldable pub run : List Frame → Evaluator → Evaluator
run [] e = e
run (f ∷ fs) e = run fs (update true f.stats f.ts f.wall e)

-- A frame that gives a reason after what the control signal has done before it, under the evaluator's
-- own count of it.
abbrev pub IsBad : Frame → Evaluator → Type 0
IsBad f e =
    let share = time_delta e.last_update_at f.ts in
    bad_reasons e.config f.stats (stuck_duration e.config f.stats share e.control_stuck_duration_s)
      (rail_duration e.config f.stats share e.control_rail_duration_s)
    ≢ []

-- Each of the frames gives one when it comes.
abbrev pub AreBad : List Frame → Evaluator → Type 0
AreBad [] e = Unit
AreBad (f ∷ fs) e = IsBad f e × AreBad fs (update true f.stats f.ts f.wall e)

-- A frame that gives none, whatever the control signal did before it.

abbrev pub IsGood : Config → Frame → Type 0
IsGood cfg f =
    (stuck rail : ℤ)
    → (bad_reasons cfg f.stats stuck rail ≡ []) × (hard_fail cfg f.stats stuck ≡ false)

pub decide-config :
    (hard : Bool) (reasons : List Reason) (dt wall : ℤ) (e : Evaluator)
    → (decide hard reasons dt wall e).config ≡ e.config
unfolding decide
decide-config hard reasons dt wall e = ground arith

-- What one bad frame does to the bad time: it grows by the frame's share, or the failure is hard.
pub decide-bad :
    (hard : Bool) (reasons : List Reason) (dt wall : ℤ) (e : Evaluator)
    → reasons ≢ []
    → let e' = decide hard reasons dt wall e in
      ((e'.bad_duration_s ≡ e.bad_duration_s +ℤ dt) ⊎ (e'.bad_duration_s ≡ e.config.bad_hold_s))
      × (e.config.bad_hold_s ≤ℤ e'.bad_duration_s → e'.state ≡ lost)
unfolding decide
decide-bad true reasons dt wall e r = ground arith
decide-bad false [] dt wall e r = absurd (r refl)
decide-bad false (x ∷ xs) dt wall e r = ground arith

-- What one good frame does to the good time.
pub decide-good :
    (dt wall : ℤ) (e : Evaluator)
    → let e' = decide false [] dt wall e in
      (e'.good_duration_s ≡ e.good_duration_s +ℤ dt)
      × (e.config.good_hold_s ≤ℤ e'.good_duration_s → e'.state ≡ locked)
      × (e'.good_duration_s <ℤ e.config.good_hold_s
          → (e.state ≡ lost) ⊎ (e.state ≡ marginal)
          → e'.state ≡ marginal)
unfolding decide
decide-good dt wall e = (ground arith, ground arith, ground arith)

module _ (f : Frame) (e : Evaluator) (on : e.config.enabled ≡ true) where
  abbrev pub after : Evaluator
  after = update true f.stats f.ts f.wall e

  abbrev pub share : ℤ
  share = time_delta e.last_update_at f.ts

  abbrev pub stuck : ℤ
  stuck = stuck_duration e.config f.stats share e.control_stuck_duration_s

  abbrev pub rail : ℤ
  rail = rail_duration e.config f.stats share e.control_rail_duration_s

  abbrev pub judged : Evaluator
  judged = record e {
    last_update_at = some f.ts;
    control_stuck_duration_s = stuck;
    control_rail_duration_s = rail;
    metrics = record { control_stuck_s = stuck; control_rail_s = rail };
  }

  pub update-eq-decide :
      after
      ≡ decide
          (hard_fail e.config f.stats stuck)
          (bad_reasons e.config f.stats stuck rail)
          share
          f.wall
          judged
  unfolding update judge
  update-eq-decide = ground arith

  pub update-config : after.config ≡ e.config
  update-config = rw update-eq-decide (decide-config _ _ _ _ _)

  -- A bad frame adds at least 0.02 s to the bad time, or sets it to its hold.
  pub update-bad :
      IsBad f e
      → ((e.bad_duration_s +ℤ pos 20000 ≤ℤ after.bad_duration_s)
          ⊎ (after.bad_duration_s ≡ e.config.bad_hold_s))
        × (e.config.bad_hold_s ≤ℤ after.bad_duration_s → after.state ≡ lost)
  update-bad b = rw update-eq-decide (
      ground (
        arith,
        decide-bad (hard_fail e.config f.stats stuck) (bad_reasons e.config f.stats stuck rail)
            share f.wall judged b,
        time_delta_bounds e.last_update_at f.ts,
        +ℤ_parts e.bad_duration_s (pos 20000),
        +ℤ_parts e.bad_duration_s share,
      ))

  pub update-eq-good : IsGood e.config f → after ≡ decide false [] share f.wall judged
  update-eq-good g = rw (update-eq-decide, (g stuck rail).1, (g stuck rail).0)

  -- A good frame adds between 0.02 s and 2 s to the good time.
  pub update-good :
      IsGood e.config f
      → (e.good_duration_s +ℤ pos 20000 ≤ℤ after.good_duration_s)
        × (after.good_duration_s ≤ℤ e.good_duration_s +ℤ pos 2000000)
        × (e.config.good_hold_s ≤ℤ after.good_duration_s → after.state ≡ locked)
        × (after.good_duration_s <ℤ e.config.good_hold_s
            → (e.state ≡ lost) ⊎ (e.state ≡ marginal)
            → after.state ≡ marginal)
  update-good g = rw (update-eq-good g) (
      let d = decide-good share f.wall judged in
      let b = time_delta_bounds e.last_update_at f.ts in
      let p = +ℤ_parts e.good_duration_s share in
      let q = +ℤ_parts e.good_duration_s (pos 20000) in
      let r = +ℤ_parts e.good_duration_s (pos 2000000) in
      (rw d.0 (omega arith), rw d.0 (omega arith), d.1, d.2))
