-- ===== src/LockIndicator/Decision.antt =====
-- What the indicator's state says of the frames that led to it (linien-gateway/app/lock_indicator.py).
use linien_multi_device.Prelude.{
  ℤ, pos, ◌≤ℤ◌, ◌<ℤ◌, Bool, true, false, not, Option, none, some, List, [], ◌≡◌, ◌≢◌, ◌⊎◌, refl,
  arith, +ℤ_parts, if_intro,
}
use linien_multi_device.AutoRelock.{unknown, locked, marginal, lost}
use linien_multi_device.LockIndicator.{
  Config, Stats, Reason, disabled, not_locked, Evaluator, init, set_config, time_delta,
  stuck_duration, rail_duration, hard_fail, bad_reasons, decide, withdraw, judge, update,
}
use linien_multi_device.LockIndicator.Settings.{IsNormal}

-- The four durations are never negative.
pub record IsCounting (e : Evaluator) : Type 0 where
  pub bad : pos 0 ≤ℤ e.bad_duration_s
  pub good : pos 0 ≤ℤ e.good_duration_s
  pub stuck : pos 0 ≤ℤ e.control_stuck_duration_s
  pub rail : pos 0 ≤ℤ e.control_rail_duration_s

-- What an update leaves: the state agrees with the durations and the reasons.
pub record IsSound (e : Evaluator) : Type 0 where
  pub lost_bad : e.state ≡ lost → e.config.bad_hold_s ≤ℤ e.bad_duration_s
  pub marginal_bad : e.state ≡ marginal → e.bad_duration_s <ℤ e.config.bad_hold_s
  pub locked_bad : e.state ≡ locked → e.bad_duration_s ≡ pos 0
  pub locked_reasons : e.state ≡ locked → e.reasons ≡ []
  pub lost_reasons : e.state ≡ lost → e.reasons ≢ []
  pub unknown_bad : e.state ≡ unknown → e.bad_duration_s ≡ pos 0
  pub unknown_good : e.state ≡ unknown → e.good_duration_s ≡ pos 0
  pub one_counts : (e.bad_duration_s ≡ pos 0) ⊎ (e.good_duration_s ≡ pos 0)
  pub metrics_stuck : e.metrics.control_stuck_s ≡ e.control_stuck_duration_s
  pub metrics_rail : e.metrics.control_rail_s ≡ e.control_rail_duration_s

pub init-IsCounting : (config : Config) (wall : ℤ) → IsCounting (init config wall)
init-IsCounting config wall = omega arith

pub set_config-IsCounting : (config : Config) (e : Evaluator) → IsCounting (set_config config e)
unfolding set_config
set_config-IsCounting config e = omega arith

-- A frame counts for at least 0.02 s and at most 2 s.
pub time_delta_bounds :
    (last : Option ℤ) (ts : ℤ)
    → (pos 20000 ≤ℤ time_delta last ts) × (time_delta last ts ≤ℤ pos 2000000)
unfolding time_delta
time_delta_bounds none ts = ground arith
time_delta_bounds (some last) ts = ground arith

stuck_duration_nonneg :
    (cfg : Config) (stats : Stats) (dt d : ℤ)
    → pos 0 ≤ℤ dt
    → pos 0 ≤ℤ d
    → pos 0 ≤ℤ stuck_duration cfg stats dt d
unfolding stuck_duration
stuck_duration_nonneg cfg stats dt d h k = ground (arith, +ℤ_parts d dt)

rail_duration_nonneg :
    (cfg : Config) (stats : Stats) (dt d : ℤ)
    → pos 0 ≤ℤ dt
    → pos 0 ≤ℤ d
    → pos 0 ≤ℤ rail_duration cfg stats dt d
unfolding rail_duration
rail_duration_nonneg cfg stats dt d h k = ground (arith, +ℤ_parts d dt)

-- A hard failure is among the reasons.
hard_fail-reasons :
    (cfg : Config) (stats : Stats) (stuck rail : ℤ)
    → hard_fail cfg stats stuck ≡ true
    → bad_reasons cfg stats stuck rail ≢ []
unfolding hard_fail bad_reasons
hard_fail-reasons cfg stats stuck rail h = ground arith

module _ (reasons : List Reason) (dt wall : ℤ) (e : Evaluator) where
  decide-IsSound :
      (hard : Bool)
      → (hard ≡ true → reasons ≢ [])
      → IsNormal e.config
      → IsCounting e
      → pos 0 ≤ℤ dt
      → e.metrics.control_stuck_s ≡ e.control_stuck_duration_s
      → e.metrics.control_rail_s ≡ e.control_rail_duration_s
      → IsSound (decide hard reasons dt wall e)
  unfolding decide
  decide-IsSound true r n k h s t = ground (arith, n.bad_hold, r refl)
  decide-IsSound false r n k h s t = ground (arith, n.bad_hold, k.bad, +ℤ_parts e.bad_duration_s dt)

  decide-IsCounting :
      (hard : Bool)
      → IsNormal e.config
      → IsCounting e
      → pos 0 ≤ℤ dt
      → IsCounting (decide hard reasons dt wall e)
  unfolding decide
  decide-IsCounting true n k h = ground (arith, n.bad_hold, k.stuck, k.rail)
  decide-IsCounting false n k h = ground (
    arith,
    k.bad,
    k.good,
    k.stuck,
    k.rail,
    +ℤ_parts e.bad_duration_s dt,
    +ℤ_parts e.good_duration_s dt,
  )

withdraw-IsSound : (reason : Reason) (wall : ℤ) (e : Evaluator) → IsSound (withdraw reason wall e)
unfolding withdraw
withdraw-IsSound reason wall e = ground arith

withdraw-IsCounting :
    (reason : Reason) (wall : ℤ) (e : Evaluator) → IsCounting (withdraw reason wall e)
unfolding withdraw
withdraw-IsCounting reason wall e = ground arith

module _ (stats : Stats) (dt wall : ℤ) (e : Evaluator) (n : IsNormal e.config) (k : IsCounting e)
    (h : pos 0 ≤ℤ dt) where
  stuck_nonneg : pos 0 ≤ℤ stuck_duration e.config stats dt e.control_stuck_duration_s
  stuck_nonneg = stuck_duration_nonneg e.config stats dt e.control_stuck_duration_s h k.stuck

  rail_nonneg : pos 0 ≤ℤ rail_duration e.config stats dt e.control_rail_duration_s
  rail_nonneg = rail_duration_nonneg e.config stats dt e.control_rail_duration_s h k.rail

  judge-IsSound : IsSound (judge stats dt wall e)
  unfolding judge
  judge-IsSound =
      let stuck = stuck_duration e.config stats dt e.control_stuck_duration_s in
      let rail = rail_duration e.config stats dt e.control_rail_duration_s in
      decide-IsSound (bad_reasons e.config stats stuck rail) dt wall
        (record e {
          control_stuck_duration_s = stuck;
          control_rail_duration_s = rail;
          metrics = record { control_stuck_s = stuck; control_rail_s = rail };
        })
        (hard_fail e.config stats stuck) (hard_fail-reasons e.config stats stuck rail) n
        (record { bad = k.bad; good = k.good; stuck = stuck_nonneg; rail = rail_nonneg }) h refl
        refl

  judge-IsCounting : IsCounting (judge stats dt wall e)
  unfolding judge
  judge-IsCounting =
      let stuck = stuck_duration e.config stats dt e.control_stuck_duration_s in
      let rail = rail_duration e.config stats dt e.control_rail_duration_s in
      decide-IsCounting (bad_reasons e.config stats stuck rail) dt wall
        (record e {
          control_stuck_duration_s = stuck;
          control_rail_duration_s = rail;
          metrics = record { control_stuck_s = stuck; control_rail_s = rail };
        })
        (hard_fail e.config stats stuck) n
        (record { bad = k.bad; good = k.good; stuck = stuck_nonneg; rail = rail_nonneg }) h

-- With a configuration within the bounds and durations that are not negative, every update leaves
-- a state that agrees with its durations, reasons and metrics: lost only when the bad time has
-- reached its hold and with a reason, marginal only before that, locked with no bad time and no
-- reason, unknown with nothing counted; and the durations are still not negative.
pub update-IsSound :
    (lock : Bool) (stats : Stats) (ts wall : ℤ) (e : Evaluator)
    → IsNormal e.config
    → IsCounting e
    → IsSound (update lock stats ts wall e) × IsCounting (update lock stats ts wall e)
unfolding update
update-IsSound lock stats ts wall e n k =
    let dt = time_delta e.last_update_at ts in
    let seen = record e { last_update_at = some ts } in
    let h : pos 0 ≤ℤ dt = omega (arith, time_delta_bounds e.last_update_at ts) in
    let counts : IsCounting seen = record {
      bad = k.bad;
      good = k.good;
      stuck = k.stuck;
      rail = k.rail;
    } in
    if_intro (λ r. IsSound r × IsCounting r) (not e.config.enabled) (withdraw disabled wall seen) _
      (λ _. (withdraw-IsSound disabled wall seen, withdraw-IsCounting disabled wall seen))
      λ _.
        if_intro (λ r. IsSound r × IsCounting r) (not lock) (withdraw not_locked wall seen)
          (judge stats dt wall seen)
          (λ _. (withdraw-IsSound not_locked wall seen, withdraw-IsCounting not_locked wall seen))
          λ _. (
            judge-IsSound stats dt wall seen n counts h,
            judge-IsCounting stats dt wall seen n counts h,
          )
