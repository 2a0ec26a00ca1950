-- ===== src/LockRefinement/Steps.antt =====
-- linien-gateway/app/lock_refinement.py: what a planned stage asks of the hardware.
use linien_multi_device.Prelude.{
  ℕ, ◌+◌, ◌*◌, ◌/◌, ◌≤◌, ◌<◌, ℤ, pos, ◌+ℤ◌, ◌-ℤ◌, ◌≤ℤ◌, abs_ℤ, ◌≡◌, arith, true, false, refl, not,
  ◌||◌, ◌&&◌, Option, none, some, ltb, leb, if◌then◌else◌, if_intro,
}
use linien_multi_device.Prelude.Int.{to_ℕ}
use linien_multi_device.LockRefinement.{epsilon, move_epsilon, min_ℕ, max_ℕ}
use linien_multi_device.LockRefinement.Recenter.{below, bounded_recenter-Near}
use linien_multi_device.LockRefinement.Plan.{
  Action, narrow, recenter, done, refuse, Step, Stage, plan_refinement_step, crop_guard,
  after_floor, guarded, combined_center, centre_budget, next_amplitude, target_amplitude,
  min_safe_amplitude, scan_too_wide_to_lock, signal_width, or_zero, round_up,
}

-- How far the centre may go in one stage: a quarter of the amplitude, or one nanovolt.
abbrev pub IsNear : Stage → ℤ → Type 0
IsNear g c =
    let d = max_ℕ (g.amplitude_v / 4) epsilon in
    (g.center_v -ℤ pos d ≤ℤ c) × (c ≤ℤ g.center_v +ℤ pos d)

-- What a step with the action may ask for.
abbrev pub AllowsFor : Stage → Action → ℤ → ℕ → Type 0
AllowsFor g narrow c a = (a + epsilon < g.amplitude_v) × ((target_amplitude g ≤ a) × IsNear g c)
AllowsFor g recenter c a =
    (a ≡ g.amplitude_v) × ((move_epsilon < to_ℕ (abs_ℤ (c -ℤ g.center_v))) × IsNear g c)
AllowsFor g done c a = (c ≡ g.center_v) × (a ≡ g.amplitude_v)
AllowsFor g refuse c a = (c ≡ g.center_v) × (a ≡ g.amplitude_v)

abbrev pub Allows : Stage → Step → Type 0
Allows g s = AllowsFor g s.action s.center_v s.amplitude_v

widen :
    (c x : ℤ) (b q : ℕ)
    → let d = max_ℕ (min_ℕ b q) epsilon in
      let e = max_ℕ q epsilon in
      c -ℤ pos d ≤ℤ x → x ≤ℤ c +ℤ pos d → (c -ℤ pos e ≤ℤ x) × (x ≤ℤ c +ℤ pos e)
widen c x b q h k =
    let (low, (_, high)) = below c (max_ℕ (min_ℕ b q) epsilon) (max_ℕ q epsilon) (ground arith) in
    (ground (arith, h, low), ground (arith, k, high))

combined_center-IsNear : (g : Stage) (next : ℕ) → IsNear g (combined_center g next)
unfolding combined_center
combined_center-IsNear g next =
    let budget = centre_budget g next in
    let (low, high) =
      bounded_recenter-Near g.center_v g.target_v g.amplitude_v (signal_width g.sideband_offset_v)
        g.settings.max_center_step_signal_widths next budget in
    widen g.center_v (combined_center g next) budget (g.amplitude_v / 4) low high

beyond : (a b : ℕ) → leb a b ≡ false → b < a
beyond a b h = ground (arith, h)

over : (a b : ℕ) → ltb a b ≡ true → a < b
over a b h = ground (arith, h)

after_floor-Allows :
    (g : Stage) (next : ℕ) → target_amplitude g ≤ next → Allows g (after_floor g next)
unfolding after_floor
after_floor-Allows g next t =
    let near = combined_center-IsNear g next in
    let moved = to_ℕ (abs_ℤ (combined_center g next -ℤ g.center_v)) in
    if_intro (Allows g) (leb g.amplitude_v (next + epsilon)) _ _
      (λ _.
        if_intro (Allows g) (ltb move_epsilon moved) _ _
          (λ m. (refl, (over move_epsilon moved m, near))) (λ _. (refl, refl)))
      (λ n. (beyond g.amplitude_v (next + epsilon) n, (t, near)))

abbrev Floors : Stage → Option ℕ → Type 0
Floors g none = Unit
Floors g (some safe) = (target_amplitude g ≤ safe) × (safe < g.amplitude_v)

min_safe_amplitude-Floors :
    (g : Stage) (residual shift : ℕ)
    → Floors g (min_safe_amplitude g.amplitude_v residual shift (target_amplitude g))
unfolding min_safe_amplitude
min_safe_amplitude-Floors g residual shift =
    let a = g.amplitude_v in
    let crossing = round_up ((residual + shift) * (10 * a)) (9 * a + 10 * shift) in
    let candidate = max_ℕ (target_amplitude g) crossing in
    if_intro (Floors g) (leb a 1 || leb (9 * a) (10 * residual) || leb a candidate) _ _ (λ _. tt)
      (λ h. (ground arith, ground (arith, h)))

guarded-Allows :
    (g : Stage) (next : ℕ) (safe : Option ℕ)
    → target_amplitude g ≤ next
    → Floors g safe
    → Allows g (guarded g next safe)
guarded-Allows g next none t f = (refl, refl)
guarded-Allows g next (some safe) t (f, below_amplitude) =
    after_floor-Allows g (if ltb next safe then min_ℕ g.amplitude_v safe else next) (
      if_intro (λ n. target_amplitude g ≤ n) (ltb next safe) _ _
        (λ _.
          if_intro (λ n. target_amplitude g ≤ n) (ltb safe g.amplitude_v) _ _ (λ _. f)
            (λ _. omega (arith, f, below_amplitude)))
        (λ _. t))

next_amplitude-target :
    (g : Stage)
    → leb g.amplitude_v (next_amplitude g + epsilon) ≡ false
    → target_amplitude g ≤ next_amplitude g
unfolding next_amplitude
next_amplitude-target g h = ground (arith, h)

crop_guard-Allows :
    (g : Stage) (next : ℕ)
    → target_amplitude g ≤ next
    → leb g.amplitude_v (next + epsilon) ≡ false
    → Allows g (crop_guard g next)
unfolding crop_guard
crop_guard-Allows g next t h =
    let residual = to_ℕ (abs_ℤ (g.target_v -ℤ combined_center g next)) in
    if_intro (Allows g) (ltb next (2 * residual)) _ _
      (λ _.
        guarded-Allows g next
          (min_safe_amplitude g.amplitude_v residual (or_zero g.shift_per_fraction)
            (target_amplitude g))
          t (min_safe_amplitude-Floors g residual (or_zero g.shift_per_fraction)))
      (λ _. (beyond g.amplitude_v (next + epsilon) h, (t, combined_center-IsNear g next)))

-- Every stage, wherever it stands: a cut leaves an amplitude that is smaller by more than a nanovolt and
-- no smaller than the stage's target amplitude, a step of the centre alone keeps the amplitude and moves
-- the centre by more than a microvolt, either moves the centre by at most a quarter of the amplitude (or
-- a nanovolt, where that is more), and a stage that is done or refused leaves both as they are.
pub plan_refinement_step-Allows : (g : Stage) → Allows g (plan_refinement_step g)
unfolding plan_refinement_step
plan_refinement_step-Allows g =
    let next = next_amplitude g in
    if_intro (Allows g)
      (g.strict
        && not (scan_too_wide_to_lock g.settings g.amplitude_v g.sideband_offset_v g.trace_length))
      _ _ (λ _. (refl, refl))
      (λ _.
        if_intro (Allows g) (leb g.amplitude_v (next + epsilon)) _ _ (λ _. (refl, refl))
          (λ h. crop_guard-Allows g next (next_amplitude-target g h) h))
