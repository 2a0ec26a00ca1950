-- ===== src/LockRefinement/Recenter.antt =====
-- linien-gateway/app/lock_refinement.py: how far and where to a bounded centre step goes.
use linien_multi_device.Prelude.{
  ℕ, ◌/◌, ◌≤◌, ℤ, pos, ◌+ℤ◌, ◌-ℤ◌, ◌≤ℤ◌, leb_ℤ, max_ℤ, min_ℤ, +ℤ_parts, -ℤ_parts, ◌≡◌, arith, true,
  ◌&&◌, Option, some, if_intro,
}
use linien_multi_device.LockRefinement.{
  volt, epsilon, max_ℕ, min_ℕ, step_bound, clamp_step, bounded_recenter,
}

at_least : (a lo hi t : ℤ) → a ≤ℤ hi → a ≤ℤ lo → a ≤ℤ min_ℤ hi (max_ℤ lo t)
at_least a lo hi t h k = ground (arith, h, k)

at_most : (b lo hi t : ℤ) → hi ≤ℤ b → min_ℤ hi (max_ℤ lo t) ≤ℤ b
at_most b lo hi t h = ground (arith, h)

-- The step ends within `d` of the centre.
abbrev Near : ℤ → ℕ → ℤ → Type 0
Near c d x = (c -ℤ pos d ≤ℤ x) × (x ≤ℤ c +ℤ pos d)

near :
    (c t lo hi : ℤ) (d : ℕ)
    → c -ℤ pos d ≤ℤ lo
    → c -ℤ pos d ≤ℤ hi
    → hi ≤ℤ c +ℤ pos d
    → Near c d (min_ℤ hi (max_ℤ lo t))
near c t lo hi d h k l = (at_least (c -ℤ pos d) lo hi t k h, at_most (c +ℤ pos d) lo hi t l)

pub below :
    (c : ℤ) (b d : ℕ)
    → b ≤ d
    → (c -ℤ pos d ≤ℤ c -ℤ pos b) × ((c -ℤ pos d ≤ℤ c +ℤ pos b) × (c +ℤ pos b ≤ℤ c +ℤ pos d))
below c b d h =
    omega (arith, h, -ℤ_parts c (pos d), -ℤ_parts c (pos b), +ℤ_parts c (pos b), +ℤ_parts c (pos d))

rail_above :
    (c rail : ℤ) (d : ℕ) → leb_ℤ c (rail +ℤ pos epsilon) ≡ true → epsilon ≤ d → c -ℤ pos d ≤ℤ rail
rail_above c rail d h k = ground (arith, h, -ℤ_parts c (pos d), +ℤ_parts rail (pos epsilon))

clamp_step-Near : (c t : ℤ) (b r : ℕ) → Near c (max_ℕ b epsilon) (clamp_step c t b r)
unfolding clamp_step
clamp_step-Near c t b r =
    let d = max_ℕ b epsilon in
    let lo = c -ℤ pos b in
    let hi = c +ℤ pos b in
    let rail_lo = pos r -ℤ pos volt in
    let rail_hi = pos volt -ℤ pos r in
    let (low, (mid, high)) = below c b d (ground arith) in
    if_intro (Near c d)
      (leb_ℤ rail_lo rail_hi
        && leb_ℤ (rail_lo -ℤ pos epsilon) c
        && leb_ℤ c (rail_hi +ℤ pos epsilon))
      _ _
      (λ g.
        let rail = rail_above c rail_hi d (ground arith) (ground arith) in
        near c t (max_ℤ lo rail_lo) (min_ℤ hi rail_hi) d (ground (arith, low))
          (ground (arith, mid, rail)) (ground (arith, high)))
      (λ _. near c t lo hi d low mid high)

step_bound-le :
    (amplitude : ℕ) (width : Option ℕ) (widths : ℕ) (budget : ℕ)
    → (step_bound amplitude width widths (some budget) ≤ budget)
      × (step_bound amplitude width widths (some budget) ≤ amplitude / 4)
unfolding step_bound
step_bound-le amplitude width widths budget = ground arith

-- A centre step with a budget, wherever its target is and wherever the rails are: it goes at most as
-- far as the budget and a quarter of the amplitude, or one nanovolt where those are less.
pub bounded_recenter-Near :
    (c t : ℤ) (amplitude : ℕ) (width : Option ℕ) (widths rail budget : ℕ)
    → let d = max_ℕ (min_ℕ budget (amplitude / 4)) epsilon in
      let moved = bounded_recenter c t amplitude width widths rail (some budget) in
      (c -ℤ pos d ≤ℤ moved) × (moved ≤ℤ c +ℤ pos d)
unfolding bounded_recenter
bounded_recenter-Near c t amplitude width widths rail budget =
    let b = step_bound amplitude width widths (some budget) in
    let d = max_ℕ (min_ℕ budget (amplitude / 4)) epsilon in
    let (low, high) = clamp_step-Near c t b rail in
    let (small, (_, wide)) =
      below c (max_ℕ b epsilon) d (ground (arith, step_bound-le amplitude width widths budget)) in
    (ground (arith, low, small), ground (arith, high, wide))
