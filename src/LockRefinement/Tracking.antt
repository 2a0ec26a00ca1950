-- ===== src/LockRefinement/Tracking.antt =====
-- linien-gateway/app/lock_refinement.py: IdentityGuard over the checks of a walk.
use linien_multi_device.Prelude.{
  ◌*◌, ◌≤◌, ◌≡◌, refl, sym, arith, Bool, true, false, not, Option, none, some, List, [], ◌∷◌, ltb,
  if_intro,
}
use mathlib.Core.Path.{subst}
use linien_multi_device.LockRefinement.Identity.{
  Detector, strict, coarse, Baseline, IdentityGuard, Check, baseline, set_baseline, reading,
  has_drifted, compare_to, compare_reading, same_slope, check, run,
}

-- The second baseline stands where the first one does, and is resolved at least as well.
abbrev pub IsBetter : Option Baseline → Option Baseline → Type 0
IsBetter none b = Unit
IsBetter (some a) none = ⊥
IsBetter (some a) (some b) = a.resolution ≤ b.resolution

abbrev pub IsLater : IdentityGuard → IdentityGuard → Type 0
IsLater g h =
    (h.slope ≡ g.slope)
    × (IsBetter g.strict_baseline h.strict_baseline × IsBetter g.coarse_baseline h.coarse_baseline)

-- Every candidate has the slope.
abbrev pub AllHave : Bool → List Check → Type 0
AllHave b [] = Unit
AllHave b (c ∷ cs) = (c.target_slope_rising ≡ b) × AllHave b cs

-- What a walk that passed left behind; one that raised left nothing.
abbrev pub Tracks : IdentityGuard → List Check → Option IdentityGuard → Type 0
Tracks g cs none = Unit
Tracks g cs (some h) = AllHave g.slope cs × IsLater g h

abbrev Held : IdentityGuard → Check → Option IdentityGuard → Type 0
Held g c o = Tracks g (c ∷ []) o

IsBetter-refl : (b : Option Baseline) → IsBetter b b
IsBetter-refl none = tt
IsBetter-refl (some b) = omega arith

IsBetter-trans : (a b c : Option Baseline) → IsBetter a b → IsBetter b c → IsBetter a c
IsBetter-trans none b c h k = tt
IsBetter-trans (some a) none c h k = elim h [ ]
IsBetter-trans (some a) (some b) none h k = elim k [ ]
IsBetter-trans (some a) (some b) (some c) h k = omega (arith, h, k)

IsLater-refl : (g : IdentityGuard) → IsLater g g
IsLater-refl g = (refl, (IsBetter-refl g.strict_baseline, IsBetter-refl g.coarse_baseline))

IsLater-trans : (a b c : IdentityGuard) → IsLater a b → IsLater b c → IsLater a c
IsLater-trans a b c (s, (h, k)) (t, (l, m)) = (
  cc,
  (
    IsBetter-trans a.strict_baseline b.strict_baseline c.strict_baseline h l,
    IsBetter-trans a.coarse_baseline b.coarse_baseline c.coarse_baseline k m,
  ),
)

set_baseline-IsLater :
    (d : Detector) (b : Baseline) (g : IdentityGuard)
    → IsBetter (baseline d g) (some b)
    → IsLater g (set_baseline d b g)
set_baseline-IsLater strict b g h = (refl, (h, IsBetter-refl g.coarse_baseline))
set_baseline-IsLater coarse b g h = (refl, (IsBetter-refl g.strict_baseline, h))

replaced-Held :
    (o : Option Baseline) (g : IdentityGuard) (c : Check) (b : Baseline)
    → baseline c.detector g ≡ o
    → c.target_slope_rising ≡ g.slope
    → IsBetter o (some b)
    → Held g c (some (set_baseline c.detector b g))
replaced-Held o g c b e s h =
    ((s, tt), set_baseline-IsLater c.detector b g (subst (λ x. IsBetter x (some b)) (sym e) h))

compare_to-Held :
    (o : Option Baseline) (g : IdentityGuard) (c : Check) (b : Baseline)
    → baseline c.detector g ≡ o
    → c.target_slope_rising ≡ g.slope
    → Held g c (compare_to o g c b)
unfolding compare_to
compare_to-Held none g c b e s = replaced-Held none g c b e s tt
compare_to-Held (some known) g c b e s =
    if_intro (Held g c) (ltb (1001 * known.resolution) (1000 * b.resolution)) _ _
      (λ h. replaced-Held (some known) g c b e s (ground (arith, h)))
      (λ _.
        if_intro (Held g c) (has_drifted known.sideband_v b.sideband_v c.amplitude_v g.trace_length)
          _ _ (λ _. tt) (λ _. ((s, tt), IsLater-refl g)))

compare_reading-Held :
    (o : Option Baseline) (g : IdentityGuard) (c : Check)
    → c.target_slope_rising ≡ g.slope
    → Held g c (compare_reading o g c)
unfolding compare_reading
compare_reading-Held none g c s = ((s, tt), IsLater-refl g)
compare_reading-Held (some b) g c s = compare_to-Held (baseline c.detector g) g c b refl s

same_slope-eq : (a b : Bool) → not (same_slope a b) ≡ false → a ≡ b
same_slope-eq true true h = refl
same_slope-eq false false h = refl
same_slope-eq true false h = cc
same_slope-eq false true h = cc

check-Held : (g : IdentityGuard) (c : Check) → Held g c (check g c)
unfolding check
check-Held g c =
    if_intro (Held g c) (not (same_slope c.target_slope_rising g.slope)) _ _ (λ _. tt)
      (λ s.
        let same = same_slope-eq c.target_slope_rising g.slope s in
        if_intro (Held g c) (not c.check_sideband) _ _ (λ _. ((same, tt), IsLater-refl g))
          (λ _. compare_reading-Held (reading c.sideband_offset_v c.resolution_samples) g c same))

-- One more check before a walk.
extend :
    (g h : IdentityGuard) (c : Check) (cs : List Check) (o : Option IdentityGuard)
    → Held g c (some h)
    → Tracks h cs o
    → Tracks g (c ∷ cs) o
extend g h c cs none held t = tt
extend g h c cs (some k) ((s, _), (same, better)) (all, more) =
    ((s, subst (λ b. AllHave b cs) same all), IsLater-trans g h k (same, better) more)

from_check :
    (g : IdentityGuard) (c : Check) (cs : List Check) (o : Option IdentityGuard)
    → Held g c o
    → ((h : IdentityGuard) → Tracks h cs (run (some h) cs))
    → Tracks g (c ∷ cs) (run o cs)
unfolding run
from_check g c cs none held rest = tt
from_check g c cs (some h) held rest = extend g h c cs (run (some h) cs) held (rest h)

-- Every guard and every sequence of checks: where all of them pass, every candidate has the guard's
-- slope, the guard keeps its slope, and no detector's baseline is dropped or replaced by one of a lower
-- resolution.
pub run-Tracks : (g : IdentityGuard) (cs : List Check) → Tracks g cs (run (some g) cs)
unfolding run
run-Tracks g [] = (tt, IsLater-refl g)
run-Tracks g (c ∷ cs) = from_check g c cs (check g c) (check-Held g c) (λ h. run-Tracks h cs)
