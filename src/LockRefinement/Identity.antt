-- ===== src/LockRefinement/Identity.antt =====
-- linien-gateway/app/lock_refinement.py: IdentityGuard. Its dictionary of baselines has a field for each
-- of the two detectors, voltages are in picovolts and at least zero, resolutions are in thousandths of a
-- sample, and the exception is `none`. The trace has at least one point.
use linien_multi_device.Prelude.{
  ℕ, ◌+◌, ◌-◌, ◌*◌, Bool, true, false, not, ◌&&◌, Option, none, some, List, [], ◌∷◌, ltb,
  if◌then◌else◌,
}

pub data Detector : Type 0 where
  strict coarse : Detector

pub record Baseline : Type 0 where
  pub sideband_v : ℕ
  pub resolution : ℕ

pub record IdentityGuard : Type 0 where
  pub slope : Bool
  pub strict_baseline : Option Baseline
  pub coarse_baseline : Option Baseline
  pub trace_length : ℕ

-- A candidate, and what else one check is given.
pub record Check : Type 0 where
  pub target_slope_rising : Bool
  pub sideband_offset_v : Option ℕ
  pub amplitude_v : ℕ
  pub detector : Detector
  pub resolution_samples : ℕ
  pub check_sideband : Bool

abbrev pub baseline : Detector → IdentityGuard → Option Baseline
baseline strict g = g.strict_baseline
baseline coarse g = g.coarse_baseline

abbrev pub set_baseline : Detector → Baseline → IdentityGuard → IdentityGuard
set_baseline strict b g = record g { strict_baseline = some b }
set_baseline coarse b g = record g { coarse_baseline = some b }

abbrev pub reading : Option ℕ → ℕ → Option Baseline
reading none resolution = none
reading (some sideband) resolution =
    some (record { sideband_v = sideband; resolution = resolution })

unfoldable pub init : Bool → Option ℕ → ℕ → ℕ → Detector → IdentityGuard
init slope sideband resolution length strict = record {
  slope = slope;
  strict_baseline = reading sideband resolution;
  coarse_baseline = none;
  trace_length = length;
}
init slope sideband resolution length coarse = record {
  slope = slope;
  strict_baseline = none;
  coarse_baseline = reading sideband resolution;
  trace_length = length;
}

-- The spacing is off by more than 35 % and by more than two points of the sweep.
abbrev pub has_drifted : ℕ → ℕ → ℕ → ℕ → Bool
has_drifted known measured amplitude length =
    let off = (known - measured) + (measured - known) in
    ltb (35 * known) (100 * off) && ltb (2 * amplitude) (off * length)

-- The reading against the standing one of its detector.
unfoldable pub compare_to :
    Option Baseline → IdentityGuard → Check → Baseline → Option IdentityGuard
compare_to none g c b = some (set_baseline c.detector b g)
compare_to (some known) g c b =
    if ltb (1001 * known.resolution) (1000 * b.resolution)
    then some (set_baseline c.detector b g)
    else if has_drifted known.sideband_v b.sideband_v c.amplitude_v g.trace_length
    then none
    else some g

unfoldable pub compare_reading : Option Baseline → IdentityGuard → Check → Option IdentityGuard
unfolding compare_to
compare_reading none g c = some g
compare_reading (some b) g c = compare_to (baseline c.detector g) g c b

abbrev pub same_slope : Bool → Bool → Bool
same_slope true b = b
same_slope false b = not b

unfoldable pub check : IdentityGuard → Check → Option IdentityGuard
unfolding compare_reading
check g c =
    if not (same_slope c.target_slope_rising g.slope)
    then none
    else if not c.check_sideband
    then some g
    else compare_reading (reading c.sideband_offset_v c.resolution_samples) g c

-- The checks of a walk, up to the first that raises.
unfoldable pub run : Option IdentityGuard → List Check → Option IdentityGuard
unfolding check
run none cs = none
run (some g) [] = some g
run (some g) (c ∷ cs) = run (check g c) cs
