-- ===== src/LockIndicator/Streaks.antt =====
-- Streaks of frames: how long a lock must look bad before it is called lost, and good before it is
-- called locked again (linien-gateway/app/lock_indicator.py).
use linien_multi_device.Prelude.{
  ℕ, suc, ◌*◌, ◌+◌, pos, ◌≤ℤ◌, ◌<ℤ◌, true, List, [], ◌∷◌, ◌≡◌, ◌⊎◌, refl, arith, +ℤ_parts, All,
  length, inl, inr, ◌∙◌,
}
use linien_multi_device.AutoRelock.{locked, marginal, lost}
use linien_multi_device.LockIndicator.{Config, Evaluator, update}
use linien_multi_device.LockIndicator.Decision.{IsCounting}
use linien_multi_device.LockIndicator.Frames.{
  Frame, IsBad, AreBad, IsGood, update-config, update-bad, update-good, run,
}

module _ (cfg : Config) (on : cfg.enabled ≡ true) where
  -- After `n` bad frames the bad time has reached its hold or `n` times a frame's least share.
  record BadFor (n : ℕ) (e : Evaluator) : Type 0 where
    same : e.config ≡ cfg
    counted : (cfg.bad_hold_s ≤ℤ e.bad_duration_s) ⊎ (pos (n * 20000) ≤ℤ e.bad_duration_s)
    called : cfg.bad_hold_s ≤ℤ e.bad_duration_s → e.state ≡ lost

  bad_frame :
      (n : ℕ) (f : Frame) (e : Evaluator)
      → e.config ≡ cfg
      → IsBad f e
      → (cfg.bad_hold_s ≤ℤ e.bad_duration_s) ⊎ (pos (n * 20000) ≤ℤ e.bad_duration_s)
      → BadFor (suc n) (update true f.stats f.ts f.wall e)
  bad_frame n f e same bad c =
      let enabled : e.config.enabled ≡ true = rw same on in
      let step = update-bad f e enabled bad in
      record {
        same = update-config f e enabled ∙ same;
        counted = ground (arith, step.0, c, same, +ℤ_parts e.bad_duration_s (pos 20000));
        called = λ h. step.1 (simp same h);
      }

  streak_lost :
      (fs : List Frame) (n : ℕ) (e : Evaluator)
      → AreBad fs e
      → BadFor n e
      → cfg.bad_hold_s ≤ℤ pos ((length fs + n) * 20000)
      → (run fs e).state ≡ lost
  unfolding run
  streak_lost [] n e all b h = b.called (ground (arith, b.counted))
  streak_lost (f ∷ fs) n e all b h =
      streak_lost fs (suc n) (update true f.stats f.ts f.wall e) all.1
        (bad_frame n f e b.same all.0 b.counted) (omega arith)

  -- Good frames: the good time grows by at least 0.02 s and at most 2 s with each.
  record GoodFor (n : ℕ) (e : Evaluator) : Type 0 where
    same : e.config ≡ cfg
    at_least : pos (n * 20000) ≤ℤ e.good_duration_s
    at_most : e.good_duration_s ≤ℤ pos (n * 2000000)

  good_frame :
      (n : ℕ) (f : Frame) (e : Evaluator)
      → IsGood cfg f
      → GoodFor n e
      → GoodFor (suc n) (update true f.stats f.ts f.wall e)
  good_frame n f e good g =
      let enabled : e.config.enabled ≡ true = rw g.same on in
      let step = update-good f e enabled (rw g.same good) in
      record {
        same = update-config f e enabled ∙ g.same;
        at_least = omega (arith, g.at_least, step.0, +ℤ_parts e.good_duration_s (pos 20000));
        at_most = omega (arith, g.at_most, step.1, +ℤ_parts e.good_duration_s (pos 2000000));
      }

  streak_locked :
      (fs : List Frame) (n : ℕ) (e : Evaluator)
      → All (IsGood cfg) fs
      → GoodFor n e
      → (cfg.good_hold_s ≤ℤ e.good_duration_s → e.state ≡ locked)
      → cfg.good_hold_s ≤ℤ pos ((length fs + n) * 20000)
      → (run fs e).state ≡ locked
  unfolding run
  streak_locked [] n e all g called h = called (omega (arith, g.at_least))
  streak_locked (f ∷ fs) n e all g called h =
      let enabled : e.config.enabled ≡ true = rw g.same on in
      let step = update-good f e enabled (rw g.same all.0) in
      streak_locked fs (suc n) (update true f.stats f.ts f.wall e) all.1 (good_frame n f e all.0 g)
        (λ k. step.2 (simp g.same k)) (omega arith)

  streak_marginal :
      (fs : List Frame) (n : ℕ) (e : Evaluator)
      → All (IsGood cfg) fs
      → GoodFor n e
      → (e.state ≡ lost) ⊎ (e.state ≡ marginal)
      → pos ((length fs + n) * 2000000) <ℤ cfg.good_hold_s
      → ((run fs e).state ≡ lost) ⊎ ((run fs e).state ≡ marginal)
  unfolding run
  streak_marginal [] n e all g s h = s
  streak_marginal (f ∷ fs) n e all g s h =
      let enabled : e.config.enabled ≡ true = rw g.same on in
      let step = update-good f e enabled (rw g.same all.0) in
      let next = good_frame n f e all.0 g in
      streak_marginal fs (suc n) (update true f.stats f.ts f.wall e) all.1 next
        (inr (step.3 (simp g.same (omega (arith, next.at_most))) s)) (omega arith)

-- With the indicator enabled and durations that are not negative, a lock for which each frame, when it
-- comes, gives a reason against it, be it one that needs earlier frames, is called lost once the frames, counted at 0.02 s each, fill the bad
-- hold: it does not depend on the clock readings.
pub run_lost :
    (f : Frame) (fs : List Frame) (e : Evaluator)
    → e.config.enabled ≡ true
    → IsCounting e
    → AreBad (f ∷ fs) e
    → e.config.bad_hold_s ≤ℤ pos (length (f ∷ fs) * 20000)
    → (run (f ∷ fs) e).state ≡ lost
unfolding run
run_lost f fs e on k all h =
    streak_lost e.config on fs 1 (update true f.stats f.ts f.wall e) all.1
      (bad_frame e.config on 0 f e refl all.0 (inr (omega (arith, k.bad)))) (omega arith)

-- With the indicator enabled, a lock that looks good in every frame, and that no frame has counted
-- as good yet, is called locked once the frames, counted at 0.02 s each, fill the good hold.
pub run_recovers :
    (f : Frame) (fs : List Frame) (e : Evaluator)
    → e.config.enabled ≡ true
    → e.good_duration_s ≡ pos 0
    → All (IsGood e.config) (f ∷ fs)
    → e.config.good_hold_s ≤ℤ pos (length (f ∷ fs) * 20000)
    → (run (f ∷ fs) e).state ≡ locked
unfolding run
run_recovers f fs e on z all h =
    let start : GoodFor e.config on 0 e = record {
      same = refl;
      at_least = ground arith;
      at_most = ground arith;
    } in
    let step = update-good f e on all.0 in
    streak_locked e.config on fs 1 (update true f.stats f.ts f.wall e) all.1
      (good_frame e.config on 0 f e all.0 start) step.2 (omega arith)

-- With the indicator enabled, a lost lock that no frame has counted as good yet is not called
-- locked before the frames, counted at 2 s each, could fill the good hold, however good they look.
pub run_hysteresis :
    (f : Frame) (fs : List Frame) (e : Evaluator)
    → e.config.enabled ≡ true
    → e.state ≡ lost
    → e.good_duration_s ≡ pos 0
    → All (IsGood e.config) (f ∷ fs)
    → pos (length (f ∷ fs) * 2000000) <ℤ e.config.good_hold_s
    → ((run (f ∷ fs) e).state ≡ lost) ⊎ ((run (f ∷ fs) e).state ≡ marginal)
unfolding run
run_hysteresis f fs e on s z all h =
    let start : GoodFor e.config on 0 e = record {
      same = refl;
      at_least = ground arith;
      at_most = ground arith;
    } in
    let step = update-good f e on all.0 in
    let g = good_frame e.config on 0 f e all.0 start in
    streak_marginal e.config on fs 1 (update true f.stats f.ts f.wall e) all.1 g
      (inr (step.3 (omega (arith, g.at_most)) (inl s))) (omega arith)
