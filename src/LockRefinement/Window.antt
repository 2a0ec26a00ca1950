-- ===== src/LockRefinement/Window.antt =====
-- linien-gateway/app/lock_acceptance.py: the window against its bound.
use linien_multi_device.Prelude.{
  ℕ, ◌*◌, ◌≤◌, ◌<◌, ◌≡◌, refl, arith, Option, none, some, ltb, ◌==◌, if_intro,
}
use linien_multi_device.LockRefinement.Acceptance.{
  AcceptanceSettings, AcceptanceWindow, share, capture_tolerance, rejection_bound,
  acceptance_window,
}

-- The bound is clear of the sideband.
abbrev pub IsClear : Option ℕ → ℕ → Type 0
IsClear none b = Unit
IsClear (some sideband) b = 0 < sideband → 10 * b ≤ 4 * sideband

-- What a window promises, by its bound.
abbrev pub GuardsBy : AcceptanceSettings → ℕ → Option ℕ → ℕ → Option ℕ → Type 0
GuardsBy s width sideband t none = t ≡ capture_tolerance s width
GuardsBy s width sideband t (some b) =
    (0 < b)
    × ((2 * t ≤ b)
        × ((t ≤ capture_tolerance s width)
            × ((b ≤ share s.max_correction_span width) × IsClear sideband b)))

abbrev pub Guards : AcceptanceSettings → ℕ → Option ℕ → AcceptanceWindow → Type 0
Guards s width sideband w = GuardsBy s width sideband w.tolerance_v w.bound_v

rejection_bound-IsClear :
    (s : AcceptanceSettings) (width : ℕ) (sideband : Option ℕ)
    → (rejection_bound s width sideband ≤ share s.max_correction_span width)
      × IsClear sideband (rejection_bound s width sideband)
unfolding rejection_bound
rejection_bound-IsClear s width none = (ground arith, tt)
rejection_bound-IsClear s width (some sideband) = (ground arith, λ h. ground (arith, h))

-- Every settings, feature width and sideband: a window with a bound accepts at most half of it and at
-- most the configured tolerance, its bound is not zero, at most the configured span and, where the
-- sideband is known and not zero, at most four tenths of it; a window without one keeps the tolerance.
pub acceptance_window-Guards :
    (s : AcceptanceSettings) (width : ℕ) (sideband : Option ℕ)
    → Guards s width sideband (acceptance_window s width sideband)
unfolding acceptance_window
acceptance_window-Guards s width sideband =
    let raw = rejection_bound s width sideband in
    let t = capture_tolerance s width in
    let (small, clear) = rejection_bound-IsClear s width sideband in
    if_intro (Guards s width sideband) (raw == 0) _ _ (λ _. refl)
      (λ n.
        if_intro (Guards s width sideband) (ltb raw (2 * t)) _ _
          (λ h. (ground (arith, n), (omega arith, (ground (arith, h), (small, clear)))))
          (λ h. (ground (arith, n), (ground (arith, h), (omega arith, (small, clear))))))
