-- ===== src/Stream/Rates.antt =====
-- How often a connection gets a plot frame (linien-gateway/app/stream.py).
use linien_multi_device.Prelude.{
  ℤ, pos, ◌-ℤ◌, ◌*ℤ◌, ◌≤ℤ◌, ◌<ℤ◌, leb_ℤ, min_ℤ, Bool, true, false, not, is_some, Option, none, some,
  List, [], ◌∷◌, ◌≡◌, refl, arith, if◌then◌else◌, if_intro, ◌∙◌, ap, Bool-cases, inl, inr,
}
use linien_multi_device.Stream.Connections.{
  Message, Connection, normalize_positive_fps, cap_fps, or_else, resolve_fps, is_throttled,
  note_plot, enqueue_plot_frame, offer_plot,
}

-- Whatever rate a client asks for, its connection gets a positive one that is at most the cap, where
-- the cap and the default are positive rates, as in every new manager that has both.
pub resolve_fps-bounds :
    (requested : Option ℤ) (default cap : ℤ)
    → pos 0 <ℤ default
    → pos 0 <ℤ cap
    → (fps : ℤ) × (resolve_fps requested (some default) (some cap) ≡ some fps)
      × (pos 0 <ℤ fps)
      × (fps ≤ℤ cap)
unfolding resolve_fps cap_fps or_else normalize_positive_fps
resolve_fps-bounds none default cap d c = (min_ℤ default cap, refl, ground arith, ground arith)
resolve_fps-bounds (some r) default cap d c = elim (Bool-cases (leb_ℤ r (pos 0))) [
  | inl e ↦ (min_ℤ default cap, ground arith, ground arith, ground arith)
  | inr e ↦ (min_ℤ r cap, ground arith, ground arith, ground arith)
]

-- Each time comes at least the least distance of the rate after the one before.
abbrev pub IsSpaced : ℤ → ℤ → List ℤ → Type 0
IsSpaced fps last [] = Unit
IsSpaced fps last (t ∷ ts) = (pos 1000000000000 ≤ℤ (t -ℤ last) *ℤ fps) × IsSpaced fps t ts

unthrottled :
    (o : Option ℤ) (fps last now : ℤ)
    → o ≡ some fps
    → is_throttled o last now ≡ false
    → pos 1000000000000 ≤ℤ (now -ℤ last) *ℤ fps
unfolding is_throttled
unthrottled none fps last now h f = ground arith
unthrottled (some r) fps last now h f = ground arith

module _ {A : Type 0} where
  -- The connection after its sender has taken the latest plot frame.
  abbrev emptied : Connection A → Connection A
  emptied c = record c { latest_plot_message = none }

  -- The times at which a sender that takes each plot frame at once gets one, out of the frames that are
  -- offered.
  pub taken : Bool → List (Message A × ℤ) → Connection A → List ℤ
  taken drop_old [] c = []
  taken drop_old ((message, now) ∷ rest) c =
      let c' = offer_plot drop_old message now (emptied c) in
      let later = taken drop_old rest c' in
      if is_some c'.latest_plot_message then now ∷ later else later

  rate_kept :
      (fps : Option ℤ) (now : ℤ) (c : Connection A) → (note_plot fps now c).max_fps ≡ c.max_fps
  unfolding note_plot
  rate_kept none now c = refl
  rate_kept (some fps) now c = refl

  noted :
      (o : Option ℤ) (fps now : ℤ) (c : Connection A)
      → o ≡ some fps
      → (note_plot o now c).last_plot ≡ now
  unfolding note_plot
  noted none fps now c h = ground arith
  noted (some r) fps now c h = refl

  enqueue_plot_frame-keeps :
      (drop_old : Bool) (message : Message A) (c : Connection A)
      → ((enqueue_plot_frame drop_old message c).max_fps ≡ c.max_fps)
        × ((enqueue_plot_frame drop_old message c).last_plot ≡ c.last_plot)
  unfolding enqueue_plot_frame
  enqueue_plot_frame-keeps drop_old message c = ground arith

  offer_plot-max_fps :
      (drop_old : Bool) (message : Message A) (now : ℤ) (c : Connection A)
      → (offer_plot drop_old message now c).max_fps ≡ c.max_fps
  unfolding offer_plot
  offer_plot-max_fps drop_old message now c =
      if_intro (λ (d : Connection A). d.max_fps ≡ c.max_fps)
        (is_throttled c.max_fps c.last_plot now) _ _ (λ t. refl)
        (λ f.
          (enqueue_plot_frame-keeps drop_old _ (note_plot c.max_fps now c)).0
          ∙ rate_kept c.max_fps now c)

  offer_plot-taken :
      (drop_old : Bool) (message : Message A) (fps now : ℤ) (c : Connection A)
      → c.max_fps ≡ some fps
      → is_throttled c.max_fps c.last_plot now ≡ false
      → (offer_plot drop_old message now c).last_plot ≡ now
  unfolding offer_plot
  offer_plot-taken drop_old message fps now c h f =
      if_intro (λ (d : Connection A). d.last_plot ≡ now) (is_throttled c.max_fps c.last_plot now) _
        _ (λ t. ground arith)
        (λ e.
          (enqueue_plot_frame-keeps drop_old _ (note_plot c.max_fps now c)).1
          ∙ noted c.max_fps fps now c h)

  offer_plot-skipped :
      (drop_old : Bool) (message : Message A) (now : ℤ) (c : Connection A)
      → is_throttled c.max_fps c.last_plot now ≡ true
      → offer_plot drop_old message now c ≡ c
  unfolding offer_plot
  offer_plot-skipped drop_old message now c t = rw t refl

  offer_plot-got :
      (drop_old : Bool) (message : Message A) (now : ℤ) (c : Connection A)
      → is_some (offer_plot drop_old message now (emptied c)).latest_plot_message
        ≡ not (is_throttled c.max_fps c.last_plot now)
  unfolding offer_plot enqueue_plot_frame note_plot
  offer_plot-got drop_old message now c = ground arith

  -- However fast the frames come, a connection with a rate whose sender takes each frame at once gets
  -- each one at least 1 / max_fps after the one that it got before.
  pub taken-IsSpaced :
      (drop_old : Bool) (frames : List (Message A × ℤ)) (fps : ℤ) (c : Connection A)
      → c.max_fps ≡ some fps
      → IsSpaced fps c.last_plot (taken drop_old frames c)
  unfolding taken
  taken-IsSpaced drop_old [] fps c h = tt
  taken-IsSpaced drop_old ((message, now) ∷ rest) fps c h =
      let d = emptied c in
      let c' = offer_plot drop_old message now d in
      let got = offer_plot-got drop_old message now c in
      let later =
        taken-IsSpaced drop_old rest fps c' (offer_plot-max_fps drop_old message now d ∙ h) in
      if_intro (IsSpaced fps c.last_plot) (is_some c'.latest_plot_message) _ _
        (λ t.
          let free : is_throttled c.max_fps c.last_plot now ≡ false = ground arith in
          (
            unthrottled c.max_fps fps c.last_plot now h free,
            simp (offer_plot-taken drop_old message fps now d h free) at later,
          ))
        (λ f.
          let held : is_throttled c.max_fps c.last_plot now ≡ true = ground arith in
          simp
            (ap (λ (x : Connection A). x.last_plot)
              (offer_plot-skipped drop_old message now d held))
            at later)
