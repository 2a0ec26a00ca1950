-- ===== src/AutoRelock/Cooldown.antt =====
-- linien-gateway/app/auto_relock.py: the ticks of an AutoRelockController in its cooldown.
use linien_multi_device.Prelude.{ℤ, ltb_ℤ, true, false, none, some, List, ◌≡◌, ◌≢◌, arith, All}
use linien_multi_device.AutoRelock.{Controller, cooldown, tick_ready, tick, cooling}
use linien_multi_device.AutoRelock.Cycle.{Tick, tick_of, ticks, IsQuiet, ticks-IsQuiet}

-- An enabled controller in a cooldown that ends at `until`; it has noted no loss.
pub record Cools (until : ℤ) (c : Controller) : Type 0 where
  pub enabled : c.config.enabled ≡ true
  pub in_phase : c.state ≡ cooldown
  pub cooldown_until : c.cooldown_until ≡ some until
  pub lost_since : c.lost_since ≡ none

tick-Cools :
    (until : ℤ) (t : Tick) (c : Controller)
    → ltb_ℤ t.ts until ≡ true
    → Cools until c
    → let (c', a) = tick_of t c in (a ≡ none) × Cools until c'
unfolding tick cooling
tick-Cools until t c h s = ground (arith, h, s.enabled, s.in_phase, s.cooldown_until, s.lost_since)

tick_warms :
    (until : ℤ) (t : Tick) (c : Controller)
    → ltb_ℤ t.ts until ≡ false
    → Cools until c
    → let (c', a) = tick_of t c in (a ≡ none) × (c'.state ≢ cooldown) × (c'.cooldown_until ≡ none)
unfolding tick tick_ready cooling
tick_warms until t c h s = ground (arith, h, s.enabled, s.in_phase, s.cooldown_until, s.lost_since)

-- An enabled controller in a cooldown that has noted no loss, over any number of ticks before its end, and one at its end or
-- after: none of them hands out an action, whatever it sees; until the end the controller stays in the
-- cooldown, and the last tick leaves it.
pub ticks-Cools :
    (until : ℤ) (early : List Tick) (last : Tick) (c : Controller)
    → Cools until c
    → All (λ (t : Tick). ltb_ℤ t.ts until ≡ true) early
    → ltb_ℤ last.ts until ≡ false
    → let (c1, actions) = ticks early c in
      let (c2, a) = tick_of last c1 in
      IsQuiet actions
      × Cools until c1
      × (a ≡ none)
      × (c2.state ≢ cooldown)
      × (c2.cooldown_until ≡ none)
ticks-Cools until early last c s all h =
    let c1 = (ticks early c).0 in
    let (q, k) =
      ticks-IsQuiet (Cools until) (λ (t : Tick). ltb_ℤ t.ts until ≡ true) (tick-Cools until) early c
        all s in
    let (q2, left, w) = tick_warms until last c1 h k in (q, k, q2, left, w)
