-- ===== src/Telemetry/Health.antt =====
-- linien-gateway/app/rp_telemetry.py: what a reading does to the cached sample, and what the log is told
-- of outages.
use linien_multi_device.Prelude.{
  ℕ, suc, ◌+◌, ℤ, Bool, true, false, Option, none, String, List, [], ◌∷◌, ◌++◌, ◌≡◌, refl, arith,
  is_some,
}
use linien_multi_device.Telemetry.{State, is_running, Entry}
use linien_multi_device.Telemetry.Protocol.{Reading}
use linien_multi_device.Telemetry.Polling.{
  Settings, Device, Event, apply_current, note_installed, note_probed, note_version, fold_reading,
  taken, take_success, take_failure, log_outage, note_recovery, note_loss, Transition, recovered,
  mismatch, unavailable, published, push,
}

-- A temperature stands in the cache with the time of its sample.
abbrev pub IsTimed : Entry → Type 0
IsTimed e = is_some e.temperature_c ≡ is_some e.sampled_at

-- What a poll notes before its reading leaves the sample and the reported loss alone.
told-fields :
    (o : Option Bool) (d : Device) (p : Bool) (v : Option String) (e : Entry)
    → let e' = note_version v (note_probed p (note_installed o d e)) in
      (e'.loss_reported ≡ e.loss_reported)
      × ((e'.temperature_c ≡ e.temperature_c) × (e'.sampled_at ≡ e.sampled_at))
unfolding note_installed note_probed note_version
told-fields o d p v e = ground arith

running_taken : (s : State) (o : Option ℤ) → is_running s ≡ true → taken s o ≡ o
running_taken State.running o h = refl
running_taken State.unknown o h = cc
running_taken State.not_installed o h = cc
running_taken State.stopped o h = cc
running_taken State.offline o h = cc
running_taken State.stale o h = cc
running_taken State.error o h = cc
running_taken State.version_mismatch o h = cc

other_taken : (s : State) (o : Option ℤ) → is_running s ≡ false → taken s o ≡ none
other_taken State.running o h = cc
other_taken State.unknown o h = refl
other_taken State.not_installed o h = refl
other_taken State.stopped o h = refl
other_taken State.offline o h = refl
other_taken State.stale o h = refl
other_taken State.error o h = refl
other_taken State.version_mismatch o h = refl

fold_reading-loss :
    (now : ℤ) (d : Device) (track : Bool) (r : Reading) (e : Entry)
    → let (e', _) = fold_reading now d track r e in e'.loss_reported ≡ e.loss_reported
unfolding fold_reading take_success take_failure
fold_reading-loss now d track r e = ground arith

fold_reading-IsTimed :
    (now : ℤ) (d : Device) (track : Bool) (r : Reading) (e : Entry)
    → IsTimed e
    → let (e', _) = fold_reading now d track r e in IsTimed e'
unfolding fold_reading take_success take_failure
fold_reading-IsTimed now d track r e h = ground arith

-- The log lines of an outage's begin and of its end, and a flag as a number.
abbrev pub losses : List Event → ℕ
losses [] = 0
losses (unavailable _ _ _ ∷ rest) = suc (losses rest)
losses (_ ∷ rest) = losses rest

abbrev pub recoveries : List Event → ℕ
recoveries [] = 0
recoveries (recovered _ ∷ rest) = suc (recoveries rest)
recoveries (_ ∷ rest) = recoveries rest

abbrev pub bit : Bool → ℕ
bit true = 1
bit false = 0

pub losses-append : (xs ys : List Event) → losses (xs ++ ys) ≡ losses xs + losses ys
losses-append [] ys = ground arith
losses-append (unavailable _ _ _ ∷ xs) ys = ground (arith, losses-append xs ys)
losses-append (recovered _ ∷ xs) ys = losses-append xs ys
losses-append (mismatch _ ∷ xs) ys = losses-append xs ys
losses-append (published ∷ xs) ys = losses-append xs ys

pub recoveries-append : (xs ys : List Event) → recoveries (xs ++ ys) ≡ recoveries xs + recoveries ys
recoveries-append [] ys = ground arith
recoveries-append (recovered _ ∷ xs) ys = ground (arith, recoveries-append xs ys)
recoveries-append (unavailable _ _ _ ∷ xs) ys = recoveries-append xs ys
recoveries-append (mismatch _ ∷ xs) ys = recoveries-append xs ys
recoveries-append (published ∷ xs) ys = recoveries-append xs ys

push-silent :
    (cfg : Settings) (now : ℤ) (old new : Entry)
    → (losses (push cfg now old new) ≡ 0) × (recoveries (push cfg now old new) ≡ 0)
unfolding push
push-silent cfg now old new = ground arith

pub apply_current-IsTimed :
    (cfg : Settings) (now : ℤ) (d : Device) (track : Bool) (o : Option Bool) (p : Bool)
    (v : Option String) (r : Reading) (e : Entry)
    → IsTimed e
    → let (e', _, _, _) = apply_current cfg now d track o p v r e in IsTimed e'
unfolding apply_current
apply_current-IsTimed cfg now d track o p v r e s =
    let start = note_version v (note_probed p (note_installed o d e)) in
    fold_reading-IsTimed now d track r start (ground (arith, s, told-fields o d p v e))

pub apply_current-loss :
    (cfg : Settings) (now : ℤ) (d : Device) (track : Bool) (o : Option Bool) (p : Bool)
    (v : Option String) (r : Reading) (e : Entry)
    → let (e', _, _, events) = apply_current cfg now d track o p v r e in
      (e'.loss_reported ≡ e.loss_reported) × ((losses events ≡ 0) × (recoveries events ≡ 0))
unfolding apply_current
apply_current-loss cfg now d track o p v r e =
    let start = note_version v (note_probed p (note_installed o d e)) in
    let (e', _) = fold_reading now d track r start in
    let (no_loss, no_recovery) = push-silent cfg now e e' in
    (
      ground (arith, told-fields o d p v e, fold_reading-loss now d track r start),
      (no_loss, no_recovery),
    )

-- A log step that finds the flag that was captured for it.
pub log_outage-balanced :
    (t : Transition) (e : Entry)
    → t.loss_reported ≡ e.loss_reported
    → let (e', events) = log_outage t e in
      recoveries events + bit e'.loss_reported ≡ losses events + bit e.loss_reported
unfolding log_outage note_recovery note_loss
log_outage-balanced t e h = ground (arith, h)
