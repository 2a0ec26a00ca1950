-- ===== src/Telemetry/Batches.antt =====
-- linien-gateway/app/rp_telemetry.py: which samples are in which batch.
use linien_multi_device.Prelude.{
  ℕ, suc, ◌+◌, Option, none, some, String, List, [], ◌∷◌, ◌++◌, ◌≡◌, arith, length, length-append,
  if◌then◌else◌,
}
use linien_multi_device.Telemetry.{Credentials}
use linien_multi_device.Telemetry.Polling.{Sample}
use linien_multi_device.Telemetry.Influx.{
  Batch, Point, add_point, gather, place, point_of, usable, Noted, on_entry, note_influx_skip,
  reason_of,
}

-- The points of all batches, and the keys that are noted with them.
abbrev pub total : List Batch → ℕ
total [] = 0
total (b ∷ bs) = length b.lines + total bs

abbrev pub total_keys : List Batch → ℕ
total_keys [] = 0
total_keys (b ∷ bs) = length b.keys + total_keys bs

-- The samples whose lookup found usable credentials.
abbrev pub ready : List (Sample × Option Credentials) → ℕ
ready [] = 0
ready ((_, found) ∷ rest) = if usable found then suc (ready rest) else ready rest

add_point-total :
    (c : Credentials) (p : Point) (k : String) (bs : List Batch)
    → (total (add_point c p k bs) ≡ suc (total bs))
      × (total_keys (add_point c p k bs) ≡ suc (total_keys bs))
unfolding add_point
add_point-total c p k [] = ground arith
add_point-total c p k (b ∷ bs) =
    ground (
      arith,
      add_point-total c p k bs,
      length-append b.lines (p ∷ []),
      length-append b.keys (k ∷ []),
    )

place-total :
    (found : Option Credentials) (s : Sample) (bs : List Batch)
    → let n : ℕ = if usable found then 1 else 0 in
      (total (place found s bs) ≡ n + total bs)
      × (total_keys (place found s bs) ≡ n + total_keys bs)
place-total none s bs = ground arith
place-total (some c) s bs = ground (arith, add_point-total c (point_of s) s.device.key bs)

-- The batches of one pass hold one point, and one device key, for each sample whose lookup found
-- usable credentials, with what they held before.
pub gather-total :
    (resolved : List (Sample × Option Credentials)) (noted : Noted) (bs : List Batch)
    → let (_, bs') = gather resolved noted bs in
      (total bs' ≡ ready resolved + total bs) × (total_keys bs' ≡ ready resolved + total_keys bs)
unfolding gather
gather-total [] noted bs = ground arith
gather-total ((s, found) ∷ rest) (entries, notices) bs =
    let (entries', more) = on_entry s.device.key (note_influx_skip (reason_of found)) entries in
    ground (
      arith,
      place-total found s bs,
      gather-total rest (entries', notices ++ more) (place found s bs),
    )
