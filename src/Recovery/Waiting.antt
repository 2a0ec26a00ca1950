-- ===== src/Recovery/Waiting.antt =====
-- linien-gateway/app/device_recovery.py: how the wait of reboot_device ends.
use linien_multi_device.Prelude.{
  ℕ, zero, suc, ◌+◌, ◌*◌, ◌≤◌, ◌≡◌, refl, arith, Bool, true, false, not, ◌||◌, String, List, ltb,
  if_intro, ◌==◌,
}
use linien_multi_device.Recovery.{Phase, dispatching, waiting_for_boot}
use linien_multi_device.Recovery.Reboot.{
  Board, Read, auth_failed, read_failed, boot_id, Sent, open_refused, open_failed, send_failed,
  exited, Outcome, out_of_fuel, read_boot_id, round, wait, wait_for_boot, dispatch, after_read,
  reboot_device, timeout_us, interval_us,
}

abbrev pub is_decided : Outcome → Bool
is_decided out_of_fuel = false
is_decided _ = true

abbrev Decided : Outcome × List Phase → Type 0
Decided (outcome, _) = is_decided outcome ≡ true

round-Decided :
    (b : Board) (previous : String) (r : Read) (rest : Outcome × List Phase)
    → Decided rest
    → Decided (round b previous r rest)
unfolding round
round-Decided b previous auth_failed rest h = refl
round-Decided b previous (read_failed _) rest h = h
round-Decided b previous (boot_id id) rest h = ground (arith, h)

-- Fuel that covers the time to the deadline is enough, since each round sleeps for the interval.
wait-Decided :
    (b : Board) (previous : String) (fuel k now deadline : ℕ)
    → deadline ≤ now + fuel * interval_us
    → Decided (wait b previous (suc fuel) k now deadline)
unfolding wait
wait-Decided b previous zero k now deadline h = ground arith
wait-Decided b previous (suc fuel) k now deadline h =
    let next = now + b.took k + interval_us in
    let rest = wait b previous (suc fuel) (k + 1) next deadline in
    let later = wait-Decided b previous fuel (k + 1) next deadline (omega (arith, h)) in
    if_intro Decided (ltb now deadline) _ _
      (λ _.
        if_intro Decided (b.cancelled_at k) _ _ (λ _. refl)
          (λ _. round-Decided b previous (read_boot_id (b.answer k)) rest later))
      (λ _. refl)

wait_for_boot-Decided :
    (b : Board) (previous : String) (now : ℕ) → Decided (wait_for_boot b previous now)
unfolding wait_for_boot
wait_for_boot-Decided b previous now =
    if_intro Decided (b.allows waiting_for_boot) _ _
      (λ _. wait-Decided b previous 90 0 now (now + timeout_us) (omega arith)) (λ _. refl)

dispatch-Decided :
    (b : Board) (previous : String) (now : ℕ) (sent : Sent) → Decided (dispatch b previous now sent)
unfolding dispatch
dispatch-Decided b previous now open_refused = refl
dispatch-Decided b previous now open_failed = refl
dispatch-Decided b previous now send_failed = wait_for_boot-Decided b previous now
dispatch-Decided b previous now (exited code) =
    if_intro Decided (code == 0) _ _ (λ _. wait_for_boot-Decided b previous now) (λ _. refl)

after_read-Decided : (b : Board) (now : ℕ) (r : Read) → Decided (after_read b now r)
unfolding after_read
after_read-Decided b now auth_failed = refl
after_read-Decided b now (read_failed error) = refl
after_read-Decided b now (boot_id previous) =
    if_intro Decided (b.cancelled_after || not (b.allows dispatching)) _ _ (λ _. refl)
      (λ _.
        if_intro Decided b.cancelled_dispatching _ _ (λ _. refl)
          (λ _. dispatch-Decided b previous now b.sent))

-- reboot_device always ends, within 90 rounds of its wait, however the board answers: it returns a boot
-- id, is cancelled, or raises.
pub reboot_device-Decided :
    (b : Board) (now : ℕ) → let (outcome, _) = reboot_device b now in is_decided outcome ≡ true
unfolding reboot_device
reboot_device-Decided b now =
    if_intro Decided b.cancelled_before _ _ (λ _. refl)
      (λ _. after_read-Decided b now (read_boot_id b.first))
