-- ===== src/Recovery/Outcome.antt =====
-- linien-gateway/app/device_recovery.py and _run_reboot of linien-gateway/app/session.py: what the board answered
-- where a reboot is reported, and the record of a worker.
use linien_multi_device.Prelude.{
  ℕ, zero, suc, ◌+◌, ◌≡◌, refl, arith, ap, ℤ, true, false, not, ◌||◌, some, String, List, [], ◌∷◌,
  str_eq, ltb, ◌==◌, if_intro,
}
use linien_multi_device.Recovery.{
  Phase, dispatching, waiting_for_boot, host_online, Session, Recovery, is_finished,
  set_recovery_phase,
}
use linien_multi_device.Recovery.Reboot.{
  Board, Read, auth_failed, read_failed, boot_id, Sent, open_refused, open_failed, send_failed,
  exited, Outcome, rebooted, recovery_cancelled, raised, out_of_fuel, read_boot_id, round, wait,
  wait_for_boot, dispatch, after_read, reboot_device, timeout_us, interval_us, rounds,
  finish_reboot,
}

-- The board answered `id` in a round of the wait, and it is not `previous`.
abbrev pub IsNew : Board → String → String → Type 0
IsNew b previous id =
    (k : ℕ) × ((read_boot_id (b.answer k) ≡ boot_id id) × (str_eq id previous ≡ false))

-- Where an outcome is `rebooted`, its id is new and its phases are those given.
abbrev Proves : Board → String → List Phase → Outcome × List Phase → Type 0
Proves b previous path (rebooted id, phases) = IsNew b previous id × (phases ≡ path)
Proves b previous path (recovery_cancelled, phases) = Unit {0}
Proves b previous path (raised _, phases) = Unit {0}
Proves b previous path (out_of_fuel, phases) = Unit {0}

round-Proves :
    (b : Board) (previous : String) (k : ℕ) (r : Read) (rest : Outcome × List Phase)
    → read_boot_id (b.answer k) ≡ r
    → Proves b previous (host_online ∷ []) rest
    → Proves b previous (host_online ∷ []) (round b previous r rest)
unfolding round
round-Proves b previous k auth_failed rest e h = tt
round-Proves b previous k (read_failed _) rest e h = h
round-Proves b previous k (boot_id id) rest e h =
    if_intro (Proves b previous (host_online ∷ [])) (str_eq id previous) _ _ (λ _. h)
      (λ other.
        if_intro (Proves b previous (host_online ∷ [])) (b.allows host_online) _ _
          (λ _. ((k, (e, other)), refl)) (λ _. tt))

wait-Proves :
    (b : Board) (previous : String) (fuel k now deadline : ℕ)
    → Proves b previous (host_online ∷ []) (wait b previous fuel k now deadline)
unfolding wait
wait-Proves b previous zero k now deadline = tt
wait-Proves b previous (suc fuel) k now deadline =
    let next = now + b.took k + interval_us in
    let later = wait-Proves b previous fuel (k + 1) next deadline in
    if_intro (Proves b previous (host_online ∷ [])) (ltb now deadline) _ _
      (λ _.
        if_intro (Proves b previous (host_online ∷ [])) (b.cancelled_at k) _ _ (λ _. tt)
          (λ _. round-Proves b previous k (read_boot_id (b.answer k)) _ refl later))
      (λ _. tt)

abbrev full_path : List Phase
full_path = dispatching ∷ waiting_for_boot ∷ host_online ∷ []

lengthen :
    (b : Board) (previous : String) (o : Outcome) (phases : List Phase)
    → Proves b previous (host_online ∷ []) (o, phases)
    → Proves b previous full_path (o, dispatching ∷ waiting_for_boot ∷ phases)
lengthen b previous (rebooted id) phases (new, p) =
    (new, ap (λ (xs : List Phase). dispatching ∷ waiting_for_boot ∷ xs) p)
lengthen b previous recovery_cancelled phases h = tt
lengthen b previous (raised _) phases h = tt
lengthen b previous out_of_fuel phases h = tt

wait_for_boot-Proves :
    (b : Board) (previous : String) (now : ℕ)
    → Proves b previous full_path (wait_for_boot b previous now)
unfolding wait_for_boot
wait_for_boot-Proves b previous now =
    let (outcome, phases) = wait b previous rounds 0 now (now + timeout_us) in
    if_intro (Proves b previous full_path) (b.allows waiting_for_boot) _ _
      (λ _.
        lengthen b previous outcome phases (wait-Proves b previous rounds 0 now (now + timeout_us)))
      (λ _. tt)

dispatch-Proves :
    (b : Board) (previous : String) (now : ℕ) (sent : Sent)
    → Proves b previous full_path (dispatch b previous now sent)
unfolding dispatch
dispatch-Proves b previous now open_refused = tt
dispatch-Proves b previous now open_failed = tt
dispatch-Proves b previous now send_failed = wait_for_boot-Proves b previous now
dispatch-Proves b previous now (exited code) =
    if_intro (Proves b previous full_path) (code == 0) _ _
      (λ _. wait_for_boot-Proves b previous now) (λ _. tt)

-- Where an outcome is `rebooted`, the board's id before the reboot was read, and the one that is
-- reported is another one, read while waiting; the phases were set in their order.
abbrev pub IsProven : Board → Outcome × List Phase → Type 0
IsProven b (rebooted id, phases) =
    (previous : String) × (read_boot_id b.first ≡ boot_id previous)
    × IsNew b previous id
    × (phases ≡ full_path)
IsProven b (recovery_cancelled, phases) = Unit {0}
IsProven b (raised _, phases) = Unit {0}
IsProven b (out_of_fuel, phases) = Unit {0}

with_previous :
    (b : Board) (previous : String) (o : Outcome) (phases : List Phase)
    → read_boot_id b.first ≡ boot_id previous
    → Proves b previous full_path (o, phases)
    → IsProven b (o, phases)
with_previous b previous (rebooted id) phases e (new, p) = (previous, e, new, p)
with_previous b previous recovery_cancelled phases e h = tt
with_previous b previous (raised _) phases e h = tt
with_previous b previous out_of_fuel phases e h = tt

after_read-IsProven :
    (b : Board) (now : ℕ) (r : Read) → read_boot_id b.first ≡ r → IsProven b (after_read b now r)
unfolding after_read
after_read-IsProven b now auth_failed e = tt
after_read-IsProven b now (read_failed error) e = tt
after_read-IsProven b now (boot_id previous) e =
    let (outcome, phases) = dispatch b previous now b.sent in
    if_intro (IsProven b) (b.cancelled_after || not (b.allows dispatching)) _ _ (λ _. tt)
      (λ _.
        if_intro (IsProven b) b.cancelled_dispatching _ _ (λ _. tt)
          (λ _. with_previous b previous outcome phases e (dispatch-Proves b previous now b.sent)))

-- reboot_device returns a boot id only where it read one before the command, and in a round of its
-- wait the board answered that id, which is another one; it has then set the phases dispatching,
-- waiting_for_boot and host_online, in this order.
pub reboot_device-IsProven : (b : Board) (now : ℕ) → IsProven b (reboot_device b now)
unfolding reboot_device
reboot_device-IsProven b now =
    if_intro (IsProven b) b.cancelled_before _ _ (λ _. tt)
      (λ _. after_read-IsProven b now (read_boot_id b.first) refl)

-- A worker whose operation was cancelled, replaced, finished or removed with its device changes nothing
-- any more and logs nothing, whatever the outcome of its reboot is.
pub finish_reboot-late :
    (now : ℤ) (id : String) (o : Outcome) (r : Recovery) (s : Session)
    → s.recovery ≡ some r
    → not (str_eq r.operation_id id) || is_finished r.phase || s.recovery_cancel || s.removed ≡ true
    → finish_reboot now id o s ≡ (s, [])
unfolding finish_reboot set_recovery_phase
finish_reboot-late now id (rebooted b) r s e h = ground arith
finish_reboot-late now id recovery_cancelled r s e h = refl
finish_reboot-late now id (raised error) r s e h = ground arith
finish_reboot-late now id out_of_fuel r s e h = refl
