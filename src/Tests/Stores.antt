-- ===== src/Tests/Stores.antt =====
-- Concrete runs of linien-gateway/app/log_store.py and linien-gateway/app/board_event_store.py.
use linien_multi_device.Prelude.{
  ℕ, ℤ, pos, ◌-ℤ◌, true, false, none, [], ◌∷◌, ◌≡◌, refl, arith, drop, filter,
}
use linien_multi_device.LogStore.{Entry, Queue, LogStore, info, prune}
use linien_multi_device.LogStore.Pruning.{IsOrdered, fresh, prune-eq-filter}
use linien_multi_device.LogStore.Queues.{IsBounded}
use linien_multi_device.BoardEvents.{BoardEventStore, disconnected, take_payload, submit}
use linien_multi_device.BoardEvents.Durability.{
  IsDurable, latest_ids, note_call, forget_id_call, flush_call, writer, run, run-IsDurable,
}

abbrev entry : ℤ → Entry ℕ
entry ts = record { ts = ts; level = info; content = 0 }

abbrev log : LogStore ℕ
log = record {
  max_entries = 2;
  max_age_s = pos 60000000;
  entries = entry (pos 1) ∷ entry (pos 2) ∷ entry (pos 90000000) ∷ [];
  subscribers = [];
  loop_set = true;
}

log-IsOrdered : IsOrdered log.entries
log-IsOrdered = ground arith

prune-eq-filter_example :
    (prune (pos 90000000) log).entries
    ≡ filter (fresh (pos 90000000 -ℤ pos 60000000)) (drop 1 log.entries)
prune-eq-filter_example = prune-eq-filter (pos 90000000) log log-IsOrdered

-- A full queue of two entries.
abbrev full : Queue ℕ
full = record { id = 0; maxsize = 2; items = entry (pos 1) ∷ entry (pos 2) ∷ [] }

full-IsBounded : IsBounded full
full-IsBounded = (omega arith, omega arith)

abbrev board : BoardEventStore ℕ
board = record {
  max_per_device = 2;
  max_age_s = pos 60000000;
  flush_interval_s = pos 5000000;
  events =
      ("d2", record { ts = pos 1; kind = disconnected; boot_id = none; content = 0 } ∷ []) ∷ [];
  boot_ids = ("d1", "boot-1") ∷ [];
  dirty = true;
  last_flush = pos 0;
  submitted = [];
  disk = none;
}

board-IsDurable : IsDurable board
board-IsDurable = ground arith

run-IsDurable_example : IsDurable (
    run
      (note_call "d1" "boot-2" 0 (pos 2) (pos 2)
        ∷ flush_call (pos 3)
        ∷ writer false
        ∷ forget_id_call "d1" (pos 4)
        ∷ writer true
        ∷ [])
      board)
run-IsDurable_example =
    run-IsDurable
      (note_call "d1" "boot-2" 0 (pos 2) (pos 2)
        ∷ flush_call (pos 3)
        ∷ writer false
        ∷ forget_id_call "d1" (pos 4)
        ∷ writer true
        ∷ [])
      board board-IsDurable

-- A boot id that two flushes of one store see change, and the payloads that are submitted the other way
-- round: once both are written, the file has the older one, and the store is not marked as changed.
reordered_flushes :
    let (s1, older) = take_payload (pos 1) board in
    let (s2, newer) =
      take_payload (pos 2) (record s1 { boot_ids = ("d1", "boot-2") ∷ []; dirty = true }) in
    let s3 = submit older (submit newer s2) in
    (s3.dirty ≡ false) × (latest_ids s3.submitted s3.disk ≡ ("d1", "boot-1") ∷ [])
unfolding take_payload submit latest_ids
reordered_flushes = (refl, refl)
