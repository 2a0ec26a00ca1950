-- ===== src/BoardEvents.antt =====
-- linien-gateway/app/board_event_store.py: the class BoardEventStore. Where a call
-- takes the store's lock, or acts after it, more than once, each part is a definition, and the call is
-- the parts with nothing in between. The writer thread is a queue of payloads, oldest first, that `finish_write` works off;
-- a write succeeds or fails as its argument says. `now` is the event's time and `wall` the clock.
-- An event's detail and data, already cut and coerced, are of a type that the caller chooses.
pub mod Reboots
pub mod Durability
pub mod Timeline
use linien_multi_device.Prelude.{
  ℕ, ◌-◌, ℤ, pos, ◌-ℤ◌, ltb_ℤ, leb_ℤ, max_ℤ, min_ℤ, Bool, true, false, not, Option, none, some,
  String, List, [], ◌∷◌, ◌++◌, length, drop, filter, ltb, str_eq, if◌then◌else◌, is_some,
}
use linien_multi_device.Prelude.Int.{to_ℕ}
use linien_multi_device.Prelude.Assoc.{Assoc, lookup, insert, erase}
use mathlib.Core.List.{reverse}

pub data Kind : Type 0 where
  disconnected diagnosis reboot_detected reboot_requested telemetry_offline : Kind
  telemetry_recovered persistent_log_enabled reset_cause_cleared : Kind

pub record Event (A : Type 0) : Type 0 where
  pub ts : ℤ
  pub kind : Kind
  pub boot_id : Option String
  pub content : A

pub record Payload (A : Type 0) : Type 0 where
  pub boot_ids : Assoc String
  pub events : Assoc (List (Event A))

pub record BoardEventStore (A : Type 0) : Type 0 where
  pub max_per_device : ℕ
  pub max_age_s : ℤ
  pub flush_interval_s : ℤ
  pub events : Assoc (List (Event A))
  pub boot_ids : Assoc String
  pub dirty : Bool
  pub last_flush : ℤ
  pub submitted : List (Payload A)
  pub disk : Option (Payload A)

-- Python's truth of an optional text.
unfoldable pub is_given : Option String → Bool
is_given none = false
is_given (some s) = not (str_eq s "")

module _ {A : Type 0} where
  -- The store before _load, with what the file holds.
  pub init : ℤ → ℤ → ℤ → Option (Payload A) → BoardEventStore A
  init max_per_device max_age_s flush_interval_s disk = record {
    max_per_device = to_ℕ (max_ℤ (pos 1) max_per_device);
    max_age_s = max_ℤ (pos 60000000) max_age_s;
    flush_interval_s = max_ℤ (pos 0) flush_interval_s;
    events = [];
    boot_ids = [];
    dirty = false;
    last_flush = pos 0;
    submitted = [];
    disk = disk;
  }

  -- What _prune_locked leaves of a device's list: first the age, then the count.
  unfoldable pub keep_recent : ℤ → ℕ → List (Event A) → List (Event A)
  keep_recent cutoff max items =
      let young = filter (λ (e : Event A). not (ltb_ℤ e.ts cutoff)) items in
      if ltb max (length young) then drop (length young - max) young else young

  pub prune_items : String → ℤ → List (Event A) → BoardEventStore A → BoardEventStore A
  unfolding keep_recent
  prune_items key now [] s = s
  prune_items key now (x ∷ xs) s = record s {
    events = insert key (keep_recent (now -ℤ s.max_age_s) s.max_per_device (x ∷ xs)) s.events;
  }

  abbrev pub or_empty : Option (List (Event A)) → List (Event A)
  or_empty none = []
  or_empty (some items) = items

  -- `self._events.get(device_key, [])`
  unfoldable pub items_of : String → BoardEventStore A → List (Event A)
  items_of key s = or_empty (lookup key s.events)

  pub prune : String → ℤ → BoardEventStore A → BoardEventStore A
  unfolding prune_items items_of
  prune key now s = prune_items key now (items_of key s) s

  -- events(): the newest first.
  pub events : String → ℤ → ℤ → BoardEventStore A → BoardEventStore A × List (Event A)
  events key limit wall s =
      let n = to_ℕ (max_ℤ (pos 1) (min_ℤ limit (pos s.max_per_device))) in
      let s' = prune key wall s in
      let items = items_of key s' in (s', reverse (drop (length items - n) items))

  unfoldable pub last_boot_id : String → BoardEventStore A → Option String
  last_boot_id key s = lookup key s.boot_ids

  -- The part of flush() under its lock: what is to be written, where anything changed.
  unfoldable pub take_payload : ℤ → BoardEventStore A → BoardEventStore A × Option (Payload A)
  take_payload wall s =
      if s.dirty
      then (
        record s { dirty = false; last_flush = wall },
        some (record { boot_ids = s.boot_ids; events = s.events }),
      )
      else (s, none)

  -- The rest of it, without the lock: hand it to the writer.
  unfoldable pub submit : Option (Payload A) → BoardEventStore A → BoardEventStore A
  submit none s = s
  submit (some p) s = record s { submitted = s.submitted ++ p ∷ [] }

  -- flush(), where no other one comes between the two.
  pub flush : ℤ → BoardEventStore A → BoardEventStore A
  unfolding take_payload submit
  flush wall s = let (s', payload) = take_payload wall s in submit payload s'

  -- _write() of the oldest payload; a failure marks the store dirty again.
  pub finish : Bool → List (Payload A) → BoardEventStore A → BoardEventStore A
  finish succeeded [] s = s
  finish true (p ∷ rest) s = record s { submitted = rest; disk = some p }
  finish false (p ∷ rest) s = record s { submitted = rest; dirty = true }

  pub finish_write : Bool → BoardEventStore A → BoardEventStore A
  unfolding finish
  finish_write succeeded s = finish succeeded s.submitted s

  pub note_given : String → Option String → BoardEventStore A → BoardEventStore A
  note_given key none s = s
  note_given key (some id) s =
      if str_eq id "" then s else record s { boot_ids = insert key id s.boot_ids }

  -- record(), under the lock: append, remember the boot id, prune, mark as changed.
  pub append_event : String → Event A → BoardEventStore A → BoardEventStore A
  append_event key event s =
      let appended = record s { events = insert key (items_of key s ++ event ∷ []) s.events } in
      record (prune key event.ts (note_given key event.boot_id appended)) { dirty = true }

  -- record(): `append_event`, and a flush when one is due.
  pub record_event :
      String → Kind → Option String → A → ℤ → ℤ → BoardEventStore A → BoardEventStore A
  record_event key kind boot_id content now wall s =
      let event : Event A = record {
        ts = now;
        kind = kind;
        boot_id = boot_id;
        content = content;
      } in
      let changed = append_event key event s in
      if leb_ℤ s.flush_interval_s (now -ℤ s.last_flush) then flush wall changed else changed

  -- The part of note_boot_id() under its lock, from the id that was known before.
  abbrev pub remember_boot_id :
      String → String → Option String → BoardEventStore A → BoardEventStore A
  remember_boot_id key boot_id none s = record s {
    boot_ids = insert key boot_id s.boot_ids;
    dirty = true;
  }
  remember_boot_id key boot_id (some previous) s = record s {
    boot_ids = insert key boot_id s.boot_ids;
  }

  -- note_boot_id(), where nothing comes between that and what follows; `content` is the text of the
  -- event.
  pub note_change :
      String → String → A → ℤ → ℤ → Option String → BoardEventStore A → BoardEventStore A × Bool
  note_change key boot_id content now wall none s =
      (flush wall (remember_boot_id key boot_id none s), false)
  note_change key boot_id content now wall (some previous) s =
      let noted = remember_boot_id key boot_id (some previous) s in
      if str_eq previous boot_id
      then (noted, false)
      else (record_event key reboot_detected (some boot_id) content now wall noted, true)

  pub note_boot_id : String → String → A → ℤ → ℤ → BoardEventStore A → BoardEventStore A × Bool
  note_boot_id key boot_id content now wall s =
      if str_eq boot_id ""
      then (s, false)
      else note_change key boot_id content now wall (last_boot_id key s) s

  pub forget_boot_id : String → ℤ → BoardEventStore A → BoardEventStore A
  forget_boot_id key wall s =
      if is_some (lookup key s.boot_ids)
      then flush wall (record s { boot_ids = erase key s.boot_ids; dirty = true })
      else s

  pub forget : String → ℤ → BoardEventStore A → BoardEventStore A
  forget key wall s =
      flush wall
        (record s { events = erase key s.events; boot_ids = erase key s.boot_ids; dirty = true })

  -- _load() of a well-formed file: the lists are pruned one by one, an empty one is left out.
  load_events : ℤ → Assoc (List (Event A)) → BoardEventStore A → BoardEventStore A
  load_events now [] s = s
  load_events now ((key, []) ∷ rest) s = load_events now rest s
  load_events now ((key, x ∷ xs) ∷ rest) s =
      load_events now rest (prune key now (record s { events = insert key (x ∷ xs) s.events }))

  pub load : ℤ → Option (Payload A) → BoardEventStore A → BoardEventStore A
  load now none s = s
  load now (some p) s = load_events now p.events (record s { boot_ids = p.boot_ids })
