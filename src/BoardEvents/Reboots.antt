-- ===== src/BoardEvents/Reboots.antt =====
-- When a changed boot id counts as a reboot (linien-gateway/app/board_event_store.py).
use linien_multi_device.Prelude.{
  ℤ, Bool, true, false, Option, none, some, String, List, [], ◌∷◌, ◌++◌, ◌∙◌, not, ◌≡◌, ◌≢◌, refl,
  arith, str_eq, eq_iff, if◌then◌else◌,
}
use linien_multi_device.Prelude.Assoc.{lookup, insert, erase, lookup-insert, lookup-erase}
use linien_multi_device.BoardEvents.{
  take_payload, submit, Kind, reboot_detected, Event, BoardEventStore, items_of, prune_items, prune,
  last_boot_id, flush, note_given, append_event, record_event, note_change, note_boot_id,
  forget_boot_id,
}

abbrev pub differs : Option String → String → Bool
differs none boot_id = false
differs (some previous) boot_id = not (str_eq previous boot_id)

module _ {A : Type 0} where
  boot_ids-flush : (wall : ℤ) (s : BoardEventStore A) → (flush wall s).boot_ids ≡ s.boot_ids
  unfolding flush take_payload submit
  boot_ids-flush wall s = ground arith

  boot_ids-prune_items :
      (key : String) (now : ℤ) (items : List (Event A)) (s : BoardEventStore A)
      → (prune_items key now items s).boot_ids ≡ s.boot_ids
  unfolding prune_items
  boot_ids-prune_items key now [] s = refl
  boot_ids-prune_items key now (x ∷ xs) s = refl

  pub boot_ids-prune :
      (key : String) (now : ℤ) (s : BoardEventStore A) → (prune key now s).boot_ids ≡ s.boot_ids
  unfolding prune
  boot_ids-prune key now s = boot_ids-prune_items key now (items_of key s) s

  boot_ids-append_event :
      (key : String) (event : Event A) (s : BoardEventStore A)
      → (append_event key event s).boot_ids ≡ (note_given key event.boot_id s).boot_ids
  unfolding append_event note_given
  boot_ids-append_event key event s = boot_ids-prune key event.ts _ ∙ same event.boot_id
    where
      same :
          (b : Option String)
          → (note_given key b
              (record s { events = insert key (items_of key s ++ event ∷ []) s.events })).boot_ids
            ≡ (note_given key b s).boot_ids
      same none = refl
      same (some b) = ground arith

  boot_ids-note_given :
      (key boot_id : String) (s : BoardEventStore A)
      → (note_given key (some boot_id) s).boot_ids
        ≡ (if str_eq boot_id "" then s.boot_ids else insert key boot_id s.boot_ids)
  unfolding note_given
  boot_ids-note_given key boot_id s = ground arith

  pub boot_ids-record_event :
      (key : String) (kind : Kind) (boot_id : Option String) (content : A) (now wall : ℤ)
      (s : BoardEventStore A)
      → (record_event key kind boot_id content now wall s).boot_ids
        ≡ (note_given key boot_id s).boot_ids
  unfolding record_event
  boot_ids-record_event key kind boot_id content now wall s =
      let event : Event A = record {
        ts = now;
        kind = kind;
        boot_id = boot_id;
        content = content;
      } in
      let changed = append_event key event s in
      ground (arith, boot_ids-append_event key event s, boot_ids-flush wall changed)

  note_change-reboot :
      (key boot_id : String) (content : A) (now wall : ℤ) (previous : Option String)
      (s : BoardEventStore A)
      → boot_id ≢ ""
      → let (s', rebooted) = note_change key boot_id content now wall previous s in
        (rebooted ≡ differs previous boot_id) × (lookup key s'.boot_ids ≡ some boot_id)
  unfolding note_change
  note_change-reboot key boot_id content now wall none s h = ground (
    arith,
    boot_ids-flush wall (record s { boot_ids = insert key boot_id s.boot_ids; dirty = true }),
    lookup-insert key key boot_id s.boot_ids,
    eq_iff key key,
  )
  note_change-reboot key boot_id content now wall (some previous) s h =
      let noted = record s { boot_ids = insert key boot_id s.boot_ids } in
      ground (
        arith,
        boot_ids-record_event key reboot_detected (some boot_id) content now wall noted,
        boot_ids-note_given key boot_id noted,
        eq_iff boot_id "",
        lookup-insert key key boot_id s.boot_ids,
        lookup-insert key key boot_id (insert key boot_id s.boot_ids),
        eq_iff key key,
      )

  note_boot_id-first :
      (key boot_id : String) (content : A) (now wall : ℤ) (s : BoardEventStore A)
      → last_boot_id key s ≡ none
      → let (s', rebooted) = note_boot_id key boot_id content now wall s in
        (rebooted ≡ false) × (s'.events ≡ s.events)
  unfolding note_boot_id note_change last_boot_id flush take_payload submit
  note_boot_id-first key boot_id content now wall s h = rw (h, note_change) (ground arith)

  last_boot_id-forget :
      (key : String) (wall : ℤ) (s : BoardEventStore A)
      → last_boot_id key (forget_boot_id key wall s) ≡ none
  unfolding last_boot_id forget_boot_id
  last_boot_id-forget key wall s = ground (
    arith,
    boot_ids-flush wall (record s { boot_ids = erase key s.boot_ids; dirty = true }),
    lookup-erase key key s.boot_ids,
    eq_iff key key,
  )

  events-forget_boot_id :
      (key : String) (wall : ℤ) (s : BoardEventStore A)
      → (forget_boot_id key wall s).events ≡ s.events
  unfolding forget_boot_id flush take_payload submit
  events-forget_boot_id key wall s = ground arith

  -- note_boot_id() reports a reboot exactly when another id was known for the board, and remembers
  -- the new one; with an empty id it reports nothing and remembers what it did before.
  pub note_boot_id-reboot :
      (key boot_id : String) (content : A) (now wall : ℤ) (s : BoardEventStore A)
      → let (s', rebooted) = note_boot_id key boot_id content now wall s in
        (rebooted ≡ (if str_eq boot_id "" then false else differs (last_boot_id key s) boot_id))
        × (last_boot_id key s' ≡ (if str_eq boot_id "" then last_boot_id key s else some boot_id))
  unfolding note_boot_id last_boot_id
  note_boot_id-reboot key boot_id content now wall s = ground (
    arith,
    eq_iff boot_id "",
    note_change-reboot key boot_id content now wall (lookup key s.boot_ids) s,
  )

  -- Once its id is forgotten, as after a restart that the operator asked for, the next id of a board
  -- is no reboot, and the timeline stays as it is.
  pub note_boot_id-forget :
      (key boot_id : String) (content : A) (now wall wall' : ℤ) (s : BoardEventStore A)
      → let (s', rebooted) =
          note_boot_id key boot_id content now wall (forget_boot_id key wall' s) in
        (rebooted ≡ false) × (s'.events ≡ s.events)
  note_boot_id-forget key boot_id content now wall wall' s =
      let first =
        note_boot_id-first key boot_id content now wall (forget_boot_id key wall' s)
          (last_boot_id-forget key wall' s) in
      (first.0, first.1 ∙ events-forget_boot_id key wall' s)
