-- ===== src/BoardEvents/Durability.antt =====
-- What the store would find on disk if the gateway stopped once its writer is done
-- (linien-gateway/app/board_event_store.py).
use linien_multi_device.Prelude.{
  ℤ, ◌-ℤ◌, leb_ℤ, Bool, true, false, Option, none, some, String, List, [], ◌∷◌, ◌++◌, ◌≡◌, inl, inr,
  refl, arith, str_eq, eq_iff, is_some, Bool-cases, if_intro,
}
use linien_multi_device.Prelude.Assoc.{Assoc, lookup, insert, insert-same}
use linien_multi_device.BoardEvents.{
  take_payload, submit, Kind, reboot_detected, Event, Payload, BoardEventStore, items_of,
  prune_items, prune, events, flush, append_event, record_event, note_change, note_boot_id,
  forget_boot_id, forget, finish, finish_write, last_boot_id,
}

module _ {A : Type 0} where
  -- The boot ids on disk once the submitted writes have succeeded.
  unfoldable pub latest_ids : List (Payload A) → Option (Payload A) → Assoc String
  latest_ids [] none = []
  latest_ids [] (some p) = p.boot_ids
  latest_ids (p ∷ rest) disk = latest_ids rest (some p)

  latest_ids-append :
      (writes : List (Payload A)) (p : Payload A) (disk : Option (Payload A))
      → latest_ids (writes ++ p ∷ []) disk ≡ p.boot_ids
  unfolding latest_ids
  latest_ids-append [] p disk = refl
  latest_ids-append (q ∷ rest) p disk = latest_ids-append rest p (some q)

  -- A store that is not marked as changed has all its boot ids on disk or on the way there.
  pub record IsDurable (s : BoardEventStore A) : Type 0 where
    pub ids : s.dirty ≡ false → latest_ids s.submitted s.disk ≡ s.boot_ids

  flush-IsDurable : (wall : ℤ) (s : BoardEventStore A) → IsDurable s → IsDurable (flush wall s)
  unfolding flush take_payload submit
  flush-IsDurable wall s d = record {
    ids = ground (
      arith,
      d.ids,
      latest_ids-append s.submitted (record { boot_ids = s.boot_ids; events = s.events }) s.disk,
    );
  }

  changed-IsDurable : (s : BoardEventStore A) → s.dirty ≡ true → IsDurable s
  changed-IsDurable s h = record { ids = λ k. cc }

  finish-IsDurable :
      (succeeded : Bool) (writes : List (Payload A)) (s : BoardEventStore A)
      → s.submitted ≡ writes
      → IsDurable s
      → IsDurable (finish succeeded writes s)
  unfolding finish latest_ids
  finish-IsDurable succeeded [] s e d = d
  finish-IsDurable true (p ∷ rest) s e d = record { ids = λ k. simp e at (d.ids k) }
  finish-IsDurable false (p ∷ rest) s e d = record { ids = λ k. cc }

  finish_write-IsDurable :
      (succeeded : Bool) (s : BoardEventStore A)
      → IsDurable s
      → IsDurable (finish_write succeeded s)
  unfolding finish_write
  finish_write-IsDurable succeeded s d = finish-IsDurable succeeded s.submitted s refl d

  prune_items-IsDurable :
      (key : String) (now : ℤ) (items : List (Event A)) (s : BoardEventStore A)
      → IsDurable s
      → IsDurable (prune_items key now items s)
  unfolding prune_items
  prune_items-IsDurable key now [] s d = d
  prune_items-IsDurable key now (x ∷ xs) s d = record { ids = d.ids }

  prune-IsDurable :
      (key : String) (now : ℤ) (s : BoardEventStore A) → IsDurable s → IsDurable (prune key now s)
  unfolding prune
  prune-IsDurable key now s d = prune_items-IsDurable key now (items_of key s) s d

  record_event-IsDurable :
      (key : String) (kind : Kind) (boot_id : Option String) (content : A) (now wall : ℤ)
      (s : BoardEventStore A)
      → IsDurable (record_event key kind boot_id content now wall s)
  unfolding record_event append_event
  record_event-IsDurable key kind boot_id content now wall s =
      if_intro IsDurable (leb_ℤ s.flush_interval_s (now -ℤ s.last_flush)) _ _
        (λ due. flush-IsDurable wall _ (changed-IsDurable _ refl)) (λ _. changed-IsDurable _ refl)

  note_change-IsDurable :
      (key boot_id : String) (content : A) (now wall : ℤ) (previous : Option String)
      (s : BoardEventStore A)
      → previous ≡ lookup key s.boot_ids
      → IsDurable s
      → IsDurable (note_change key boot_id content now wall previous s).0
  unfolding note_change
  note_change-IsDurable key boot_id content now wall none s e d =
      flush-IsDurable wall (record s { boot_ids = insert key boot_id s.boot_ids; dirty = true })
        (changed-IsDurable _ refl)
  note_change-IsDurable key boot_id content now wall (some previous) s e d =
      elim (Bool-cases (str_eq previous boot_id)) [
        | inl same ↦ rw same (record {
          ids = λ k.
              ground (arith, d.ids k, eq_iff previous boot_id, insert-same key boot_id s.boot_ids);
        })
        | inr other ↦ rw other (
            record_event-IsDurable key reboot_detected (some boot_id) content now wall
              (record s { boot_ids = insert key boot_id s.boot_ids }))
      ]

-- The calls of the gateway, and the writer's rounds between them.
pub data Call (A : Type 0) : Type 0 where
  record_call : String → Kind → Option String → A → ℤ → ℤ → Call A
  note_call : String → String → A → ℤ → ℤ → Call A
  forget_id_call forget_call : String → ℤ → Call A
  events_call : String → ℤ → ℤ → Call A
  flush_call : ℤ → Call A
  writer : Bool → Call A

module _ {A : Type 0} where
  pub step : Call A → BoardEventStore A → BoardEventStore A
  step (record_call key kind boot_id content now wall) s =
      record_event key kind boot_id content now wall s
  step (note_call key boot_id content now wall) s = (note_boot_id key boot_id content now wall s).0
  step (forget_id_call key wall) s = forget_boot_id key wall s
  step (forget_call key wall) s = forget key wall s
  step (events_call key limit wall) s = (events key limit wall s).0
  step (flush_call wall) s = flush wall s
  step (writer succeeded) s = finish_write succeeded s

  step-IsDurable : (call : Call A) (s : BoardEventStore A) → IsDurable s → IsDurable (step call s)
  unfolding step note_boot_id forget_boot_id forget events last_boot_id
  step-IsDurable (record_call key kind boot_id content now wall) s d =
      record_event-IsDurable key kind boot_id content now wall s
  step-IsDurable (note_call key boot_id content now wall) s d =
      if_intro (λ (r : BoardEventStore A × Bool). IsDurable r.0) (str_eq boot_id "") (s, false)
        (note_change key boot_id content now wall (lookup key s.boot_ids) s) (λ _. d)
        (λ _. note_change-IsDurable key boot_id content now wall (lookup key s.boot_ids) s refl d)
  step-IsDurable (forget_id_call key wall) s d =
      if_intro IsDurable (is_some (lookup key s.boot_ids)) _ _
        (λ _. flush-IsDurable wall _ (changed-IsDurable _ refl)) (λ _. d)
  step-IsDurable (forget_call key wall) s d = flush-IsDurable wall _ (changed-IsDurable _ refl)
  step-IsDurable (events_call key limit wall) s d = prune-IsDurable key wall s d
  step-IsDurable (flush_call wall) s d = flush-IsDurable wall s d
  step-IsDurable (writer succeeded) s d = finish_write-IsDurable succeeded s d

  pub run : List (Call A) → BoardEventStore A → BoardEventStore A
  run [] s = s
  run (call ∷ calls) s = run calls (step call s)

  -- From a store of which this holds, over any calls that come one after another, and any writes that
  -- succeed or fail between them, a store that is not marked as changed has the boot ids it remembers on disk, or in the
  -- last write that the writer still has: no failed write is forgotten.
  pub run-IsDurable :
      (calls : List (Call A)) (s : BoardEventStore A) → IsDurable s → IsDurable (run calls s)
  unfolding run
  run-IsDurable [] s d = d
  run-IsDurable (call ∷ calls) s d = run-IsDurable calls (step call s) (step-IsDurable call s d)
