-- ===== src/BoardEvents/Timeline.antt =====
-- The bounded timeline of each board (linien-gateway/app/board_event_store.py).
use linien_multi_device.Prelude.{
  ℕ, zero, suc, ◌-◌, ◌≤◌, ◌<◌, ℤ, pos, ◌-ℤ◌, -ℤ_parts, ◌≤ℤ◌, ltb_ℤ, Bool, true, not, Option, none,
  some, String, List, [], ◌∷◌, ◌++◌, ◌∙◌, ap, ◌≡◌, ◌≢◌, inl, inr, refl, arith, str_eq, eq_iff,
  length, length-append, length-drop, drop, filter, ltb, if◌then◌else◌, Bool-cases,
}
use linien_multi_device.Prelude.Assoc.{Assoc, lookup, insert, lookup-insert}
use linien_multi_device.BoardEvents.{
  take_payload, submit, Kind, Event, BoardEventStore, keep_recent, items_of, or_empty, prune_items,
  prune, flush, note_given, append_event, record_event,
}

module _ {A : Type 0} where
  abbrev young : ℤ → Event A → Bool
  young cutoff e = not (ltb_ℤ e.ts cutoff)

  length-keep_recent :
      (cutoff : ℤ) (max : ℕ) (items : List (Event A)) → length (keep_recent cutoff max items) ≤ max
  unfolding keep_recent
  length-keep_recent cutoff max items =
      let kept = filter (young cutoff) items in ground (arith, length-drop (length kept - max) kept)

  filter-append :
      (cutoff : ℤ) (items : List (Event A)) (e : Event A)
      → cutoff ≤ℤ e.ts
      → filter (young cutoff) (items ++ e ∷ []) ≡ filter (young cutoff) items ++ e ∷ []
  filter-append cutoff [] e h = ground arith
  filter-append cutoff (x ∷ xs) e h = ground (arith, filter-append cutoff xs e h)

  drop-append :
      (n : ℕ) (items : List (Event A)) (e : Event A)
      → n ≤ length items
      → drop n (items ++ e ∷ []) ≡ drop n items ++ e ∷ []
  drop-append zero items e h = refl
  drop-append (suc n) [] e h = absurd (omega arith)
  drop-append (suc n) (x ∷ xs) e h = drop-append n xs e (omega arith)

  keep_recent-append :
      (cutoff : ℤ) (max : ℕ) (items : List (Event A)) (e : Event A)
      → cutoff ≤ℤ e.ts
      → 0 < max
      → (older : List (Event A)) × (keep_recent cutoff max (items ++ e ∷ []) ≡ older ++ e ∷ [])
  unfolding keep_recent
  keep_recent-append cutoff max items e h room =
      let kept = filter (young cutoff) items in
      rw (filter-append cutoff items e h) (elim (Bool-cases (ltb max (length (kept ++ e ∷ [])))) [
        | inl more ↦ (
          drop (length (kept ++ e ∷ []) - max) kept,
          simp more (
              drop-append (length (kept ++ e ∷ []) - max) kept e
                (omega (arith, length-append kept (e ∷ [])))),
        )
        | inr fits ↦ (kept, simp fits)
      ])

  events-note_given :
      (key : String) (boot_id : Option String) (s : BoardEventStore A)
      → (note_given key boot_id s).events ≡ s.events
  unfolding note_given
  events-note_given key none s = refl
  events-note_given key (some id) s = ground arith

  items_of-flush :
      (key : String) (wall : ℤ) (s : BoardEventStore A)
      → items_of key (flush wall s) ≡ items_of key s
  unfolding items_of flush take_payload submit
  items_of-flush key wall s = ground arith

  bounds-note_given :
      (key : String) (boot_id : Option String) (s : BoardEventStore A)
      → ((note_given key boot_id s).max_age_s ≡ s.max_age_s)
        × ((note_given key boot_id s).max_per_device ≡ s.max_per_device)
  unfolding note_given
  bounds-note_given key none s = (refl, refl)
  bounds-note_given key (some id) s = ground arith

  append-ne-nil : (items : List (Event A)) (e : Event A) → items ++ e ∷ [] ≢ []
  append-ne-nil [] e h = cc
  append-ne-nil (x ∷ xs) e h = cc

  items_of-prune_items :
      (j key : String) (now : ℤ) (items : List (Event A)) (s : BoardEventStore A)
      → items ≢ []
      → items_of j (prune_items key now items s) ≡ (
          if str_eq key j
          then keep_recent (now -ℤ s.max_age_s) s.max_per_device items
          else items_of j s)
  unfolding items_of prune_items
  items_of-prune_items j key now [] s h = absurd (h refl)
  items_of-prune_items j key now (x ∷ xs) s h =
      let kept = keep_recent (now -ℤ s.max_age_s) s.max_per_device (x ∷ xs) in
      ground (arith, lookup-insert key j kept s.events)

  items_of-insert :
      (j key : String) (items : List (Event A)) (s : BoardEventStore A)
      → items_of j (record s { events = insert key items s.events })
        ≡ (if str_eq key j then items else items_of j s)
  unfolding items_of
  items_of-insert j key items s = ground (arith, lookup-insert key j items s.events)

  items_of-note_given :
      (j key : String) (boot_id : Option String) (s : BoardEventStore A)
      → items_of j (note_given key boot_id s) ≡ items_of j s
  unfolding items_of
  items_of-note_given j key boot_id s =
      ap (λ (d : Assoc (List (Event A))). or_empty (lookup j d)) (events-note_given key boot_id s)

  items_of-dirty :
      (j : String) (b : Bool) (s : BoardEventStore A)
      → items_of j (record s { dirty = b }) ≡ items_of j s
  unfolding items_of
  items_of-dirty j b s = refl

  items_of-append_event :
      (j key : String) (e : Event A) (s : BoardEventStore A)
      → items_of j (append_event key e s) ≡ (
          if str_eq key j
          then keep_recent (e.ts -ℤ s.max_age_s) s.max_per_device (items_of key s ++ e ∷ [])
          else items_of j s)
  unfolding append_event prune
  items_of-append_event j key e s =
      let items = items_of key s ++ e ∷ [] in
      let s1 = record s { events = insert key items s.events } in
      let s2 = note_given key e.boot_id s1 in
      let b = bounds-note_given key e.boot_id s1 in
      let own : items_of key s2 ≡ items =
        items_of-note_given key key e.boot_id s1
        ∙ items_of-insert key key items s
        ∙ ground (arith, eq_iff key key) in
      items_of-dirty j true (prune_items key e.ts (items_of key s2) s2)
      ∙ ap (λ (l : List (Event A)). items_of j (prune_items key e.ts l s2)) own
      ∙ items_of-prune_items j key e.ts items s2 (append-ne-nil (items_of key s) e)
      ∙ ground (
        arith,
        b,
        items_of-note_given j key e.boot_id s1,
        items_of-insert j key items s,
        eq_iff key j,
      )

  items_of-record_event :
      (j key : String) (kind : Kind) (boot_id : Option String) (content : A) (now wall : ℤ)
      (s : BoardEventStore A)
      → let event : Event A = record {
        ts = now;
        kind = kind;
        boot_id = boot_id;
        content = content;
      } in
        items_of j (record_event key kind boot_id content now wall s) ≡ (
          if str_eq key j
          then keep_recent (now -ℤ s.max_age_s) s.max_per_device (items_of key s ++ event ∷ [])
          else items_of j s)
  unfolding record_event
  items_of-record_event j key kind boot_id content now wall s =
      let e : Event A = record { ts = now; kind = kind; boot_id = boot_id; content = content } in
      ground (arith, items_of-append_event j key e s, items_of-flush j wall (append_event key e s))

  -- In a store with room for an event and a non-negative age, recording one keeps the board's
  -- timeline within its bound, with the event as its newest entry, and leaves the timelines of the
  -- other boards alone; whatever id the event has and whether or not a flush is due.
  pub record_event-timeline :
      (j key : String) (kind : Kind) (boot_id : Option String) (content : A) (now wall : ℤ)
      (s : BoardEventStore A)
      → 0 < s.max_per_device
      → pos 0 ≤ℤ s.max_age_s
      → let s' = record_event key kind boot_id content now wall s in
        let event : Event A = record {
          ts = now;
          kind = kind;
          boot_id = boot_id;
          content = content;
        } in
        (length (items_of key s') ≤ s.max_per_device)
        × ((older : List (Event A)) × (items_of key s' ≡ older ++ event ∷ []))
        × (items_of j s' ≡ (if str_eq key j then items_of key s' else items_of j s))
  record_event-timeline j key kind boot_id content now wall s room age =
      let e : Event A = record { ts = now; kind = kind; boot_id = boot_id; content = content } in
      let cutoff = now -ℤ s.max_age_s in
      let items = items_of key s ++ e ∷ [] in
      let own : items_of key (record_event key kind boot_id content now wall s)
          ≡ keep_recent cutoff s.max_per_device items =
        items_of-record_event key key kind boot_id content now wall s
        ∙ ground (arith, eq_iff key key) in
      let last =
        keep_recent-append cutoff s.max_per_device (items_of key s) e
          (omega (arith, -ℤ_parts now s.max_age_s)) room in
      (
        rw own (length-keep_recent cutoff s.max_per_device items),
        (last.0, own ∙ last.1),
        ground (arith, own, items_of-record_event j key kind boot_id content now wall s),
      )
