-- ===== src/LogStore/Pruning.antt =====
-- What the log keeps (linien-gateway/app/log_store.py).
use native.Mathlib.Nat.{zero-sub}
use linien_multi_device.Prelude.{
  ℕ, suc, ◌-◌, ◌≤◌, ◌<◌, ℤ, pos, ◌-ℤ◌, ◌≤ℤ◌, ltb_ℤ, Bool, false, not, List, [], ◌∷◌, ◌++◌, ◌≡◌, inl,
  inr, Bool-cases, zero, -ℤ_parts, refl, arith, length, drop, All, filter, ltb, leb, if◌then◌else◌,
}
use linien_multi_device.LogStore.{
  Entry, LogStore, drop_excess, drop_old, prune, emit, tail, normalize_level, safe_limit,
}

safe_limit_bounds :
    (limit : ℤ) (max : ℕ) → 0 < max → (1 ≤ safe_limit limit max) × (safe_limit limit max ≤ max)
unfolding safe_limit
safe_limit_bounds limit max h = ground arith

module _ {A : Type 0} where
  length-drop_excess : (max : ℕ) (xs : List (Entry A)) → length (drop_excess max xs) ≤ max
  unfolding drop_excess
  length-drop_excess max [] = omega arith
  length-drop_excess max (x ∷ xs) = ground (arith, length-drop_excess max xs)

  length-drop_old : (cutoff : ℤ) (xs : List (Entry A)) → length (drop_old cutoff xs) ≤ length xs
  unfolding drop_old
  length-drop_old cutoff [] = omega arith
  length-drop_old cutoff (x ∷ xs) = ground (arith, length-drop_old cutoff xs)

  -- The entries are in the order of their times.
  abbrev pub IsOrdered : List (Entry A) → Type 0
  IsOrdered [] = Unit
  IsOrdered (x ∷ xs) = All (λ (y : Entry A). x.ts ≤ℤ y.ts) xs × IsOrdered xs

  abbrev pub fresh : ℤ → Entry A → Bool
  fresh cutoff x = not (ltb_ℤ x.ts cutoff)

  filter-fresh :
      (cutoff : ℤ) (x : Entry A) (xs : List (Entry A))
      → ltb_ℤ x.ts cutoff ≡ false
      → All (λ (y : Entry A). x.ts ≤ℤ y.ts) xs
      → filter (fresh cutoff) xs ≡ xs
  filter-fresh cutoff x [] h all = refl
  filter-fresh cutoff x (y ∷ xs) h all = ground (arith, filter-fresh cutoff x xs h all.1)

  drop_old-eq-filter :
      (cutoff : ℤ) (xs : List (Entry A))
      → IsOrdered xs
      → drop_old cutoff xs ≡ filter (fresh cutoff) xs
  unfolding drop_old
  drop_old-eq-filter cutoff [] o = refl
  drop_old-eq-filter cutoff (x ∷ xs) o =
      ground (arith, drop_old-eq-filter cutoff xs o.1, filter-fresh cutoff x xs)

  drop_excess-eq-drop :
      (max : ℕ) (xs : List (Entry A)) → drop_excess max xs ≡ drop (length xs - max) xs
  unfolding drop_excess
  drop_excess-eq-drop max [] = rw (zero-sub max)
  drop_excess-eq-drop max (x ∷ xs) = elim (Bool-cases (ltb max (suc (length xs)))) [
    | inl more ↦
        (let e : suc (length xs) - max ≡ suc (length xs - max) = ground arith in
          rw (more, e) (drop_excess-eq-drop max xs))
    | inr fits ↦ let e : suc (length xs) - max ≡ 0 = ground arith in rw (fits, e)
  ]

  -- The order is kept by what drops from the front.
  IsOrdered-drop : (n : ℕ) (xs : List (Entry A)) → IsOrdered xs → IsOrdered (drop n xs)
  IsOrdered-drop zero xs o = o
  IsOrdered-drop (suc n) [] o = tt
  IsOrdered-drop (suc n) (x ∷ xs) o = IsOrdered-drop n xs o.1

  -- In a log in the order of its times, pruning keeps exactly the fresh ones among the newest
  -- `max_entries` entries.
  pub prune-eq-filter :
      (now : ℤ) (s : LogStore A)
      → IsOrdered s.entries
      → (prune now s).entries
        ≡ filter (fresh (now -ℤ s.max_age_s)) (drop (length s.entries - s.max_entries) s.entries)
  unfolding prune
  prune-eq-filter now s o = rw (drop_excess-eq-drop s.max_entries s.entries) (
      drop_old-eq-filter (now -ℤ s.max_age_s) _
        (IsOrdered-drop (length s.entries - s.max_entries) s.entries o))

  length-prune : (now : ℤ) (s : LogStore A) → length (prune now s).entries ≤ s.max_entries
  unfolding prune
  length-prune now s = omega (
    arith,
    length-drop_old (now -ℤ s.max_age_s) (drop_excess s.max_entries s.entries),
    length-drop_excess s.max_entries s.entries,
  )

  -- After emit() the log is within its bound, whatever it held.
  length-emit :
      (level : ℤ) (content : A) (ts : ℤ) (s : LogStore A)
      → length (emit level content ts s).0.entries ≤ s.max_entries
  unfolding emit
  length-emit level content ts s = length-prune ts (record s {
    entries =
        s.entries ++ record { ts = ts; level = normalize_level level; content = content } ∷ [];
  })

  drop_excess-append :
      (max : ℕ) (xs : List (Entry A)) (x : Entry A)
      → 0 < max
      → (ys : List (Entry A)) × (drop_excess max (xs ++ x ∷ []) ≡ ys ++ x ∷ [])
  unfolding drop_excess
  drop_excess-append max [] x h = ([], ground arith)
  drop_excess-append max (y ∷ xs) x h = elim (Bool-cases (ltb max (length (y ∷ xs ++ x ∷ [])))) [
    | inl more ↦ rw more (drop_excess-append max xs x h)
    | inr fits ↦ (y ∷ xs, rw fits)
  ]

  drop_old-append :
      (cutoff : ℤ) (xs : List (Entry A)) (x : Entry A)
      → cutoff ≤ℤ x.ts
      → (ys : List (Entry A)) × (drop_old cutoff (xs ++ x ∷ []) ≡ ys ++ x ∷ [])
  unfolding drop_old
  drop_old-append cutoff [] x h = ([], ground arith)
  drop_old-append cutoff (y ∷ xs) x h = elim (Bool-cases (ltb_ℤ y.ts cutoff)) [
    | inl old ↦ rw old (drop_old-append cutoff xs x h)
    | inr young ↦ (y ∷ xs, rw young)
  ]

  -- emit() keeps the new entry, last in the log, where the log has room for one entry and a
  -- non-negative age, as every new store has.
  pub emit-last :
      (level : ℤ) (content : A) (ts : ℤ) (s : LogStore A)
      → 0 < s.max_entries
      → pos 0 ≤ℤ s.max_age_s
      → let (s', entry, _) = emit level content ts s in
        (older : List (Entry A)) × (s'.entries ≡ older ++ entry ∷ [])
  unfolding emit prune
  emit-last level content ts s room age =
      let entry : Entry A = record { ts = ts; level = normalize_level level; content = content } in
      let (ys, e) = drop_excess-append s.max_entries s.entries entry room in
      rw e (drop_old-append (ts -ℤ s.max_age_s) ys entry (omega (arith, -ℤ_parts ts s.max_age_s)))

  newest :
      (n : ℕ) (xs : List (Entry A))
      → (if leb (length xs) n then xs else drop (length xs - n) xs) ≡ drop (length xs - n) xs
  newest n xs = elim (Bool-cases (leb (length xs) n)) [
    | inl fits ↦ let e : length xs - n ≡ 0 = ground arith in rw (fits, e)
    | inr more ↦ rw more
  ]

  -- In a log with room for an entry, tail() returns the newest entries of the pruned log: all of
  -- them, or as many as the limit, cut to between 1 and the bound of the log, allows.
  pub tail-newest :
      (limit now : ℤ) (s : LogStore A)
      → 0 < s.max_entries
      → let (s', shown) = tail limit now s in
        (s' ≡ prune now s)
        × (shown ≡ drop (length s'.entries - safe_limit limit s.max_entries) s'.entries)
        × ((1 ≤ safe_limit limit s.max_entries) × (safe_limit limit s.max_entries ≤ s.max_entries))
  unfolding tail
  tail-newest limit now s room = (
    refl,
    newest (safe_limit limit s.max_entries) (prune now s).entries,
    safe_limit_bounds limit s.max_entries room,
  )
