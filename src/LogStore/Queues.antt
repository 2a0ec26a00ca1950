-- ===== src/LogStore/Queues.antt =====
-- The bounded queues of the log's subscribers (linien-gateway/app/log_store.py).
use linien_multi_device.Prelude.{
  ℕ, suc, ◌+◌, ◌-◌, ◌≤◌, ◌<◌, List, [], ◌∷◌, ◌++◌, ◌≡◌, arith, length, length-append, drop,
  length-drop, Bool-cases, inl, inr, ltb,
}
use linien_multi_device.LogStore.{Entry, Queue, offer}

module _ {A : Type 0} where
  -- Each queue holds no more than its bound, and its bound is positive.
  abbrev pub IsBounded : Queue A → Type 0
  IsBounded q = (length q.items ≤ q.maxsize) × (0 < q.maxsize)

  offer-IsBounded : (e : Entry A) (q : Queue A) → IsBounded q → IsBounded (offer e q)
  unfolding offer
  offer-IsBounded e q b = ground (
    arith,
    length-append q.items (e ∷ []),
    length-append (drop 1 q.items) (e ∷ []),
    length-drop 1 q.items,
  )

  drop-full :
      (e : Entry A) (max : ℕ) (xs : List (Entry A))
      → 0 < max
      → length xs ≡ max
      → drop 1 xs ++ e ∷ [] ≡ drop (length xs + 1 - max) (xs ++ e ∷ [])
  drop-full e max [] room full = absurd (omega arith)
  drop-full e max (x ∷ xs) room full =
      let one : suc (length xs) + 1 - max ≡ 1 = omega arith in rw one

  -- A broadcast drops at most the oldest entry of a queue within its positive bound: what waits in
  -- it is the newest of what waited before and the entry, which comes last, and the queue stays
  -- within its bound.
  pub offer-newest :
      (e : Entry A) (q : Queue A)
      → IsBounded q
      → IsBounded (offer e q)
        × ((offer e q).items ≡ drop (length q.items + 1 - q.maxsize) (q.items ++ e ∷ []))
  unfolding offer
  offer-newest e q b = (
    offer-IsBounded e q b,
    elim (Bool-cases (ltb (length q.items) q.maxsize)) [
      | inl fits ↦
          (let none_dropped : length q.items + 1 - q.maxsize ≡ 0 = ground arith in
            simp (fits, none_dropped))
      | inr full ↦ simp full (drop-full e q.maxsize q.items b.1 (ground arith))
    ],
  )
