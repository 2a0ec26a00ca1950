-- ===== src/LogStore.antt =====
-- linien-gateway/app/log_store.py: the class LogStore. A subscriber's asyncio queue is a bounded list.
-- `emit` returns the queues that its broadcast is scheduled for; `broadcast` is the coroutine.
-- Other data of an entry than its time and level is of a type that the caller chooses.
pub mod Pruning
pub mod Queues
use linien_multi_device.Prelude.{
  ℕ, zero, suc, ◌+◌, ◌-◌, ℤ, pos, ◌-ℤ◌, ltb_ℤ, leb_ℤ, max_ℤ, min_ℤ, Bool, true, false, Option, none,
  some, List, [], ◌∷◌, ◌++◌, length, drop, ltb, leb, if◌then◌else◌, ◌==◌, filter, not, map,
}
use linien_multi_device.Prelude.Int.{to_ℕ}

pub data Level : Type 0 where
  debug info warning error critical : Level

pub record Entry (A : Type 0) : Type 0 where
  pub ts : ℤ
  pub level : Level
  pub content : A

-- A subscriber: which queue object it is, its bound, and what waits in it.
pub record Queue (A : Type 0) : Type 0 where
  pub id : ℕ
  pub maxsize : ℕ
  pub items : List (Entry A)

pub record LogStore (A : Type 0) : Type 0 where
  pub max_entries : ℕ
  pub max_age_s : ℤ
  pub entries : List (Entry A)
  pub subscribers : List (Queue A)
  pub loop_set : Bool

pub normalize_level : ℤ → Level
normalize_level level =
    if leb_ℤ (pos 50) level
    then critical
    else if leb_ℤ (pos 40) level
    then error
    else if leb_ℤ (pos 30) level
    then warning
    else if leb_ℤ (pos 20) level
    then info
    else debug

-- `max(1, min(int(limit), max_entries))`
pub safe_limit : ℤ → ℕ → ℕ
safe_limit limit max = to_ℕ (max_ℤ (pos 1) (min_ℤ limit (pos max)))

module _ {A : Type 0} where
  -- `max(1, int(max_entries))`, `max(60.0, float(max_age_s))`
  pub init : ℤ → ℤ → LogStore A
  init max_entries max_age_s = record {
    max_entries = to_ℕ (max_ℤ (pos 1) max_entries);
    max_age_s = max_ℤ (pos 60000000) max_age_s;
    entries = [];
    subscribers = [];
    loop_set = false;
  }

  -- The first loop of _prune_locked: `while len(entries) > max: entries.popleft()`.
  unfoldable pub drop_excess : ℕ → List (Entry A) → List (Entry A)
  drop_excess max [] = []
  drop_excess max (x ∷ xs) =
      let rest = drop_excess max xs in if ltb max (length (x ∷ xs)) then rest else x ∷ xs

  -- The second: `while entries and entries[0]["ts"] < cutoff: entries.popleft()`.
  unfoldable pub drop_old : ℤ → List (Entry A) → List (Entry A)
  drop_old cutoff [] = []
  drop_old cutoff (x ∷ xs) =
      let rest = drop_old cutoff xs in if ltb_ℤ x.ts cutoff then rest else x ∷ xs

  pub prune : ℤ → LogStore A → LogStore A
  prune now s = record s {
    entries = drop_old (now -ℤ s.max_age_s) (drop_excess s.max_entries s.entries);
  }

  pub emit : ℤ → A → ℤ → LogStore A → LogStore A × Entry A × List (Queue A)
  unfolding prune normalize_level
  emit level content ts s =
      let entry : Entry A = record { ts = ts; level = normalize_level level; content = content } in
      let s' = prune ts (record s { entries = s.entries ++ entry ∷ [] }) in
      (s', entry, if s'.loop_set then s'.subscribers else [])

  -- The list that tail() returns, and the store that its pruning leaves.
  pub tail : ℤ → ℤ → LogStore A → LogStore A × List (Entry A)
  unfolding prune safe_limit
  tail limit now s =
      let s' = prune now s in
      let n = safe_limit limit s.max_entries in
      let count = length s'.entries in
      (s', if leb count n then s'.entries else drop (count - n) s'.entries)

  pub clear : LogStore A → LogStore A × ℕ
  clear s = (record s { entries = [] }, length s.entries)

  pub subscribe : ℕ → ℤ → LogStore A → LogStore A
  subscribe id maxsize s = record s {
    subscribers =
        record { id = id; maxsize = to_ℕ (max_ℤ (pos 10) maxsize); items = [] } ∷ s.subscribers;
  }

  pub unsubscribe : ℕ → LogStore A → LogStore A
  unsubscribe id s = record s {
    subscribers = filter (λ (q : Queue A). not (q.id == id)) s.subscribers;
  }

  -- One round of _broadcast: `put_nowait`, and on a full queue `get_nowait` before it once more.
  pub offer : Entry A → Queue A → Queue A
  offer e q =
      if ltb (length q.items) q.maxsize
      then record q { items = q.items ++ e ∷ [] }
      else record q { items = drop 1 q.items ++ e ∷ [] }

  pub broadcast : Entry A → List (Queue A) → List (Queue A)
  unfolding offer
  broadcast e = map (offer e)
