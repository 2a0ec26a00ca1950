-- ===== src/Diagnosis/Schedule.antt =====
-- The scheduler of the diagnosis probes, DiagnosisProbe (linien-gateway/app/diagnosis.py). The heap is the
-- list of its entries in the order in which they leave it, a Python set of keys a list without
-- repetitions, and `running` the calls of _probe_and_reschedule that the pool has and that have not
-- ended. What the clock, the registry and the network say is an argument.

pub mod Counts
pub mod Exclusive
pub mod Due
use linien_multi_device.Prelude.{
  ℕ, suc, ◌+◌, ℤ, pos, ◌+ℤ◌, ◌-ℤ◌, ltb_ℤ, leb_ℤ, max_ℤ, Bool, true, false, not, ◌&&◌, ◌||◌, Option,
  none, some, String, List, [], ◌∷◌, str_eq, if◌then◌else◌, any, filter, ltb,
}

-- An entry of the heap; entries compare by `due`, then by `seq`, which no two share.
pub record Entry : Type 0 where
  pub due : ℤ
  pub seq : ℕ
  pub key : String

pub record Probe : Type 0 where
  pub heap : List Entry
  pub pending : List String
  pub inflight : List String
  pub next_seq : ℕ
  pub reprobe_interval_s : ℤ
  pub running : List String
  pub stopped : Bool

abbrev pub init : ℤ → Probe
init reprobe_interval_s = record {
  heap = [];
  pending = [];
  inflight = [];
  next_seq = 0;
  reprobe_interval_s = reprobe_interval_s;
  running = [];
  stopped = false;
}

-- `key in keys`, `keys.add(key)` and `keys.discard(key)` of a set.
pub member : String → List String → Bool
member key [] = false
member key (k ∷ keys) = str_eq k key || member key keys

pub add : String → List String → List String
unfolding member
add key keys = if member key keys then keys else key ∷ keys

pub discard : String → List String → List String
discard key [] = []
discard key (k ∷ keys) = let rest = discard key keys in if str_eq k key then rest else k ∷ rest

-- The order of the tuples (due, seq, key).
pub before : Entry → Entry → Bool
before a b = ltb_ℤ a.due b.due || (not (ltb_ℤ b.due a.due) && ltb a.seq b.seq)

-- heapq.heappush
pub push : Entry → List Entry → List Entry
unfolding before
push e [] = e ∷ []
push e (x ∷ heap) = let rest = push e heap in if before e x then e ∷ x ∷ heap else x ∷ rest

pub request : String → ℤ → ℤ → Probe → Probe
unfolding member push add
request key delay now p = if member key p.pending || member key p.inflight then p else record p {
  pending = add key p.pending;
  heap = push (record { due = now +ℤ max_ℤ (pos 0) delay; seq = p.next_seq; key = key }) p.heap;
  next_seq = suc p.next_seq;
}

-- What _pop_ready returns: a key to probe, or how long to wait, `none` for an empty heap.
pub data Ready : Type 0 where
  ready : String → Ready
  wait : Option ℤ → Ready

pop_entry : List Entry → ℤ → Probe → Probe × Ready
unfolding add discard
pop_entry [] now p = (p, wait none)
pop_entry (e ∷ heap) now p =
    if leb_ℤ e.due now
    then (
      record p { heap = heap; pending = discard e.key p.pending; inflight = add e.key p.inflight },
      ready e.key,
    )
    else (p, wait (some (max_ℤ (pos 0) (e.due -ℤ now))))

pub pop_ready : ℤ → Probe → Probe × Ready
unfolding pop_entry
pop_ready now p = pop_entry p.heap now p

-- The rest of an iteration of _run. `submitted` says whether there is an executor that takes the
-- call; where there is none, the loop ends.
hand_over : Bool → Probe × Ready → Probe
hand_over submitted (p, wait timeout) = p
hand_over true (p, ready key) = record p { running = key ∷ p.running }
hand_over false (p, ready key) = record p { inflight = discard key p.inflight; stopped = true }

pub run_once : Bool → ℤ → Probe → Probe
unfolding pop_ready hand_over
run_once submitted now p = if p.stopped then p else hand_over submitted (pop_ready now p)

-- The state of a device's session that the probe reads.
pub record Session : Type 0 where
  pub connected : Bool
  pub connecting : Bool
  pub wants_diagnosis : Bool
  pub recovery_active : Bool
  pub host : String
  pub since : Option ℤ
  pub last_healthy_boot_id : Option String

pub is_down : Session → Bool
is_down s = s.wants_diagnosis && not (s.connected || s.connecting)

reprobe : String → Option Session → ℤ → Probe → Probe
unfolding is_down request
reprobe key none now p = p
reprobe key (some s) now p = if is_down s then request key p.reprobe_interval_s now p else p

-- One call that ends leaves the pool.
pub remove_one : String → List String → List String
remove_one key [] = []
remove_one key (k ∷ keys) =
    let rest = remove_one key keys in if str_eq k key then keys else k ∷ rest

-- The `finally` of _probe_and_reschedule, with the session that the registry gives.
pub probe_and_reschedule : String → Option Session → ℤ → Probe → Probe
unfolding reprobe remove_one discard
probe_and_reschedule key session now p =
    reprobe key session now
      (record p { running = remove_one key p.running; inflight = discard key p.inflight })
