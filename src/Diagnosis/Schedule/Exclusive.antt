-- ===== src/Diagnosis/Schedule/Exclusive.antt =====
-- Which probes of a key there are at once (linien-gateway/app/diagnosis.py, DiagnosisProbe).
use linien_multi_device.Prelude.{
  ◌+◌, ◌≤◌, ℤ, pos, ◌+ℤ◌, max_ℤ, Bool, true, false, Option, none, some, String, List, [], ◌∷◌, ◌≡◌,
  refl, arith, str_eq, eq_iff, if◌then◌else◌, if_intro, ◌||◌, leb_ℤ,
}
use linien_multi_device.Diagnosis.Schedule.{
  Entry, Probe, init, member, add, discard, request, pop_entry, pop_ready, hand_over, run_once,
  Session, is_down, reprobe, remove_one, probe_and_reschedule,
}
use linien_multi_device.Diagnosis.Schedule.Counts.{
  times, times_due, member-times, times-add, times-discard, times-remove_one, times_due-push,
}

-- `_pending` holds the keys of the heap, `_inflight` those in the pool, and no key stands twice.
pub record IsExclusive (p : Probe) : Type 0 where
  pub heap_keys : (key : String) → times_due key p.heap ≡ times key p.pending
  pub running_keys : (key : String) → times key p.running ≡ times key p.inflight
  pub once : (key : String) → times key p.pending + times key p.inflight ≤ 1

request-IsExclusive :
    (key : String) (delay now : ℤ) (p : Probe)
    → IsExclusive p
    → IsExclusive (request key delay now p)
unfolding request
request-IsExclusive key delay now p x =
    if_intro IsExclusive (member key p.pending || member key p.inflight) _ _ (λ t. x)
      (λ f. record {
        heap_keys = λ j. ground (
          arith,
          x.heap_keys j,
          member-times key p.pending,
          times-add j key p.pending,
          times_due-push j
              (record { due = now +ℤ max_ℤ (pos 0) delay; seq = p.next_seq; key = key }) p.heap,
        );
        running_keys = x.running_keys;
        once = λ j. ground (
          arith,
          x.once j,
          member-times key p.pending,
          member-times key p.inflight,
          times-add j key p.pending,
          eq_iff key j,
        );
      })

-- The key at the head of the heap is in no other place.
record IsNext (key : String) (heap : List Entry) (p : Probe) : Type 0 where
  rest : (j : String) → times_due j p.heap ≡ (if str_eq key j then 1 else 0) + times_due j heap
  pending_once : times key p.pending ≡ 1
  not_inflight : times key p.inflight ≡ 0

popped-IsNext :
    (e : Entry) (heap : List Entry) (p : Probe)
    → p.heap ≡ e ∷ heap
    → IsExclusive p
    → IsNext e.key heap p
popped-IsNext e heap p h x =
    let shift : (j : String)
        → times_due j p.heap ≡ (if str_eq e.key j then 1 else 0) + times_due j heap =
      λ j. simp h in
    record {
      rest = shift;
      pending_once =
          ground (arith, shift e.key, eq_iff e.key e.key, x.heap_keys e.key, x.once e.key);
      not_inflight =
          ground (arith, shift e.key, eq_iff e.key e.key, x.heap_keys e.key, x.once e.key);
    }

module _ (key : String) (heap : List Entry) (p : Probe) (x : IsExclusive p)
    (d : IsNext key heap p) where
  submitted-IsExclusive : IsExclusive (record p {
    heap = heap;
    pending = discard key p.pending;
    inflight = add key p.inflight;
    running = key ∷ p.running;
  })
  submitted-IsExclusive = record {
    heap_keys = λ j. ground (
      arith,
      eq_iff key j,
      d.rest j,
      d.pending_once,
      x.heap_keys j,
      times-discard j key p.pending,
    );
    running_keys =
        λ j. ground (arith, d.not_inflight, x.running_keys j, times-add j key p.inflight);
    once = λ j. ground (
      arith,
      eq_iff key j,
      d.not_inflight,
      x.once j,
      times-discard j key p.pending,
      times-add j key p.inflight,
    );
  }

  dropped-IsExclusive : IsExclusive (record p {
    heap = heap;
    pending = discard key p.pending;
    inflight = discard key (add key p.inflight);
    stopped = true;
  })
  dropped-IsExclusive = record {
    heap_keys = λ j. ground (
      arith,
      eq_iff key j,
      d.rest j,
      d.pending_once,
      x.heap_keys j,
      times-discard j key p.pending,
    );
    running_keys = λ j. ground (
      arith,
      eq_iff key j,
      d.not_inflight,
      x.running_keys j,
      times-add j key p.inflight,
      times-discard j key (add key p.inflight),
    );
    once = λ j. ground (
      arith,
      eq_iff key j,
      d.not_inflight,
      x.once j,
      times-discard j key p.pending,
      times-add j key p.inflight,
      times-discard j key (add key p.inflight),
    );
  }

handed-IsExclusive :
    (submitted : Bool) (heap : List Entry) (now : ℤ) (p : Probe)
    → p.heap ≡ heap
    → IsExclusive p
    → IsExclusive (hand_over submitted (pop_entry heap now p))
unfolding hand_over pop_entry
handed-IsExclusive submitted [] now p h x = x
handed-IsExclusive true (e ∷ heap) now p h x =
    if_intro (λ q. IsExclusive (hand_over true q)) (leb_ℤ e.due now) _ _
      (λ t. submitted-IsExclusive e.key heap p x (popped-IsNext e heap p h x)) (λ f. x)
handed-IsExclusive false (e ∷ heap) now p h x =
    if_intro (λ q. IsExclusive (hand_over false q)) (leb_ℤ e.due now) _ _
      (λ t. dropped-IsExclusive e.key heap p x (popped-IsNext e heap p h x)) (λ f. x)

run_once-IsExclusive :
    (submitted : Bool) (now : ℤ) (p : Probe)
    → IsExclusive p
    → IsExclusive (run_once submitted now p)
unfolding run_once pop_ready
run_once-IsExclusive submitted now p x =
    if_intro IsExclusive p.stopped _ _ (λ t. x)
      (λ f. handed-IsExclusive submitted p.heap now p refl x)

reprobe-IsExclusive :
    (key : String) (session : Option Session) (now : ℤ) (p : Probe)
    → IsExclusive p
    → IsExclusive (reprobe key session now p)
unfolding reprobe
reprobe-IsExclusive key none now p x = x
reprobe-IsExclusive key (some s) now p x =
    if_intro IsExclusive (is_down s) _ _ (λ t. request-IsExclusive key p.reprobe_interval_s now p x)
      (λ f. x)

probe_and_reschedule-IsExclusive :
    (key : String) (session : Option Session) (now : ℤ) (p : Probe)
    → IsExclusive p
    → IsExclusive (probe_and_reschedule key session now p)
unfolding probe_and_reschedule
probe_and_reschedule-IsExclusive key session now p x =
    reprobe-IsExclusive key session now
      (record p { running = remove_one key p.running; inflight = discard key p.inflight })
      (record {
        heap_keys = x.heap_keys;
        running_keys = λ j. ground (
          arith,
          eq_iff key j,
          x.once j,
          x.running_keys j,
          times-remove_one j key p.running,
          times-discard j key p.inflight,
        );
        once = λ j. ground (arith, x.once j, times-discard j key p.inflight);
      })

-- What the threads of the gateway do to the scheduler.
pub data Event : Type 0 where
  requested : String → ℤ → ℤ → Event
  dispatched : Bool → ℤ → Event
  ended : String → Option Session → ℤ → Event

pub step : Event → Probe → Probe
step (requested key delay now) p = request key delay now p
step (dispatched submitted now) p = run_once submitted now p
step (ended key session now) p = probe_and_reschedule key session now p

pub run : List Event → Probe → Probe
run [] p = p
run (e ∷ events) p = run events (step e p)

step-IsExclusive : (e : Event) (p : Probe) → IsExclusive p → IsExclusive (step e p)
unfolding step
step-IsExclusive (requested key delay now) p x = request-IsExclusive key delay now p x
step-IsExclusive (dispatched submitted now) p x = run_once-IsExclusive submitted now p x
step-IsExclusive (ended key session now) p x = probe_and_reschedule-IsExclusive key session now p x

run-steps : (events : List Event) (p : Probe) → IsExclusive p → IsExclusive (run events p)
unfolding run
run-steps [] p x = x
run-steps (e ∷ events) p x = run-steps events (step e p) (step-IsExclusive e p x)

init-IsExclusive : (interval : ℤ) → IsExclusive (init interval)
init-IsExclusive interval = record {
  heap_keys = λ j. refl;
  running_keys = λ j. refl;
  once = λ j. omega arith;
}

-- From the start on, whatever is requested, dispatched and ended in whatever order, a key is
-- scheduled or being probed at most once in all: no device is ever probed twice concurrently, and none
-- is scheduled while its probe runs.
pub run-IsExclusive :
    (interval : ℤ) (events : List Event) (key : String)
    → times_due key (run events (init interval)).heap
        + times key (run events (init interval)).running
      ≤ 1
run-IsExclusive interval events key =
    let x = run-steps events (init interval) (init-IsExclusive interval) in
    ground (arith, x.once key, x.heap_keys key, x.running_keys key)
