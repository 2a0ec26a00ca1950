-- ===== src/Diagnosis/Schedule/Due.antt =====
-- The order in which the probes leave the heap (linien-gateway/app/diagnosis.py, DiagnosisProbe).
use linien_multi_device.Prelude.{
  ℤ, pos, ◌+ℤ◌, ◌-ℤ◌, ◌≤ℤ◌, ◌<ℤ◌, max_ℤ, true, false, none, some, String, List, [], ◌∷◌, ◌≡◌, refl,
  arith, if_intro, All, leb_ℤ, ◌||◌, -ℤ_parts, +ℤ_parts,
}
use linien_multi_device.Diagnosis.Schedule.{
  Entry, Probe, before, push, request, member, Ready, ready, wait, pop_entry, pop_ready,
}

-- The heap leaves in the order of the due times.
abbrev pub AllDue : ℤ → List Entry → Type 0
AllDue due heap = All (λ (e : Entry). due ≤ℤ e.due) heap

abbrev pub IsOrdered : List Entry → Type 0
IsOrdered [] = Unit
IsOrdered (e ∷ heap) = AllDue e.due heap × IsOrdered heap

AllDue-push :
    (due : ℤ) (e : Entry) (heap : List Entry)
    → due ≤ℤ e.due
    → AllDue due heap
    → AllDue due (push e heap)
unfolding push
AllDue-push due e [] h a = (h, tt)
AllDue-push due e (x ∷ heap) h (b, a) =
    if_intro (AllDue due) (before e x) _ _ (λ t. (h, (b, a))) (λ f. (b, AllDue-push due e heap h a))

AllDue-below : (low high : ℤ) (heap : List Entry) → low ≤ℤ high → AllDue high heap → AllDue low heap
AllDue-below low high [] h a = tt
AllDue-below low high (x ∷ heap) h (b, a) = (omega arith, AllDue-below low high heap h a)

before-due : (a b : Entry) → before a b ≡ true → a.due ≤ℤ b.due
unfolding before
before-due a b h = ground arith

not_before-due : (a b : Entry) → before a b ≡ false → b.due ≤ℤ a.due
unfolding before
not_before-due a b h = ground arith

push-IsOrdered : (e : Entry) (heap : List Entry) → IsOrdered heap → IsOrdered (push e heap)
unfolding push
push-IsOrdered e [] o = (tt, tt)
push-IsOrdered e (x ∷ heap) (a, o) =
    if_intro IsOrdered (before e x) _ _
      (λ t. ((before-due e x t, AllDue-below e.due x.due heap (before-due e x t) a), (a, o)))
      (λ f. (AllDue-push x.due e heap (not_before-due e x f) a, push-IsOrdered e heap o))

-- What a key that is ready was ahead of, and what a wait means.
abbrev pub IsDue : Probe → ℤ → Probe × Ready → Type 0
IsDue p now (q, ready key) =
    (e : Entry) × (p.heap ≡ e ∷ q.heap) × (e.key ≡ key) × (e.due ≤ℤ now) × AllDue e.due q.heap
IsDue p now (q, wait none) = (q ≡ p) × (p.heap ≡ [])
IsDue p now (q, wait (some timeout)) = (q ≡ p) × (pos 0 <ℤ timeout) × AllDue (now +ℤ timeout) p.heap

-- The wait of an entry that is not due yet ends when it is due.
module _ (due now : ℤ) (f : leb_ℤ due now ≡ false) where
  wait_pos : pos 0 <ℤ max_ℤ (pos 0) (due -ℤ now)
  wait_pos = ground (arith, -ℤ_parts due now)

  wait_ends : (high : ℤ) → due ≤ℤ high → (now +ℤ max_ℤ (pos 0) (due -ℤ now)) ≤ℤ high
  wait_ends high h = ground (arith, -ℤ_parts due now, +ℤ_parts now (max_ℤ (pos 0) (due -ℤ now)))

pop_entry-IsDue :
    (heap : List Entry) (now : ℤ) (p : Probe)
    → p.heap ≡ heap
    → IsOrdered heap
    → IsDue p now (pop_entry heap now p)
unfolding pop_entry
pop_entry-IsDue [] now p h o = (refl, h)
pop_entry-IsDue (e ∷ heap) now p h (a, o) =
    if_intro (IsDue p now) (leb_ℤ e.due now) _ _ (λ t. (e, h, refl, ground arith, a))
      (λ f. (
        refl,
        wait_pos e.due now f,
        simp h (
          wait_ends e.due now f e.due (omega arith),
          AllDue-below (now +ℤ max_ℤ (pos 0) (e.due -ℤ now)) e.due heap
              (wait_ends e.due now f e.due (omega arith)) a,
        ),
      ))

-- From a heap in order, _pop_ready hands out an entry that is due and that no other one precedes;
-- else nothing changes, and the wait that it returns is positive and ends no later than the first
-- entry is due. An empty heap is the only one that has no such time.
pub pop_ready-IsDue : (now : ℤ) (p : Probe) → IsOrdered p.heap → IsDue p now (pop_ready now p)
unfolding pop_ready
pop_ready-IsDue now p o = pop_entry-IsDue p.heap now p refl o

-- Every request keeps the heap in order.
pub request-IsOrdered :
    (key : String) (delay now : ℤ) (p : Probe)
    → IsOrdered p.heap
    → IsOrdered (request key delay now p).heap
unfolding request
request-IsOrdered key delay now p o =
    if_intro (λ (q : Probe). IsOrdered q.heap) (member key p.pending || member key p.inflight) _ _
      (λ t. o)
      (λ f.
        push-IsOrdered (record { due = now +ℤ max_ℤ (pos 0) delay; seq = p.next_seq; key = key })
          p.heap o)
