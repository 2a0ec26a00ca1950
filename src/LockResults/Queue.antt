-- ===== src/LockResults/Queue.antt =====
-- linien-gateway/app/manual_lock_postgres.py: the order in which rows leave the service.
use linien_multi_device.Prelude.{
  ◌≤◌, ◌≡◌, refl, sym, ap, ◌∙◌, arith, Bool, not, Option, none, some, List, [], ◌∷◌, ◌++◌, length,
  length-append, append_assoc, append_nil, if_intro, if◌then◌else◌,
}
use linien_multi_device.LockResults.{
  Service, Config, Event, Answer, Write, start, stop, ensure_table, mark_test, test_connection,
  take_config, update_config, mark_drop, accept, enqueue_lock_result, is_full, take_row, commit_row,
  mark_write, finish_row, finish_write, measure, count_enqueued,
}
use linien_multi_device.LockResults.Calls.{
  Call, start_call, stop_call, test_call, update_call, enqueue_call, count_call, take_call,
  finish_call, step, run, row_in, added, ended, all_added, all_ended,
}

module _ {A : Type 0} where
  -- The rows that the service holds: the one in the worker's hand, and the queue behind it.
  abbrev pub held : Service A → List A
  held s = row_in s.writing ++ s.queue

  abbrev Same : Service A → Service A → Type 0
  Same s s' = (s'.queue ≡ s.queue) × ((s'.writing ≡ s.writing) × (s'.maxsize ≡ s.maxsize))

  test_connection-Same :
      (target : Config) (answer : Answer) (s : Service A)
      → let (s', _) = test_connection target answer s in Same s s'
  unfolding test_connection ensure_table mark_test
  test_connection-Same target none s = (refl, (refl, refl))
  test_connection-Same target (some error) s = (refl, (refl, refl))

  update_config-Same : (c : Config) (s : Service A) → let (s', _) = update_config c s in Same s s'
  unfolding update_config take_config
  update_config-Same c s = ground arith

  finish_row-queue :
      (answer : Answer) (w : Write A) (s : Service A)
      → let (s', _) = finish_row answer w s in
        (s'.queue ≡ s.queue) × ((s'.writing ≡ none) × (s'.maxsize ≡ s.maxsize))
  unfolding finish_row commit_row mark_write measure
  finish_row-queue none w s = ground arith
  finish_row-queue (some error) w s = ground arith

  -- One call: what was held and what is added is what leaves and what is held then.
  abbrev Moves : Call A → Service A → Type 0
  Moves c s = held s ++ added c s ≡ ended c s ++ held (step c s)

  still : (s s' : Service A) → Same s s' → held s ++ [] ≡ held s'
  still s s' (q, (w, _)) =
      append_nil (held s)
      ∙ ap (λ (o : Option (Write A)). row_in o ++ s.queue) (sym w)
      ∙ ap (λ (l : List A). row_in s'.writing ++ l) (sym q)

  enqueue-Moves : (enabled : Bool) (row : A) (s : Service A) → Moves (enqueue_call enabled row) s
  unfolding added ended step enqueue_lock_result accept mark_drop
  enqueue-Moves enabled row s =
      let P : Service A × Bool × List Event → Type 0 =
        λ r. (let (s', taken, _) = r in held s ++ (if taken then row ∷ [] else []) ≡ held s') in
      if_intro P (not enabled) _ _ (λ _. append_nil (held s))
        (λ _.
          if_intro P (is_full s) _ _ (λ _. append_nil (held s))
            (λ _. append_assoc (row_in s.writing) s.queue (row ∷ [])))

  take-Moves : (s : Service A) → Moves take_call s
  unfolding added ended step take_row
  take-Moves s = ground (arith, append_nil (held s))

  finish-Moves : (answer : Answer) (s : Service A) → Moves (finish_call answer) s
  unfolding added ended step finish_write
  finish-Moves answer s = ground (arith, append_nil (held s), finish_row-queue answer)

  step-Moves : (c : Call A) (s : Service A) → Moves c s
  unfolding added ended step start stop measure count_enqueued
  step-Moves start_call s = still s (start s) (ground arith)
  step-Moves stop_call s = append_nil (held s)
  step-Moves (test_call target answer) s =
      let (s', _) = test_connection target answer s in
      still s s' (test_connection-Same target answer s)
  step-Moves (update_call config) s =
      let (s', _) = update_config config s in still s s' (update_config-Same config s)
  step-Moves (enqueue_call enabled row) s = enqueue-Moves enabled row s
  step-Moves count_call s = append_nil (held s)
  step-Moves take_call s = take-Moves s
  step-Moves (finish_call answer) s = finish-Moves answer s

  -- Over any run of calls, the rows held before it and then those accepted in it are, in this order, the
  -- rows whose turn ended in it and then those held after it: none is lost, doubled or overtaken.
  pub run-fifo :
      (cs : List (Call A)) (s : Service A)
      → held s ++ all_added cs s ≡ all_ended cs s ++ held (run cs s)
  unfolding all_added all_ended run
  run-fifo [] s = append_nil (held s)
  run-fifo (c ∷ cs) s =
      sym (append_assoc (held s) (added c s) (all_added cs (step c s)))
      ∙ ap (λ (l : List A). l ++ all_added cs (step c s)) (step-Moves c s)
      ∙ append_assoc (ended c s) (held (step c s)) (all_added cs (step c s))
      ∙ ap (λ (l : List A). ended c s ++ l) (run-fifo cs (step c s))
      ∙ sym (append_assoc (ended c s) (all_ended cs (step c s)) (held (run cs (step c s))))

  step-bound :
      (c : Call A) (s : Service A)
      → 1 ≤ s.maxsize
      → length s.queue ≤ s.maxsize
      → ((step c s).maxsize ≡ s.maxsize) × (length (step c s).queue ≤ s.maxsize)
  unfolding step start stop measure count_enqueued enqueue_lock_result accept mark_drop is_full
      take_row finish_write
  step-bound start_call s h k = ground arith
  step-bound stop_call s h k = ground arith
  step-bound (test_call target answer) s h k = ground (arith, test_connection-Same target answer s)
  step-bound (update_call config) s h k = ground (arith, update_config-Same config s)
  step-bound count_call s h k = ground arith
  step-bound (enqueue_call enabled row) s h k = ground (arith, length-append s.queue (row ∷ []))
  step-bound take_call s h k = ground arith
  step-bound (finish_call answer) s h k = ground (arith, finish_row-queue answer)

  -- A queue with a bound is never longer than it, after any run of calls.
  pub run-bound :
      (cs : List (Call A)) (s : Service A)
      → 1 ≤ s.maxsize
      → length s.queue ≤ s.maxsize
      → length (run cs s).queue ≤ s.maxsize
  unfolding run
  run-bound [] s h k = k
  run-bound (c ∷ cs) s h k =
      let (same, kept) = step-bound c s h k in ground (arith, same, kept, run-bound cs (step c s))
