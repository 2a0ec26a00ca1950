-- ===== src/LockResults/Accounts.antt =====
-- linien-gateway/app/manual_lock_postgres.py: the counters of the status.
use linien_multi_device.Prelude.{
  ℕ, ◌+◌, ◌≡◌, ap, arith, none, some, List, [], ◌∷◌, length, length-append,
}
use linien_multi_device.LockResults.{
  Service, Status, Config, Answer, Write, start, stop, ensure_table, mark_test, test_connection,
  take_config, update_config, mark_drop, accept, enqueue_lock_result, take_row, commit_row,
  mark_write, finish_row, finish_write, measure, init, count_enqueued,
}
use linien_multi_device.LockResults.Calls.{
  Call, start_call, stop_call, test_call, update_call, enqueue_call, count_call, take_call,
  finish_call, step, run, ended, all_added, all_ended,
}
use linien_multi_device.LockResults.Queue.{held, run-fifo}

module _ {A : Type 0} where
  -- The rows whose turn has ended: write_ok_count has those written and those that a disabled service
  -- skipped, write_error_count those that failed.
  abbrev pub handled : Service A → ℕ
  handled s = s.status.write_ok_count + s.status.write_error_count

  abbrev Counts : Service A → Service A → ℕ → ℕ → Type 0
  Counts s s' n m =
      (s'.status.enqueued_count ≡ s.status.enqueued_count + n) × (handled s' ≡ handled s + m)

  test_connection-Counts :
      (target : Config) (answer : Answer) (s : Service A)
      → let (s', _) = test_connection target answer s in Counts s s' 0 0
  unfolding test_connection ensure_table mark_test
  test_connection-Counts target none s = ground arith
  test_connection-Counts target (some error) s = ground arith

  update_config-Counts :
      (c : Config) (s : Service A) → let (s', _) = update_config c s in Counts s s' 0 0
  unfolding update_config take_config
  update_config-Counts c s = ground arith

  commit_row-counts :
      (answer : Answer) (w : Write A) (s : Service A)
      → let (s', _) = commit_row answer w s in s'.status ≡ s.status
  unfolding commit_row
  commit_row-counts none w s = ground arith
  commit_row-counts (some error) w s = ground arith

  mark_write-Counts :
      (result : Answer) (s : Service A) → let (s', _) = mark_write result s in Counts s s' 0 1
  unfolding mark_write
  mark_write-Counts none s = ground arith
  mark_write-Counts (some error) s = ground arith

  finish_row-Counts :
      (answer : Answer) (w : Write A) (s : Service A)
      → let (s', _) = finish_row answer w s in Counts s s' 0 1
  unfolding finish_row measure
  finish_row-Counts answer w s =
      let (s', result) = commit_row answer w s in
      let same = commit_row-counts answer w s in
      ground (
        arith,
        mark_write-Counts result s',
        ap (λ (t : Status). t.enqueued_count) same,
        ap (λ (t : Status). t.write_ok_count) same,
        ap (λ (t : Status). t.write_error_count) same,
      )

  -- The rows that a call, and that a run, counts as enqueued.
  abbrev pub counts : Call A → ℕ
  counts count_call = 1
  counts _ = 0

  unfoldable pub all_counts : List (Call A) → ℕ
  all_counts [] = 0
  all_counts (c ∷ cs) = counts c + all_counts cs

  step-Counts : (c : Call A) (s : Service A) → Counts s (step c s) (counts c) (length (ended c s))
  unfolding step start stop measure count_enqueued ended enqueue_lock_result accept mark_drop
      take_row finish_write
  step-Counts start_call s = ground arith
  step-Counts stop_call s = ground arith
  step-Counts (test_call target answer) s = ground (arith, test_connection-Counts target answer s)
  step-Counts (update_call config) s = ground (arith, update_config-Counts config s)
  step-Counts count_call s = ground arith
  step-Counts (enqueue_call enabled row) s = ground arith
  step-Counts take_call s = ground arith
  step-Counts (finish_call answer) s = ground (arith, finish_row-Counts answer)

  run-Counts :
      (cs : List (Call A)) (s : Service A)
      → Counts s (run cs s) (all_counts cs) (length (all_ended cs s))
  unfolding run all_counts all_ended
  run-Counts [] s = ground arith
  run-Counts (c ∷ cs) s = ground (
    arith,
    step-Counts c s,
    run-Counts cs (step c s),
    length-append (ended c s) (all_ended cs (step c s)),
  )

  -- After any run of calls on a new service in which the puts have been counted, the count of enqueued
  -- rows is that of the rows that the worker is done with, those that it holds and those in the queue;
  -- a row that a disabled service skips is in write_ok_count too.
  pub run-accounts :
      (cs : List (Call A)) (config : Config) (maxsize : ℕ)
      → all_counts cs ≡ length (all_added cs (init config maxsize))
      → let s = run cs (init config maxsize) in
        s.status.enqueued_count ≡ handled s + length (held s)
  unfolding init
  run-accounts cs config maxsize h =
      let s : Service A = init config maxsize in
      ground (
        arith,
        h,
        run-Counts cs s,
        ap (λ (l : List A). length l) (run-fifo cs s),
        length-append (all_ended cs s) (held (run cs s)),
      )
