-- ===== src/LockResults/Calls.antt =====
-- The operations of linien-gateway/app/manual_lock_postgres.py as a data type, and their runs in any
-- order: requests come between a row's take and the end of its transaction, between a connection test's
-- begin and its end, and between a row's put and its count.
use linien_multi_device.Prelude.{Bool, Option, none, some, List, [], ◌∷◌, ◌++◌, if◌then◌else◌}
use linien_multi_device.LockResults.{
  Service, Config, Answer, Write, start, stop, test_connection, update_config, enqueue_lock_result,
  take_row, finish_write, count_enqueued,
}

pub data Call (A : Type 0) : Type 0 where
  start_call : Call A
  stop_call : Call A
  test_call : Config → Answer → Call A
  update_call : Config → Call A
  enqueue_call : Bool → A → Call A
  count_call : Call A
  take_call : Call A
  finish_call : Answer → Call A

module _ {A : Type 0} where
  unfoldable pub step : Call A → Service A → Service A
  step start_call s = start s
  step stop_call s = stop s
  step (test_call target answer) s = let (s', _) = test_connection target answer s in s'
  step (update_call config) s = let (s', _) = update_config config s in s'
  step (enqueue_call enabled row) s = let (s', _, _) = enqueue_lock_result enabled row s in s'
  step count_call s = count_enqueued s
  step take_call s = take_row s
  step (finish_call answer) s = let (s', _) = finish_write answer s in s'

  unfoldable pub run : List (Call A) → Service A → Service A
  run [] s = s
  run (c ∷ cs) s = run cs (step c s)

  abbrev pub row_in : Option (Write A) → List A
  row_in none = []
  row_in (some w) = w.row ∷ []

  -- The row that a call adds to the queue, and the row whose turn it ends.
  unfoldable pub added : Call A → Service A → List A
  added (enqueue_call enabled row) s =
      let (_, taken, _) = enqueue_lock_result enabled row s in if taken then row ∷ [] else []
  added _ s = []

  unfoldable pub ended : Call A → Service A → List A
  ended (finish_call _) s = row_in s.writing
  ended _ s = []

  unfoldable pub all_added : List (Call A) → Service A → List A
  all_added [] s = []
  all_added (c ∷ cs) s = added c s ++ all_added cs (step c s)

  unfoldable pub all_ended : List (Call A) → Service A → List A
  all_ended [] s = []
  all_ended (c ∷ cs) s = ended c s ++ all_ended cs (step c s)
