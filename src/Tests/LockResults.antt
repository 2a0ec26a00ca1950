-- ===== src/Tests/LockResults.antt =====
-- Concrete runs of linien-gateway/app/manual_lock_postgres.py.
use linien_multi_device.Prelude.{ℕ, ◌≡◌, refl, true, none, some, List, [], ◌∷◌, ◌++◌}
use linien_multi_device.LockResults.{
  Config, defaults, init, schema, insert, update_config, test_connection, enqueue_lock_result,
  take_row, finish_write,
}
use linien_multi_device.LockResults.Calls.{
  Call, test_call, update_call, enqueue_call, count_call, take_call, finish_call, step, run,
  all_added, all_ended,
}
use linien_multi_device.LockResults.Queue.{held, run-fifo}
use linien_multi_device.LockResults.Schema.{IsMigrated, run-IsMigrated}

abbrev first : Config
first = record defaults { enabled = true }

abbrev second : Config
second = record defaults { enabled = true; host = "other" }

-- Two rows, one of them written after the configuration has changed.
abbrev calls : List (Call ℕ)
calls =
    enqueue_call true 7
    ∷ count_call
    ∷ enqueue_call true 8
    ∷ take_call
    ∷ count_call
    ∷ finish_call none
    ∷ update_call second
    ∷ test_call second (some "down")
    ∷ take_call
    ∷ finish_call none
    ∷ []

run-fifo_example :
    held (init first 2) ++ all_added calls (init first 2)
    ≡ all_ended calls (init first 2) ++ held (run calls (init first 2))
run-fifo_example = run-fifo calls (init first 2)

abbrev short : List (Call ℕ)
short =
    enqueue_call true 7
    ∷ take_call
    ∷ finish_call none
    ∷ update_call second
    ∷ test_call second (some "down")
    ∷ []

run-IsMigrated_example : IsMigrated (run short (init first 2)).database
unfolding step init enqueue_lock_result take_row finish_write update_config
run-IsMigrated_example = run-IsMigrated short first 2 (tt, (tt, (tt, (refl, (refl, tt)))))

-- The configuration changes while a row is being written, and the new database does not answer its
-- test: the next row is inserted there without the schema.
abbrev racing : List (Call ℕ)
racing =
    enqueue_call true 7
    ∷ enqueue_call true 8
    ∷ take_call
    ∷ update_call second
    ∷ test_call second (some "down")
    ∷ finish_call none
    ∷ take_call
    ∷ finish_call none
    ∷ []

racing_skips_schema :
    (run racing (init first 2)).database ≡ insert second 8 ∷ insert first 7 ∷ schema first ∷ []
unfolding run step init enqueue_lock_result update_config test_connection take_row finish_write
racing_skips_schema = refl

-- The configuration changes while the old one is being tested: the new database gets a row without the
-- schema.
abbrev late_test : List (Call ℕ)
late_test =
    update_call second
    ∷ test_call first none
    ∷ enqueue_call true 7
    ∷ take_call
    ∷ finish_call none
    ∷ []

late_test_skips_schema :
    (run late_test (init first 2)).database ≡ insert second 7 ∷ schema first ∷ []
unfolding run step init enqueue_lock_result update_config test_connection take_row finish_write
late_test_skips_schema = refl
