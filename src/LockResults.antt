-- ===== src/LockResults.antt =====
-- linien-gateway/app/manual_lock_postgres.py: the class LockResultPostgresService with its queue, its
-- worker's rounds, its counters and the schema flag. The database is the parameter of what a
-- connection comes to; a row is content of a type that the caller chooses.
pub mod Calls
pub mod Accounts
pub mod Queue
pub mod Schema
use linien_multi_device.Prelude.{
  ℕ, ◌+◌, ℤ, pos, max_ℤ, Bool, true, false, not, ◌&&◌, Option, none, some, String, List, [], ◌∷◌,
  ◌++◌, length, ltb, str_eq, ◌==◌, if◌then◌else◌,
}

pub record Config : Type 0 where
  pub enabled : Bool
  pub host : String
  pub port : ℤ
  pub database : String
  pub user : String
  pub password : String
  pub sslmode : String
  pub connect_timeout_s : ℤ

abbrev pub defaults : Config
defaults = record {
  enabled = false;
  host = "127.0.0.1";
  port = pos 5432;
  database = "experiment_db";
  user = "admin";
  password = "adminpassword";
  sslmode = "prefer";
  connect_timeout_s = pos 3000000;
}

-- The times of the last test and write are left out of the status.
pub record Status : Type 0 where
  pub active : Bool
  pub last_test_ok : Option Bool
  pub last_write_ok : Option Bool
  pub last_error : Option String
  pub enqueued_count : ℕ
  pub write_ok_count : ℕ
  pub write_error_count : ℕ
  pub dropped_count : ℕ
  pub queue_size : ℕ

abbrev pub new_status : Status
new_status = record {
  active = false;
  last_test_ok = none;
  last_write_ok = none;
  last_error = none;
  enqueued_count = 0;
  write_ok_count = 0;
  write_error_count = 0;
  dropped_count = 0;
  queue_size = 0;
}

-- A committed statement, with the configuration of its connection: those of _apply_schema, or a row.
pub data Statement (A : Type 0) : Type 0 where
  schema : Config → Statement A
  insert : Config → A → Statement A

-- A row that the worker has taken, with the configuration that its connection uses; none where the
-- service was disabled when it looked.
pub record Write (A : Type 0) : Type 0 where
  pub row : A
  pub target : Option Config

pub data Event : Type 0 where
  test_failed write_failed : String → Event
  queue_drop : Event

pub record Service (A : Type 0) : Type 0 where
  pub config : Config
  pub saved_config : Config
  pub status : Status
  pub schema_ready : Bool
  pub maxsize : ℕ
  pub queue : List A
  pub writing : Option (Write A)
  pub stopping : Bool
  pub running : Bool
  -- The newest statement first.
  pub database : List (Statement A)

-- Whether a transaction commits: it does, or the error's text.
abbrev pub Answer : Type 0
Answer = Option String

abbrev is_ok : Option Bool → Bool
is_ok none = false
is_ok (some b) = b

module _ {A : Type 0} where
  unfoldable pub init : Config → ℕ → Service A
  init config maxsize = record {
    config = config;
    saved_config = config;
    status = new_status;
    schema_ready = false;
    maxsize = maxsize;
    queue = [];
    writing = none;
    stopping = false;
    running = false;
    database = [];
  }

  -- `status.queue_size = queue.qsize()`
  pub measure : Service A → Service A
  measure s = record s { status = record (s.status) { queue_size = length s.queue } }

  pub start : Service A → Service A
  unfolding measure
  start s =
      if s.running
      then s
      else measure (record s {
        stopping = false;
        running = true;
        status = record (s.status) { active = s.config.enabled && is_ok s.status.last_test_ok };
      })

  -- `running` is whether the service knows a worker that is alive; stop() forgets it, ended or not.
  pub stop : Service A → Service A
  unfolding measure
  stop s =
      measure (record s {
        stopping = true;
        running = false;
        status = record (s.status) { active = false };
      })

  -- `_ensure_table` once its transaction has ended: `target` is the configuration that it connected with,
  -- which need not be the service's any more.
  pub ensure_table : Config → Answer → Service A → Service A × Answer
  ensure_table target none s =
      (record s { database = schema target ∷ s.database; schema_ready = true }, none)
  ensure_table target (some error) s = (s, some error)

  pub mark_test : Answer → Service A → Service A × List Event
  mark_test none s = (
    record s {
      status = record (s.status) {
        last_test_ok = some true;
        last_error = none;
        active = s.config.enabled;
      };
    },
    [],
  )
  mark_test (some error) s = (
    record s {
      status = record (s.status) {
        last_test_ok = some false;
        last_error = some error;
        active = false;
      };
    },
    if str_eq error "" then [] else test_failed error ∷ [],
  )

  unfoldable pub test_connection : Config → Answer → Service A → Service A × List Event
  unfolding ensure_table mark_test
  test_connection target answer s =
      let (s', result) = ensure_table target answer s in mark_test result s'

  pub take_config : Config → Service A → Service A
  take_config config s = record s {
    config = config;
    schema_ready = false;
    saved_config = config;
    status = record (s.status) {
      active = s.status.active && config.enabled;
      last_error = if config.enabled then s.status.last_error else none;
    };
  }

  -- The part of update_config under its lock, and whether a test_connection follows. `config` is the
  -- payload with the defaults for its missing fields.
  unfoldable pub update_config : Config → Service A → Service A × Bool
  unfolding take_config
  update_config config s = (take_config config s, config.enabled)

  pub mark_drop : Service A → Service A
  mark_drop s = record s {
    status = record (s.status) {
      dropped_count = s.status.dropped_count + 1;
      last_error = some "Queue full, dropping lock-result row.";
    };
  }

  -- `put_nowait`, where there is room.
  pub accept : A → Service A → Service A
  accept row s = record s { queue = s.queue ++ row ∷ [] }

  -- What follows a put, under the lock that it takes then.
  unfoldable pub count_enqueued : Service A → Service A
  unfolding measure
  count_enqueued s =
      measure
        (record s { status = record (s.status) { enqueued_count = s.status.enqueued_count + 1 } })

  -- A queue of size 0 has no bound.
  is_full : Service A → Bool
  is_full s = not (s.maxsize == 0) && not (ltb (length s.queue) s.maxsize)

  -- enqueue_lock_result up to its put: `enabled` is what it read of the configuration before, and a row
  -- that is taken is counted by `count_enqueued` in a step of its own.
  unfoldable pub enqueue_lock_result : Bool → A → Service A → Service A × Bool × List Event
  unfolding accept mark_drop is_full
  enqueue_lock_result enabled row s =
      if not enabled
      then (s, false, [])
      else if is_full s
      then (mark_drop s, false, queue_drop ∷ [])
      else (accept row s, true, [])

  pub mark_write : Answer → Service A → Service A × List Event
  mark_write none s = (
    record s {
      status = record (s.status) {
        last_write_ok = some true;
        write_ok_count = s.status.write_ok_count + 1;
        last_error = none;
        active = s.config.enabled && is_ok s.status.last_test_ok;
      };
    },
    [],
  )
  mark_write (some error) s = (
    record s {
      status = record (s.status) {
        last_write_ok = some false;
        write_error_count = s.status.write_error_count + 1;
        last_error = some error;
        active = false;
      };
    },
    if str_eq error "" then [] else write_failed error ∷ [],
  )

  -- The worker's round up to the connection, with a row in its hand or with the queue: it goes on,
  -- ends or waits, or takes the first row.
  unfoldable pub take_from : Option (Write A) → List A → Service A → Service A
  take_from (some w) rows s = s
  take_from none [] s = record s { running = s.running && not s.stopping }
  take_from none (row ∷ rest) s = record s {
    queue = rest;
    writing =
        some (record { row = row; target = if s.config.enabled then some s.config else none });
  }

  unfoldable pub take_row : Service A → Service A
  unfolding take_from
  take_row s = take_from s.writing s.queue s

  abbrev pub statements : Bool → Config → A → List (Statement A)
  statements ready c row = if ready then insert c row ∷ [] else insert c row ∷ schema c ∷ []

  -- The transaction of _write_row, with its answer; a disabled service writes nothing.
  unfoldable pub commit_to : Answer → Option Config → A → Service A → Service A × Answer
  commit_to answer none row s = (s, none)
  commit_to (some error) (some c) row s = (s, some error)
  commit_to none (some c) row s = (
    record s { database = statements s.schema_ready c row ++ s.database; schema_ready = true },
    none,
  )

  unfoldable pub commit_row : Answer → Write A → Service A → Service A × Answer
  unfolding commit_to
  commit_row answer w s = commit_to answer w.target w.row s

  -- The rest of the round.
  pub finish_row : Answer → Write A → Service A → Service A × List Event
  unfolding commit_row mark_write measure
  finish_row answer w s =
      let (s', result) = commit_row answer w s in
      let (s'', events) = mark_write result s' in (measure (record s'' { writing = none }), events)

  unfoldable pub finish_with : Answer → Option (Write A) → Service A → Service A × List Event
  unfolding finish_row
  finish_with answer none s = (s, [])
  finish_with answer (some w) s = finish_row answer w s

  unfoldable pub finish_write : Answer → Service A → Service A × List Event
  unfolding finish_with
  finish_write answer s = finish_with answer s.writing s
