-- ===== src/LockResults/Schema.antt =====
-- linien-gateway/app/manual_lock_postgres.py: the schema statements and the rows of each database.
use linien_multi_device.Prelude.{
  ℕ, ◌≡◌, refl, sym, arith, Bool, true, false, not, Option, none, some, List, [], ◌∷◌, ◌++◌,
  if_intro, ap, ◌∙◌,
}
use mathlib.Core.Path.{subst}
use linien_multi_device.LockResults.{
  count_enqueued, Service, Statement, schema, insert, statements, Config, Event, Answer, Write,
  start, stop, ensure_table, mark_test, test_connection, take_config, update_config, mark_drop,
  accept, enqueue_lock_result, is_full, take_row, take_from, commit_row, commit_to, mark_write,
  finish_row, finish_write, finish_with, measure, init,
}
use linien_multi_device.LockResults.Calls.{
  Call, start_call, stop_call, test_call, update_call, enqueue_call, count_call, take_call,
  finish_call, step, run,
}

-- The schema was applied to the database of this configuration.
pub data HasSchema {A : Type 0} (c : Config) : List (Statement A) → Type 0 where
  here : (rest : List (Statement A)) → HasSchema c (schema c ∷ rest)
  there : (x : Statement A) (rest : List (Statement A)) → HasSchema c rest → HasSchema c (x ∷ rest)

-- Every row stands above the schema statements of its own database; the newest statement is the first.
pub data IsMigrated {A : Type 0} : List (Statement A) → Type 0 where
  none_yet : IsMigrated []
  migrated :
      (c : Config) (rest : List (Statement A)) → IsMigrated rest → IsMigrated (schema c ∷ rest)
  inserted :
      (c : Config) (row : A) (rest : List (Statement A))
      → HasSchema c rest
      → IsMigrated rest
      → IsMigrated (insert c row ∷ rest)

module _ {A : Type 0} where
  -- A row in the worker's hand goes to the database of the present configuration.
  abbrev target_of : Option (Write A) → Option Config
  target_of none = none
  target_of (some w) = w.target

  pub record IsReady (s : Service A) : Type 0 where
    pub current : (c : Config) → target_of s.writing ≡ some c → c ≡ s.config
    pub ready : s.schema_ready ≡ true → HasSchema s.config s.database
    pub rows : IsMigrated s.database

  -- No configuration is set while a row is in the worker's hand or a connection test is running.
  abbrev Fits : Call A → Service A → Type 0
  Fits (update_call _) s = s.writing ≡ none
  Fits (test_call target _) s = target ≡ s.config
  Fits _ s = Unit

  abbrev pub Undisturbed : List (Call A) → Service A → Type 0
  Undisturbed [] s = Unit
  Undisturbed (c ∷ cs) s = Fits c s × Undisturbed cs (step c s)

  test_connection-IsReady :
      (target : Config) (answer : Answer) (s : Service A)
      → target ≡ s.config
      → IsReady s
      → let (s', _) = test_connection target answer s in IsReady s'
  unfolding test_connection ensure_table mark_test
  test_connection-IsReady target none s same h = record {
    current = h.current;
    ready = λ _. subst (λ c. HasSchema c (schema target ∷ s.database)) same (here s.database);
    rows = migrated target s.database h.rows;
  }
  test_connection-IsReady target (some error) s same h = record {
    current = h.current;
    ready = h.ready;
    rows = h.rows;
  }

  take_config-IsReady :
      (c : Config) (s : Service A) → s.writing ≡ none → IsReady s → IsReady (take_config c s)
  unfolding take_config
  take_config-IsReady c s idle h = record {
    current = λ d e. ground arith;
    ready = λ e. cc;
    rows = h.rows;
  }

  -- The statements of one transaction, on top of what is there.
  add_row :
      (ready : Bool) (c : Config) (row : A) (db : List (Statement A))
      → (ready ≡ true → HasSchema c db)
      → IsMigrated db
      → HasSchema c (statements ready c row ++ db) × IsMigrated (statements ready c row ++ db)
  add_row true c row db h k = (there (insert c row) db (h refl), inserted c row db (h refl) k)
  add_row false c row db h k =
      let below = schema c ∷ db in
      (there (insert c row) below (here db), inserted c row below (here db) (migrated c db k))

  commit_to-IsReady :
      (answer : Answer) (target : Option Config) (row : A) (s : Service A)
      → ((c : Config) → target ≡ some c → c ≡ s.config)
      → IsReady s
      → let (s', _) = commit_to answer target row s in IsReady s'
  unfolding commit_to
  commit_to-IsReady answer none row s p h = h
  commit_to-IsReady (some error) (some c) row s p h = h
  commit_to-IsReady none (some c) row s p h =
      let same = p c refl in
      let (has, ok) =
        add_row s.schema_ready c row s.database
          (λ e. subst (λ d. HasSchema d s.database) (sym same) (h.ready e)) h.rows in
      record {
        current = h.current;
        ready =
            λ e. subst (λ d. HasSchema d (statements s.schema_ready c row ++ s.database)) same has;
        rows = ok;
      }

  mark_write-IsReady :
      (result : Answer) (s : Service A)
      → IsReady s
      → let (s', _) = mark_write result s in IsReady (measure (record s' { writing = none }))
  unfolding mark_write measure
  mark_write-IsReady none s h = record {
    current = λ c e. ground arith;
    ready = h.ready;
    rows = h.rows;
  }
  mark_write-IsReady (some error) s h = record {
    current = λ c e. ground arith;
    ready = h.ready;
    rows = h.rows;
  }

  finish_row-IsReady :
      (answer : Answer) (w : Write A) (s : Service A)
      → s.writing ≡ some w
      → IsReady s
      → let (s', _) = finish_row answer w s in IsReady s'
  unfolding finish_row commit_row
  finish_row-IsReady answer w s e h =
      let (s', result) = commit_to answer w.target w.row s in
      mark_write-IsReady result s'
        (commit_to-IsReady answer w.target w.row s (λ c p. h.current c (ap target_of e ∙ p)) h)

  finish_with-IsReady :
      (answer : Answer) (o : Option (Write A)) (s : Service A)
      → s.writing ≡ o
      → IsReady s
      → let (s', _) = finish_with answer o s in IsReady s'
  unfolding finish_with
  finish_with-IsReady answer none s e h = h
  finish_with-IsReady answer (some w) s e h = finish_row-IsReady answer w s e h

  take_from-IsReady :
      (o : Option (Write A)) (rows : List A) (s : Service A)
      → IsReady s
      → IsReady (take_from o rows s)
  unfolding take_from
  take_from-IsReady (some w) rows s h = h
  take_from-IsReady none [] s h = record { current = h.current; ready = h.ready; rows = h.rows }
  take_from-IsReady none (row ∷ rest) s h = record {
    current = λ c e. ground arith;
    ready = h.ready;
    rows = h.rows;
  }

  enqueue_lock_result-IsReady :
      (enabled : Bool) (row : A) (s : Service A)
      → IsReady s
      → let (s', _, _) = enqueue_lock_result enabled row s in IsReady s'
  unfolding enqueue_lock_result accept mark_drop
  enqueue_lock_result-IsReady enabled row s h =
      let P : Service A × Bool × List Event → Type 0 = λ r. (let (s', _, _) = r in IsReady s') in
      if_intro P (not enabled) _ _ (λ _. h)
        (λ _.
          if_intro P (is_full s) _ _
            (λ _. record { current = h.current; ready = h.ready; rows = h.rows })
            (λ _. record { current = h.current; ready = h.ready; rows = h.rows }))

  step-IsReady : (c : Call A) (s : Service A) → Fits c s → IsReady s → IsReady (step c s)
  unfolding step start stop measure count_enqueued take_row finish_write update_config
  step-IsReady start_call s u h =
      if_intro IsReady s.running _ _ (λ _. h)
        (λ _. record { current = h.current; ready = h.ready; rows = h.rows })
  step-IsReady stop_call s u h = record { current = h.current; ready = h.ready; rows = h.rows }
  step-IsReady (test_call target answer) s u h = test_connection-IsReady target answer s u h
  step-IsReady (update_call config) s u h = take_config-IsReady config s u h
  step-IsReady (enqueue_call enabled row) s u h = enqueue_lock_result-IsReady enabled row s h
  step-IsReady count_call s u h = record { current = h.current; ready = h.ready; rows = h.rows }
  step-IsReady take_call s u h = take_from-IsReady s.writing s.queue s h
  step-IsReady (finish_call answer) s u h = finish_with-IsReady answer s.writing s refl h

  run-IsReady :
      (cs : List (Call A)) (s : Service A) → Undisturbed cs s → IsReady s → IsReady (run cs s)
  unfolding run
  run-IsReady [] s u h = h
  run-IsReady (c ∷ cs) s (fits, u) h = run-IsReady cs (step c s) u (step-IsReady c s fits h)

  -- After any run of calls on a new service in which no configuration is set while a row is being
  -- written or a connection test is running: every row in a database stands behind the schema statements for that database.
  pub run-IsMigrated :
      (cs : List (Call A)) (config : Config) (maxsize : ℕ)
      → Undisturbed cs (init config maxsize)
      → IsMigrated (run cs (init config maxsize)).database
  unfolding init
  run-IsMigrated cs config maxsize u =
      let start_ready : IsReady (init config maxsize) = record {
        current = λ c e. ground arith;
        ready = λ e. cc;
        rows = none_yet;
      } in
      let ready = run-IsReady cs (init config maxsize) u start_ready in ready.rows
