-- ===== src/Lib.antt =====
-- A model of the decision logic of the linien gateway (linien-gateway/app), a server that keeps the
-- sessions with several laser-lock controllers (Red Pitaya boards that run linien-server), watches
-- their locks and brings them back.
--
-- How the parts interact. A session polls its board. Each frame goes to the lock indicator, which calls
-- the lock locked, marginal or lost; the auto-relock controller takes that state and tells the session
-- when to sweep and when to relock. A board that drops its connection is probed over SSH by the
-- diagnosis scheduler, which tells from the probe whether the board restarted and whether the lock is
-- held; the boot ids go to the board event store. What happens is logged in the log store, whose
-- subscribers are websocket clients. Plot frames and states go to the clients that watch a device
-- through the stream's queues. The devices stand in the device list, with their settings in a file of
-- their own, and in groups that the group store keeps; the session registry has one session for each. A
-- session can reboot its board: while that recovery is active, it refuses to connect.
-- To lock from a scan that is too wide, a session narrows it stage by stage: the planner decides each
-- stage, and the identity guard stops a walk that has come to another feature. Beside the sessions, the
-- telemetry manager polls a small daemon on each board for its temperature and its load, shows them while they are fresh, and writes them to InfluxDB; the results of locks go to a
-- Postgres database through a bounded queue.
--
-- Which file models which part:
--   Prelude        shared names: tests, integers, lists, association lists
--   Payload        _as_bool, _as_float and _as_int of linien-gateway/app/auto_relock.py and
--                  linien-gateway/app/lock_indicator.py
--   AutoRelock     linien-gateway/app/auto_relock.py: AutoRelockController; tick() is cut at its early
--                  returns, complete_action() and set_config() are one definition each
--   LockIndicator  linien-gateway/app/lock_indicator.py: LockIndicatorEvaluator, the sections of update()
--                  as definitions
--   LogStore       linien-gateway/app/log_store.py: LogStore
--   BoardEvents    linien-gateway/app/board_event_store.py: BoardEventStore with its writer
--   Diagnosis      linien-gateway/app/diagnosis.py: the verdict, and Diagnosis.Schedule for the class
--                  DiagnosisProbe
--   Groups         linien-gateway/app/group_store.py
--   Stream         linien-gateway/app/stream.py: WebsocketManager; Stream.Connections for what one
--                  connection does with a message
--   Telemetry      linien-gateway/app/rp_telemetry.py: the cache and the status payload; Telemetry.Protocol
--                  parses the daemon's answers, Telemetry.Polling is _poll_device with _apply_reading
--                  and _log_transitions, Telemetry.Actions what an operator's action writes,
--                  Telemetry.Influx the way to InfluxDB, Telemetry.Signature what a push depends on
--   Recovery       linien-gateway/app/session.py: the recovery record, the connection flags and the
--                  diagnosis of DeviceSession; Recovery.Reboot is linien-gateway/app/device_recovery.py
--                  with the worker _run_reboot
--   LockResults    linien-gateway/app/manual_lock_postgres.py: LockResultPostgresService
--   Devices        linien-gateway/app/device_store.py; Devices.Settings is
--                  linien-gateway/app/device_config_store.py, Devices.Registry
--                  linien-gateway/app/session_registry.py
--   LockRefinement linien-gateway/app/lock_refinement.py: bounded_recenter_v; LockRefinement.Plan is
--                  plan_refinement_step with what it uses of linien-gateway/app/auto_lock_scan.py,
--                  LockRefinement.Identity is IdentityGuard, LockRefinement.Acceptance is
--                  linien-gateway/app/lock_acceptance.py
--   InfluxLine     linien-gateway/app/influx_writer.py: the escaping
--   Tests          runs at concrete inputs
--
-- State is a record, an operation a function from the state before to the state after; what happens
-- under one lock is one step. What the clock, the network and the callers say is an argument. Where an
-- operation takes its lock more than once, acts after it or waits for the network in between, each part
-- is a definition, and other calls come in between in the runs of these files: a telemetry poll carries
-- the mutation_seq that it captured and its log lines what was captured for them, an install is a
-- deployment and a verification, a connection test ends with the configuration that it began with, and
-- the writer of lock results takes a row in one step and ends its transaction in another. The runs of
-- BoardEvents are of calls that come one after another: its flush() and note_boot_id() are the parts
-- under the lock and those after it with nothing in between. Compositions of this kind are poll_device and
-- read_temperature on the whole cache, finish_poll, run_reboot and broadcast() too.
--
-- A file that cannot be written is an argument in Recovery (whether save_device raises), Devices and
-- BoardEvents; elsewhere (Groups, LockResults) a write succeeds. A connect that fails after its saves
-- is a connect and a poll failure.
--
-- Every loop of the modelled code but one runs over a finite list or text, and is structural recursion.
-- The wait of reboot_device runs on fuel: each round sleeps 2 s, and the wait ends after 180 s, so 91 are
-- enough.
--
-- Numbers: a time, a duration or a voltage is an integer number of millionths, where the program has a
-- finite float; sums and comparisons are exact, so rounding, NaN and infinities are not modelled. Counts
-- are natural numbers. LockRefinement has voltages in picovolts, since its thresholds are a nanovolt,
-- and rounds a quotient to a picovolt.
--
-- Taken as parameters: Python's operations on a text (strip, split, lower, float, int) and how it prints
-- an index; the daemon's answers; the functions of linien_client.device on devices.json, with laws for a
-- readable file; the credentials' fetcher and InfluxDB's writer; the database's answers; the board's
-- answers during a reboot. A worker thread that outlives stop() beside its successor is left out. Not
-- modelled: the texts of messages, the device access through linien-client, SSH and its output, numpy
-- arithmetic on traces, the HTTP routes, the web client, the simulator and the agent on the board.
pub mod AutoRelock
pub mod BoardEvents
pub mod Devices
pub mod Diagnosis
pub mod Groups
pub mod InfluxLine
pub mod LockIndicator
pub mod LockRefinement
pub mod LockResults
pub mod LogStore
pub mod Payload
pub mod Prelude
pub mod Recovery
pub mod Stream
pub mod Telemetry
pub mod Tests
