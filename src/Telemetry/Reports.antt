-- ===== src/Telemetry/Reports.antt =====
-- linien-gateway/app/rp_telemetry.py: what the log is told of the way to InfluxDB, and how often a
-- board is asked for its credentials.
use linien_multi_device.Prelude.{
  ℤ, Bool, true, false, Option, none, some, String, List, [], ◌∷◌, ◌++◌, ◌≡◌, refl, arith,
  if◌then◌else◌, ap,
}
use linien_multi_device.Telemetry.{
  Credentials, Entry, SkipReason, influx_logging_disabled, no_influx_credentials,
}
use linien_multi_device.Telemetry.Influx.{
  Notice, write_failed, write_recovered, note_influx_skip, same_skip, same_reason, change_notice,
  report_failure, report_success, report, Fetcher, fetcher, fetcher_absent, resolve_credentials,
  unfetched, retried_lately, usable,
}

-- The outcomes of one device's writes, in their order.
module _ (rejects : String → Bool) where
  unfoldable pub report_run : List (Option String) → Entry → Entry × List Notice
  report_run [] e = (e, [])
  report_run (outcome ∷ rest) e =
      let (e', first) = report rejects outcome e in
      let (e'', later) = report_run rest e' in (e'', first ++ later)

-- The changes of the outcomes, seen from whether the last one failed: a first failure and a first
-- success after failures.
unfoldable pub changes : Bool → List (Option String) → List Notice
changes failing [] = []
changes false (none ∷ rest) = changes false rest
changes true (none ∷ rest) = write_recovered ∷ changes false rest
changes false (some error ∷ rest) = write_failed error ∷ changes true rest
changes true (some error ∷ rest) = changes true rest

-- The log lines of any sequence of writes are one for each change between failing and succeeding.
pub report_run-changes :
    (rejects : String → Bool) (outcomes : List (Option String)) (e : Entry)
    → let (_, notices) = report_run rejects outcomes e in
      notices ≡ changes e.influx_error_reported outcomes
unfolding report_run changes report_failure report_success
report_run-changes rejects [] e = ground arith
report_run-changes rejects (none ∷ rest) e =
    ground (arith, report_run-changes rejects rest (record e { influx_error_reported = false }))
report_run-changes rejects (some error ∷ rest) e =
    let (e', _) = report_failure (rejects error) error e in
    ground (arith, report_run-changes rejects rest e')

-- The reasons noted for one device, pass after pass.
unfoldable pub skip_run : List (Option SkipReason) → Entry → Entry × List Notice
skip_run [] e = (e, [])
skip_run (reason ∷ rest) e =
    let (e', first) = note_influx_skip reason e in
    let (e'', later) = skip_run rest e' in (e'', first ++ later)

-- What is logged of a sequence of reasons: one line for each reason that is not the one before it.
unfoldable pub skip_changes : Option SkipReason → List (Option SkipReason) → List Notice
skip_changes last [] = []
skip_changes last (reason ∷ rest) =
    let later = skip_changes reason rest in
    if same_skip last reason then later else change_notice last reason ++ later

same_reason-eq : (a b : SkipReason) → same_reason a b ≡ true → a ≡ b
unfolding same_reason
same_reason-eq influx_logging_disabled influx_logging_disabled h = refl
same_reason-eq no_influx_credentials no_influx_credentials h = refl
same_reason-eq influx_logging_disabled no_influx_credentials h = cc
same_reason-eq no_influx_credentials influx_logging_disabled h = cc

same_skip-eq : (a b : Option SkipReason) → same_skip a b ≡ true → a ≡ b
unfolding same_skip
same_skip-eq none none h = refl
same_skip-eq (some a) (some b) h = ap some (same_reason-eq a b h)
same_skip-eq none (some b) h = cc
same_skip-eq (some a) none h = cc

-- Over any sequence of passes the log has one line for each change of the reason and no other, and the
-- entry holds the last reason.
pub skip_run-changes :
    (reasons : List (Option SkipReason)) (e : Entry)
    → let (_, notices) = skip_run reasons e in notices ≡ skip_changes e.influx_skip_reason reasons
unfolding skip_run skip_changes note_influx_skip
skip_run-changes [] e = ground arith
skip_run-changes (reason ∷ rest) e =
    let (e', _) = note_influx_skip reason e in
    ground (arith, same_skip-eq e.influx_skip_reason reason, skip_run-changes rest e')

-- A lookup that asks the board stamps the entry, so another one within 300 s does not ask: it leaves
-- the entry as it is, and gives the cached credentials where they are usable, none otherwise.
pub resolve_credentials-retry :
    (f : String → Option Credentials) (g : Fetcher) (key : String) (now later : ℤ) (e : Entry)
    → usable e.influx_credentials ≡ false
    → retried_lately e.influx_credentials_checked_at now ≡ false
    → retried_lately (some now) later ≡ true
    → let (e', _) = resolve_credentials (fetcher f) key now e in
      resolve_credentials g key later e'
      ≡ (e', if usable e'.influx_credentials then e'.influx_credentials else none)
unfolding resolve_credentials unfetched
resolve_credentials-retry f fetcher_absent key now later e h i j = ground arith
resolve_credentials-retry f (fetcher g) key now later e h i j = ground arith
