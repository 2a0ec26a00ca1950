-- ===== src/Telemetry/Influx.antt =====
-- linien-gateway/app/rp_telemetry.py: from the samples of one poll pass to the points that InfluxDB is
-- sent: the credentials, the batches, what is logged once. The fetcher of credentials and the writer
-- are parameters; a lookup that times out is one that finds nothing.
use linien_multi_device.Prelude.{
  ℤ, pos, ◌-ℤ◌, ltb_ℤ, Bool, true, false, ◌&&◌, Option, none, some, String, List, [], ◌∷◌, ◌++◌,
  str_eq, if◌then◌else◌,
}
use linien_multi_device.Prelude.Int.{◌*ℤ◌ as scale}
use linien_multi_device.Prelude.Assoc.{Assoc, lookup, insert}
use linien_multi_device.Telemetry.{
  mem_used_percent, Credentials, is_usable, Entry, or_new, SkipReason, influx_logging_disabled,
  no_influx_credentials,
}
use linien_multi_device.Telemetry.Polling.{Sample}

pub data Notice : Type 0 where
  writing : SkipReason → Notice
  skipped : SkipReason → Notice
  write_failed : String → Notice
  write_recovered : Notice

-- What `_credentials_fetcher(key)` comes to, snapshotted; `fetcher_absent` where there is none.
pub data Fetcher : Type 0 where
  fetcher_absent : Fetcher
  fetcher : (String → Option Credentials) → Fetcher

-- `now - checked_at < INFLUX_CREDENTIAL_RETRY_S`, with 300 s.
unfoldable pub retried_lately : Option ℤ → ℤ → Bool
retried_lately none now = false
retried_lately (some t) now = ltb_ℤ (now -ℤ t) (pos 300000000)

abbrev pub usable : Option Credentials → Bool
usable none = false
usable (some c) = is_usable c

abbrev or_cached : Option Credentials → Option Credentials → Option Credentials
or_cached none cached = cached
or_cached (some c) cached = some c

abbrev take_fetched : Option Credentials → ℤ → Entry → Entry
take_fetched fetched now e = record e {
  influx_credentials_checked_at = some now;
  influx_credentials = or_cached fetched e.influx_credentials;
}

unfoldable pub unfetched : Fetcher → String → ℤ → Entry → Entry × Option Credentials
unfolding retried_lately
unfetched fetcher_absent key now e = (e, none)
unfetched (fetcher f) key now e =
    if retried_lately e.influx_credentials_checked_at now
    then (e, none)
    else (take_fetched (f key) now e, f key)

unfoldable pub resolve_credentials : Fetcher → String → ℤ → Entry → Entry × Option Credentials
unfolding unfetched
resolve_credentials f key now e =
    if usable e.influx_credentials then (e, e.influx_credentials) else unfetched f key now e

unfoldable pub same_reason : SkipReason → SkipReason → Bool
same_reason influx_logging_disabled influx_logging_disabled = true
same_reason no_influx_credentials no_influx_credentials = true
same_reason _ _ = false

unfoldable pub same_skip : Option SkipReason → Option SkipReason → Bool
unfolding same_reason
same_skip none none = true
same_skip (some a) (some b) = same_reason a b
same_skip _ _ = false

-- What a change of the reason logs: the new one, or that writing goes on.
unfoldable pub change_notice : Option SkipReason → Option SkipReason → List Notice
change_notice none none = []
change_notice (some previous) none = writing previous ∷ []
change_notice _ (some reason) = skipped reason ∷ []

unfoldable pub note_influx_skip : Option SkipReason → Entry → Entry × List Notice
unfolding same_skip change_notice
note_influx_skip reason e =
    if same_skip e.influx_skip_reason reason
    then (e, [])
    else (record e { influx_skip_reason = reason }, change_notice e.influx_skip_reason reason)

-- `rejected` is whether the error text has "HTTP 401" or "HTTP 403" in it.
unfoldable pub report_failure : Bool → String → Entry → Entry × List Notice
report_failure rejected error e = (
  record e {
    influx_error_reported = true;
    influx_credentials = if rejected then none else e.influx_credentials;
  },
  if e.influx_error_reported then [] else write_failed error ∷ [],
)

unfoldable pub report_success : Entry → Entry × List Notice
report_success e = (
  record e { influx_error_reported = false },
  if e.influx_error_reported then write_recovered ∷ [] else [],
)

pub record Point : Type 0 where
  pub fields : List (String × ℤ)
  pub timestamp_ns : ℤ

abbrev field : String → Option ℤ → List (String × ℤ)
field name none = []
field name (some v) = (name, v) ∷ []

-- A size in kB as the float that the point carries, in millionths.
abbrev kb_field : String → Option ℤ → List (String × ℤ)
kb_field name none = []
kb_field name (some v) = (name, scale v (pos 1000000)) ∷ []

pub influx_fields : Sample → List (String × ℤ)
influx_fields s =
    ("rp_temperature_c", s.temperature_c) ∷ field "rp_cpu_percent" s.metrics.cpu_percent
    ++ field "rp_load1" s.metrics.load1
    ++ field "rp_mem_used_percent" (mem_used_percent s.metrics)
    ++ kb_field "rp_mem_available_kb" s.metrics.mem_available_kb
    ++ kb_field "rp_root_free_kb" s.metrics.root_free_kb
    ++ field "rp_uptime_s" s.metrics.uptime_s
    ++ field "rp_vccaux_v" s.metrics.vccaux_v

-- `int(sampled_at * 1_000_000_000)`, from microseconds.
pub point_of : Sample → Point
unfolding influx_fields
point_of s = record { fields = influx_fields s; timestamp_ns = scale s.sampled_at (pos 1000) }

-- The destination and the measurement, which are the five fields of the credentials.
same_batch : Credentials → Credentials → Bool
same_batch a b =
    str_eq a.url b.url
    && str_eq a.org b.org
    && str_eq a.token b.token
    && str_eq a.bucket b.bucket
    && str_eq a.measurement b.measurement

-- One entry of `batches` with the one of `keys_by_batch`.
pub record Batch : Type 0 where
  pub target : Credentials
  pub lines : List Point
  pub keys : List String

unfoldable pub add_point : Credentials → Point → String → List Batch → List Batch
unfolding same_batch
add_point c point key [] = record { target = c; lines = point ∷ []; keys = key ∷ [] } ∷ []
add_point c point key (b ∷ rest) =
    let later = add_point c point key rest in
    if same_batch b.target c
    then record b { lines = b.lines ++ point ∷ []; keys = b.keys ++ key ∷ [] } ∷ rest
    else b ∷ later

-- The entries, with the log's notices for their devices.
abbrev pub Noted : Type 0
Noted = Assoc Entry × List (String × Notice)

abbrev tag_all : String → List Notice → List (String × Notice)
tag_all key [] = []
tag_all key (n ∷ rest) = (key, n) ∷ tag_all key rest

pub on_entry : String → (Entry → Entry × List Notice) → Assoc Entry → Noted
on_entry key f entries =
    let (e, notices) = f (or_new (lookup key entries)) in
    (insert key e entries, tag_all key notices)

-- The first loop: the samples of devices with InfluxDB logging enabled; the others are noted.
pub screen : List Sample → Noted → List Sample × Noted
unfolding on_entry note_influx_skip
screen [] noted = ([], noted)
screen (s ∷ rest) (entries, notices) =
    let (entries', more) =
      if s.device.influx_enabled
      then (entries, [])
      else on_entry s.device.key (note_influx_skip (some influx_logging_disabled)) entries in
    let (eligible, noted) = screen rest (entries', notices ++ more) in
    (if s.device.influx_enabled then s ∷ eligible else eligible, noted)

-- The lookups of all eligible devices, which run at once, as one sequence of them.
pub resolve_all :
    Fetcher → ℤ → List Sample → Assoc Entry → Assoc Entry × List (Sample × Option Credentials)
unfolding resolve_credentials
resolve_all f now [] entries = (entries, [])
resolve_all f now (s ∷ rest) entries =
    let key = s.device.key in
    let (e, found) = resolve_credentials f key now (or_new (lookup key entries)) in
    let (entries', resolved) = resolve_all f now rest (insert key e entries) in
    (entries', (s, found) ∷ resolved)

abbrev pub reason_of : Option Credentials → Option SkipReason
reason_of none = some no_influx_credentials
reason_of (some c) = if is_usable c then none else some no_influx_credentials

abbrev pub place : Option Credentials → Sample → List Batch → List Batch
place none s batches = batches
place (some c) s batches =
    if is_usable c then add_point c (point_of s) s.device.key batches else batches

-- The second loop: a sample with usable credentials is put into its batch.
unfoldable pub gather : List (Sample × Option Credentials) → Noted → List Batch → Noted × List Batch
unfolding on_entry note_influx_skip add_point
gather [] noted batches = (noted, batches)
gather ((s, found) ∷ rest) (entries, notices) batches =
    let (entries', more) = on_entry s.device.key (note_influx_skip (reason_of found)) entries in
    gather rest (entries', notices ++ more) (place found s batches)

-- What `writer.write` comes to: nothing, or the text of the error that it raised.
abbrev pub Writer : Type 0
Writer = Credentials → List Point → Option String

-- `rejects error` is `"HTTP 401" in error or "HTTP 403" in error`.
abbrev pub report : (String → Bool) → Option String → Entry → Entry × List Notice
report rejects none e = report_success e
report rejects (some error) e = report_failure (rejects error) error e

pub report_all : (String → Bool) → Option String → List String → Noted → Noted
unfolding on_entry report_success report_failure
report_all rejects outcome [] noted = noted
report_all rejects outcome (key ∷ keys) (entries, notices) =
    let (entries', more) = on_entry key (report rejects outcome) entries in
    report_all rejects outcome keys (entries', notices ++ more)

pub write_batches : Writer → (String → Bool) → List Batch → Noted → Noted
unfolding report_all
write_batches writer rejects [] noted = noted
write_batches writer rejects (b ∷ rest) noted =
    write_batches writer rejects rest (report_all rejects (writer b.target b.lines) b.keys noted)

abbrev pub write_influx_with :
    Writer → (String → Bool) → Fetcher → ℤ → List Sample → Assoc Entry → Noted
write_influx_with writer rejects f now samples entries =
    let (eligible, (entries', notices)) = screen samples (entries, []) in
    let (entries'', resolved) = resolve_all f now eligible entries' in
    let (noted, batches) = gather resolved (entries'', notices) [] in
    write_batches writer rejects batches noted

pub write_influx : Option Writer → (String → Bool) → Fetcher → ℤ → List Sample → Assoc Entry → Noted
write_influx none rejects f now samples entries = (entries, [])
write_influx (some writer) rejects f now samples entries =
    write_influx_with writer rejects f now samples entries
