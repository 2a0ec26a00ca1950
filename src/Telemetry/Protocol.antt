-- ===== src/Telemetry/Protocol.antt =====
-- linien-gateway/app/rp_telemetry.py: the parsing of the daemon's answers and the classification of
-- failed requests. Python's operations on text are the parameters in `PyText`.
use linien_multi_device.Prelude.{
  ℤ, pos, negsuc, leb_ℤ, ltb_ℤ, Bool, false, not, ◌&&◌, Option, none, some, String, str_append,
  List, [], ◌∷◌, str_eq, if◌then◌else◌,
}
use linien_multi_device.Telemetry.{
  State, running, stopped, offline, error, version_mismatch, HostMetrics, empty_metrics,
}

-- What `float(s)` comes to: a ValueError, an infinity or NaN, or a number.
pub data Float : Type 0 where
  invalid non_finite : Float
  finite : ℤ → Float

-- `partition` is `s.partition("=")`: the part before, whether "=" was found, and the part behind it.
pub record PyText : Type 0 where
  pub strip : String → String
  pub split : String → List String
  pub split_twice : String → List String
  pub partition : String → String × Bool × String
  pub float_of : String → Float
  pub int_of : String → Option ℤ
  pub repr : String → String
  pub two_decimals : ℤ → String

-- Outcome of one telemetry request.
pub record Reading : Type 0 where
  pub state : State
  pub temperature_c : Option ℤ
  pub version : Option String
  pub error : Option String
  pub metrics : Option HostMetrics

abbrev pub failed : State → String → Reading
failed state message = record {
  state = state;
  temperature_c = none;
  version = none;
  error = some message;
  metrics = none;
}

unfoldable pub bounded_number : ℤ → ℤ → ℤ → Option ℤ
bounded_number value low high = if leb_ℤ low value && leb_ℤ value high then some value else none

unfoldable pub float_between : Float → ℤ → ℤ → Option ℤ
unfolding bounded_number
float_between (finite value) low high = bounded_number value low high
float_between _ low high = none

unfoldable pub int_between : Option ℤ → ℤ → ℤ → Option ℤ
unfolding bounded_number
int_between none low high = none
int_between (some value) low high = bounded_number value low high

unfoldable pub bounded_float : PyText → String → ℤ → ℤ → Option ℤ
unfolding float_between
bounded_float py raw low high = float_between (py.float_of raw) low high

unfoldable pub bounded_int : PyText → String → ℤ → ℤ → Option ℤ
unfolding int_between
bounded_int py raw low high = int_between (py.int_of raw) low high

-- `values[attribute] = parsed`, where the value was parsed; what was there stays otherwise.
abbrev pub keep : Option ℤ → Option ℤ → Option ℤ
keep none old = old
keep (some v) old = some v

-- MAX_PLAUSIBLE_LOAD, MAX_PLAUSIBLE_MEMORY_KB, MAX_PLAUSIBLE_DISK_KB, MAX_PLAUSIBLE_UPTIME_S.
abbrev pub max_load : ℤ
max_load = pos 1024000000

abbrev pub max_memory_kb : ℤ
max_memory_kb = pos 67108864

abbrev pub max_disk_kb : ℤ
max_disk_kb = pos 17179869184

abbrev pub max_uptime_s : ℤ
max_uptime_s = pos 315360000000000

-- One token of the tail, by its key; a key that no parser is known for is ignored.
unfoldable pub read_metric : PyText → String → String → HostMetrics → HostMetrics
unfolding bounded_float bounded_int
read_metric py name raw m =
    if str_eq name "cpu"
    then record m {
      cpu_percent = keep (bounded_float py raw (pos 0) (pos 100000000)) m.cpu_percent;
    }
    else if str_eq name "load1"
    then record m { load1 = keep (bounded_float py raw (pos 0) max_load) m.load1 }
    else if str_eq name "memtotal"
    then record m { mem_total_kb = keep (bounded_int py raw (pos 0) max_memory_kb) m.mem_total_kb }
    else if str_eq name "memavail"
    then record m {
      mem_available_kb = keep (bounded_int py raw (pos 0) max_memory_kb) m.mem_available_kb;
    }
    else if str_eq name "uptime"
    then record m { uptime_s = keep (bounded_float py raw (pos 0) max_uptime_s) m.uptime_s }
    else if str_eq name "rootfree"
    then record m { root_free_kb = keep (bounded_int py raw (pos 0) max_disk_kb) m.root_free_kb }
    else if str_eq name "vccaux"
    then record m { vccaux_v = keep (bounded_float py raw (pos 500000) (pos 3000000)) m.vccaux_v }
    else m

unfoldable pub read_token : PyText → String → HostMetrics → HostMetrics
unfolding read_metric
read_token py token m =
    let (name, separator, raw) = py.partition token in
    if not separator then m else read_metric py name raw m

unfoldable pub read_tokens : PyText → List String → HostMetrics → HostMetrics
read_tokens py [] m = m
read_tokens py (token ∷ rest) m = read_tokens py rest (read_token py token m)

unfoldable pub exceeds : Option ℤ → Option ℤ → Bool
exceeds (some a) (some b) = ltb_ℤ b a
exceeds _ _ = false

-- Available memory above the total is dropped.
unfoldable pub drop_garbled : HostMetrics → HostMetrics
unfolding exceeds
drop_garbled m =
    if exceeds m.mem_available_kb m.mem_total_kb then record m { mem_available_kb = none } else m

unfoldable pub parse_metrics_tail : PyText → String → HostMetrics
unfolding read_tokens drop_garbled
parse_metrics_tail py tail = drop_garbled (read_tokens py (py.split tail) empty_metrics)

abbrev pub min_temperature : ℤ
min_temperature = negsuc 39999999

abbrev pub max_temperature : ℤ
max_temperature = pos 150000000

abbrev code_of : PyText → List String → String
code_of py [] = "UNKNOWN"
code_of py (code ∷ _) = py.strip code

abbrev pub tail_of : List String → String
tail_of [] = ""
tail_of (tail ∷ _) = tail

unfoldable pub parse_temperature : PyText → String → List String → Float → Reading
unfolding parse_metrics_tail
parse_temperature py raw rest invalid =
    failed error (str_append "unparsable temperature " (py.repr raw))
parse_temperature py raw rest non_finite = failed error "non-finite temperature"
parse_temperature py raw rest (finite t) =
    if not (leb_ℤ min_temperature t && leb_ℤ t max_temperature)
    then failed error (str_append "implausible temperature " (str_append (py.two_decimals t) " C"))
    else record {
      state = running;
      temperature_c = some t;
      version = none;
      error = none;
      metrics = some (parse_metrics_tail py (tail_of rest));
    }

unfoldable pub parse_parts : PyText → List String → Reading
unfolding parse_temperature
parse_parts py [] = failed error "empty response"
parse_parts py (id ∷ []) =
    if not (str_eq id "RPT1")
    then failed version_mismatch (str_append "unexpected protocol id " (py.repr id))
    else failed error "truncated response"
parse_parts py (id ∷ second ∷ rest) =
    if not (str_eq id "RPT1")
    then failed version_mismatch (str_append "unexpected protocol id " (py.repr id))
    else if str_eq second "ERR"
    then failed error (str_append "daemon error: " (code_of py rest))
    else parse_temperature py second rest (py.float_of second)

unfoldable pub parse_status_line : PyText → String → Reading
unfolding parse_parts
parse_status_line py line =
    let text = py.strip line in
    if str_eq text "" then failed error "empty response" else parse_parts py (py.split_twice text)

version_of : List String → Option String
version_of (id ∷ word ∷ version ∷ []) =
    if str_eq id "RPT1" && str_eq word "VERSION" then some version else none
version_of _ = none

pub parse_version_line : PyText → String → Option String
unfolding version_of
parse_version_line py line = version_of (py.split (py.strip line))

-- The classes of exceptions that _classify_exception tests for, and `str(exc) or its class name`.
pub data Failure : Type 0 where
  connection_refused timeout value_error limit_overrun : Failure
  os_error other_error : String → Failure

unfoldable pub classify_exception : Failure → Reading
classify_exception connection_refused = failed stopped "connection refused"
classify_exception timeout = failed offline "timed out"
classify_exception value_error = failed error "oversized response"
classify_exception limit_overrun = failed error "oversized response"
classify_exception (os_error text) = failed offline text
classify_exception (other_error text) = failed offline text

-- The network: the line that one request answers, or how it failed.
pub data Answer : Type 0 where
  line : String → Answer
  raised : Failure → Answer

unfoldable pub read_answer : PyText → Answer → Reading
unfolding classify_exception parse_status_line
read_answer py (line text) = parse_status_line py text
read_answer py (raised failure) = classify_exception failure

unfoldable pub read_telemetry : PyText → String → Answer → Reading
unfolding read_answer
read_telemetry py host answer =
    if str_eq host "" then failed offline "device has no host" else read_answer py answer
