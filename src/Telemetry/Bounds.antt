-- ===== src/Telemetry/Bounds.antt =====
-- linien-gateway/app/rp_telemetry.py: the bounds of what parse_status_line lets through.
use linien_multi_device.Prelude.{
  ℤ, pos, leb_ℤ, Bool, true, false, not, ◌&&◌, Option, none, some, String, List, [], ◌∷◌, ◌≡◌, refl,
  arith, str_eq, is_some, if_intro, ◌⊎◌, inl, inr,
}
use linien_multi_device.Telemetry.{HostMetrics, empty_metrics}
use linien_multi_device.Telemetry.Protocol.{
  PyText, Float, invalid, non_finite, finite, Reading, bounded_float, bounded_int, float_between,
  int_between, bounded_number, read_metric, read_token, read_tokens, drop_garbled, exceeds,
  parse_metrics_tail, parse_temperature, parse_parts, parse_status_line, max_load, max_memory_kb,
  max_disk_kb, max_uptime_s, min_temperature, max_temperature, keep, tail_of,
}

abbrev pub within : ℤ → ℤ → Option ℤ → Bool
within low high none = true
within low high (some v) = leb_ℤ low v && leb_ℤ v high

pub record IsPlausible (m : HostMetrics) : Type 0 where
  pub cpu : within (pos 0) (pos 100000000) m.cpu_percent ≡ true
  pub load : within (pos 0) max_load m.load1 ≡ true
  pub total : within (pos 0) max_memory_kb m.mem_total_kb ≡ true
  pub available : within (pos 0) max_memory_kb m.mem_available_kb ≡ true
  pub uptime : within (pos 0) max_uptime_s m.uptime_s ≡ true
  pub disk : within (pos 0) max_disk_kb m.root_free_kb ≡ true
  pub rail : within (pos 500000) (pos 3000000) m.vccaux_v ≡ true

bounded_number-within : (v low high : ℤ) → within low high (bounded_number v low high) ≡ true
unfolding bounded_number
bounded_number-within v low high = ground arith

float_between-within :
    (f : Float) (low high : ℤ) → within low high (float_between f low high) ≡ true
unfolding float_between
float_between-within invalid low high = refl
float_between-within non_finite low high = refl
float_between-within (finite v) low high = bounded_number-within v low high

int_between-within : (o : Option ℤ) (low high : ℤ) → within low high (int_between o low high) ≡ true
unfolding int_between
int_between-within none low high = refl
int_between-within (some v) low high = bounded_number-within v low high

bounded_float-within :
    (py : PyText) (raw : String) (low high : ℤ)
    → within low high (bounded_float py raw low high) ≡ true
unfolding bounded_float
bounded_float-within py raw low high = float_between-within (py.float_of raw) low high

bounded_int-within :
    (py : PyText) (raw : String) (low high : ℤ)
    → within low high (bounded_int py raw low high) ≡ true
unfolding bounded_int
bounded_int-within py raw low high = int_between-within (py.int_of raw) low high

keep-within :
    (new old : Option ℤ) (low high : ℤ)
    → within low high new ≡ true
    → within low high old ≡ true
    → within low high (keep new old) ≡ true
keep-within none old low high h k = k
keep-within (some v) old low high h k = h

float_kept :
    (py : PyText) (raw : String) (old : Option ℤ) (low high : ℤ)
    → within low high old ≡ true
    → within low high (keep (bounded_float py raw low high) old) ≡ true
float_kept py raw old low high =
    keep-within (bounded_float py raw low high) old low high (bounded_float-within py raw low high)

int_kept :
    (py : PyText) (raw : String) (old : Option ℤ) (low high : ℤ)
    → within low high old ≡ true
    → within low high (keep (bounded_int py raw low high) old) ≡ true
int_kept py raw old low high =
    keep-within (bounded_int py raw low high) old low high (bounded_int-within py raw low high)

read_metric-IsPlausible :
    (py : PyText) (name raw : String) (m : HostMetrics)
    → IsPlausible m
    → IsPlausible (read_metric py name raw m)
unfolding read_metric
read_metric-IsPlausible py name raw m h =
    let cpu = float_kept py raw m.cpu_percent (pos 0) (pos 100000000) h.cpu in
    let load = float_kept py raw m.load1 (pos 0) max_load h.load in
    let total = int_kept py raw m.mem_total_kb (pos 0) max_memory_kb h.total in
    let available = int_kept py raw m.mem_available_kb (pos 0) max_memory_kb h.available in
    let uptime = float_kept py raw m.uptime_s (pos 0) max_uptime_s h.uptime in
    let disk = int_kept py raw m.root_free_kb (pos 0) max_disk_kb h.disk in
    let rail = float_kept py raw m.vccaux_v (pos 500000) (pos 3000000) h.rail in
    record {
      cpu = ground (arith, h.cpu, cpu);
      load = ground (arith, h.load, load);
      total = ground (arith, h.total, total);
      available = ground (arith, h.available, available);
      uptime = ground (arith, h.uptime, uptime);
      disk = ground (arith, h.disk, disk);
      rail = ground (arith, h.rail, rail);
    }

read_token-IsPlausible :
    (py : PyText) (token : String) (m : HostMetrics)
    → IsPlausible m
    → IsPlausible (read_token py token m)
unfolding read_token
read_token-IsPlausible py token m h =
    let (name, separator, raw) = py.partition token in
    if_intro IsPlausible (not separator) m (read_metric py name raw m) (λ _. h)
      (λ _. read_metric-IsPlausible py name raw m h)

read_tokens-IsPlausible :
    (py : PyText) (tokens : List String) (m : HostMetrics)
    → IsPlausible m
    → IsPlausible (read_tokens py tokens m)
unfolding read_tokens
read_tokens-IsPlausible py [] m h = h
read_tokens-IsPlausible py (token ∷ rest) m h =
    read_tokens-IsPlausible py rest (read_token py token m) (read_token-IsPlausible py token m h)

drop_garbled-IsPlausible : (m : HostMetrics) → IsPlausible m → IsPlausible (drop_garbled m)
unfolding drop_garbled
drop_garbled-IsPlausible m h =
    if_intro IsPlausible (exceeds m.mem_available_kb m.mem_total_kb)
      (record m { mem_available_kb = none }) m
      (λ _. record {
        cpu = h.cpu;
        load = h.load;
        total = h.total;
        available = refl;
        uptime = h.uptime;
        disk = h.disk;
        rail = h.rail;
      })
      (λ _. h)

drop_garbled-exceeds :
    (m : HostMetrics)
    → exceeds (drop_garbled m).mem_available_kb (drop_garbled m).mem_total_kb ≡ false
unfolding drop_garbled exceeds
drop_garbled-exceeds m = ground arith

-- The metrics of any tail, however garbled: each one that is present lies in its bounds, and the
-- available memory is not above the total.
pub parse_metrics_tail-IsPlausible :
    (py : PyText) (tail : String)
    → let m = parse_metrics_tail py tail in
      IsPlausible m × (exceeds m.mem_available_kb m.mem_total_kb ≡ false)
unfolding parse_metrics_tail
parse_metrics_tail-IsPlausible py tail =
    let m = read_tokens py (py.split tail) empty_metrics in
    let start : IsPlausible empty_metrics = record {
      cpu = refl;
      load = refl;
      total = refl;
      available = refl;
      uptime = refl;
      disk = refl;
      rail = refl;
    } in
    (
      drop_garbled-IsPlausible m (read_tokens-IsPlausible py (py.split tail) empty_metrics start),
      drop_garbled-exceeds m,
    )

-- A reading that is accepted as running: its temperature lies in the plausible range, its metrics are
-- present and plausible, and there is no error.
abbrev pub IsAccepted : Reading → Type 0
IsAccepted r =
    (t : ℤ) × (m : HostMetrics) × (r.temperature_c ≡ some t)
    × (leb_ℤ min_temperature t && leb_ℤ t max_temperature ≡ true)
    × (r.metrics ≡ some m)
    × IsPlausible m
    × (r.error ≡ none)

-- A reading that is not accepted carries an error text, and neither a temperature nor metrics.
abbrev pub IsRefused : Reading → Type 0
IsRefused r = (is_some r.error ≡ true) × (r.temperature_c ≡ none) × (r.metrics ≡ none)

abbrev Verdict : Reading → Type 0
Verdict r = IsAccepted r ⊎ IsRefused r

parse_temperature-Verdict :
    (py : PyText) (raw : String) (rest : List String) (t : Float)
    → Verdict (parse_temperature py raw rest t)
unfolding parse_temperature
parse_temperature-Verdict py raw rest invalid = inr (refl, refl, refl)
parse_temperature-Verdict py raw rest non_finite = inr (refl, refl, refl)
parse_temperature-Verdict py raw rest (finite t) =
    if_intro Verdict (not (leb_ℤ min_temperature t && leb_ℤ t max_temperature)) _ _
      (λ _. inr (refl, refl, refl))
      (λ p.
        let (plausible, _) = parse_metrics_tail-IsPlausible py (tail_of rest) in
        inl (t, parse_metrics_tail py (tail_of rest), refl, ground arith, refl, plausible, refl))

parse_parts-Verdict : (py : PyText) (parts : List String) → Verdict (parse_parts py parts)
unfolding parse_parts
parse_parts-Verdict py [] = inr (refl, refl, refl)
parse_parts-Verdict py (id ∷ []) =
    if_intro Verdict (not (str_eq id "RPT1")) _ _ (λ _. inr (refl, refl, refl))
      (λ _. inr (refl, refl, refl))
parse_parts-Verdict py (id ∷ second ∷ rest) =
    if_intro Verdict (not (str_eq id "RPT1")) _ _ (λ _. inr (refl, refl, refl))
      (λ _.
        if_intro Verdict (str_eq second "ERR") _ _ (λ _. inr (refl, refl, refl))
          (λ _. parse_temperature-Verdict py second rest (py.float_of second)))

-- Every STATUS line is either accepted with a plausible temperature and plausible metrics, or refused
-- with an error text and neither of them.
pub parse_status_line-IsAccepted :
    (py : PyText) (line : String)
    → IsAccepted (parse_status_line py line) ⊎ IsRefused (parse_status_line py line)
unfolding parse_status_line
parse_status_line-IsAccepted py line =
    if_intro Verdict (str_eq (py.strip line) "") _ _ (λ _. inr (refl, refl, refl))
      (λ _. parse_parts-Verdict py (py.split_twice (py.strip line)))
