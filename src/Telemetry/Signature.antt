-- ===== src/Telemetry/Signature.antt =====
-- linien-gateway/app/rp_telemetry.py: _quantize, _metrics_signature and _material_signature, which
-- decide whether a status frame is pushed. A quotient is rounded exactly, as Python's `round` does.
use linien_multi_device.Prelude.{
  ℕ, suc, ◌+◌, ◌*◌, ◌/◌, ◌%◌, ℤ, pos, negsuc, leb_ℤ, Bool, true, false, not, ◌&&◌, Option, none,
  some, String, str_eq, ltb, ◌==◌, if◌then◌else◌,
}
use linien_multi_device.Prelude.Int.{sub_ℕ}
use linien_multi_device.Telemetry.{
  State, unknown, not_installed, running, stopped, offline, stale, error, version_mismatch,
  HostMetrics, mem_used_percent, Entry,
}

-- To the nearest integer, a half to the even one.
round_ratio : ℕ → ℕ → ℕ
round_ratio n step =
    let q = n / step in
    let r = n % step in
    if ltb (2 * r) step then q else if ltb step (2 * r) then q + 1 else q + q % 2

round_signed : ℤ → ℕ → ℤ
unfolding round_ratio
round_signed (pos n) step = pos (round_ratio n step)
round_signed (negsuc n) step = sub_ℕ 0 (round_ratio (suc n) step)

pub quantize : Option ℤ → ℕ → Option ℤ
unfolding round_signed
quantize none step = none
quantize (some value) step = some (round_signed value step)

pub record MetricsSignature : Type 0 where
  pub cpu : Option ℤ
  pub memory : Option ℤ
  pub disk : Option ℤ
  pub rail : Option ℤ

pub metrics_signature : HostMetrics → MetricsSignature
unfolding quantize
metrics_signature m = record {
  cpu = quantize m.cpu_percent 5000000;
  memory = quantize (mem_used_percent m) 1000000;
  disk = quantize m.root_free_kb 102400;
  rail = quantize m.vccaux_v 10000;
}

pub record Signature : Type 0 where
  pub state : State
  pub temperature : Option ℤ
  pub version : Option String
  pub error : Option String
  pub installed : Bool
  pub metrics : MetricsSignature

pub material_signature : Entry → State → Signature
unfolding quantize metrics_signature
material_signature e state = record {
  state = state;
  temperature = quantize e.temperature_c 100000;
  version = e.version;
  error = e.error;
  installed = e.installed;
  metrics = metrics_signature e.metrics;
}

-- The order of the states in the source, to compare them by.
abbrev code : State → ℕ
code unknown = 0
code not_installed = 1
code running = 2
code stopped = 3
code offline = 4
code stale = 5
code error = 6
code version_mismatch = 7

same_number : Option ℤ → Option ℤ → Bool
same_number none none = true
same_number (some a) (some b) = leb_ℤ a b && leb_ℤ b a
same_number _ _ = false

pub same_text : Option String → Option String → Bool
same_text none none = true
same_text (some a) (some b) = str_eq a b
same_text _ _ = false

same_flag : Bool → Bool → Bool
same_flag true b = b
same_flag false b = not b

-- The comparison of two tuples.
pub same_signature : Signature → Signature → Bool
unfolding same_number same_text same_flag
same_signature a b =
    code a.state == code b.state
    && same_number a.temperature b.temperature
    && same_text a.version b.version
    && same_text a.error b.error
    && same_flag a.installed b.installed
    && same_number a.metrics.cpu b.metrics.cpu
    && same_number a.metrics.memory b.metrics.memory
    && same_number a.metrics.disk b.metrics.disk
    && same_number a.metrics.rail b.metrics.rail
