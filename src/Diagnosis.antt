-- ===== src/Diagnosis.antt =====
-- linien-gateway/app/diagnosis.py: the out-of-band probe of a disconnected board and its verdict. What
-- the network answers is an argument: whether the TCP port accepts, and how the SSH session ends.
-- Times are integers, in microseconds. The message is a value here; its text is left out.
pub mod Verdict
pub mod Schedule
use linien_multi_device.Prelude.{
  ℕ, ◌%◌, ℤ, ltb_ℤ, Bool, true, false, not, ◌&&◌, Option, none, some, is_some, String, List, [],
  ◌∷◌, ◌++◌, str_eq, if◌then◌else◌, ◌==◌,
}
use linien_multi_device.BoardEvents.{is_given}

-- Why the lock register gave no value: what each method said, or an exception of the read itself.
pub data Detail : Type 0 where
  failures : List (String × String) → Detail
  raised : String → Detail

pub record ProbeResult : Type 0 where
  pub server_listening : Bool
  pub host_reachable : Bool
  pub uptime_s : Option ℤ
  pub fpga_operating : Option Bool
  pub lock_bit : Option ℕ
  pub error : Option String
  pub boot_id : Option String
  pub lock_read_attempted : Bool
  pub lock_read_detail : Option Detail

-- What one register-read command came to, as _run_lock_bit_cmd tells it from the exit code and the
-- output: the integer that it printed, or the failure text.
pub data CommandOutcome : Type 0 where
  value : ℕ → CommandOutcome
  failed : String → CommandOutcome

-- _run_lock_bit_cmd: bit 0 of the value.
unfoldable pub run_lock_bit_cmd : CommandOutcome → Option ℕ × Option String
run_lock_bit_cmd (value n) = (some (n % 2), none)
run_lock_bit_cmd (failed text) = (none, some text)

unfoldable pub or_no_value : Option String → String
or_no_value none = "no value"
or_no_value (some text) = text

-- The loop of _read_lock_bit over the methods, with the failures so far.
unfoldable pub read_methods :
    List (String × CommandOutcome) → List (String × String) → Option ℕ × Option Detail
unfolding run_lock_bit_cmd or_no_value
read_methods [] fails = (none, some (failures fails))
read_methods ((name, outcome) ∷ rest) fails =
    let (bit, detail) = run_lock_bit_cmd outcome in
    let later = read_methods rest (fails ++ (name, or_no_value detail) ∷ []) in
    elim bit [ some b ↦ (some b, none) | none ↦ later ]

-- The register read as probe_device sees it: its methods in order, or an exception.
pub data LockRead : Type 0 where
  methods : List (String × CommandOutcome) → LockRead
  read_raised : String → LockRead

unfoldable pub read_lock_bit : LockRead → Option ℕ × Option Detail
unfolding read_methods
read_lock_bit (methods ms) = read_methods ms []
read_lock_bit (read_raised text) = (none, some (raised text))

-- How the SSH session of a probe ends: connected, with the uptime, the FPGA state and the boot id
-- that the compound command gave and what the register would answer; or with an exception.
pub data Ssh : Type 0 where
  connected : Option ℤ → Option Bool → Option String → LockRead → Ssh
  auth_failed unreachable unexpected : String → Ssh

unfoldable pub differ : Option String → Option String → Bool
differ (some a) (some b) = not (str_eq a b)
differ _ _ = false

unfoldable pub younger_than : ℤ → Option ℤ → ℤ → Bool
younger_than uptime none threshold = ltb_ℤ uptime threshold
younger_than uptime (some since) threshold = ltb_ℤ uptime since

-- _looks_rebooted: by the boot ids where both are known, else by the uptime.
unfoldable pub looks_rebooted : ℤ → Option ℤ → ℤ → Option String → Option String → Bool
unfolding differ younger_than
looks_rebooted uptime_s since threshold known_boot_id boot_id =
    if is_given known_boot_id && is_given boot_id
    then differ known_boot_id boot_id
    else younger_than uptime_s since threshold

unfoldable pub is_true : Option Bool → Bool
is_true (some true) = true
is_true _ = false

unfoldable pub should_read :
    Bool → Option ℤ → Option Bool → Option ℤ → ℤ → Option String → Option String → Bool
unfolding is_true
should_read read_lock_register none fpga since threshold known boot_id = false
should_read read_lock_register (some uptime) fpga since threshold known boot_id =
    read_lock_register && is_true fpga && not (looks_rebooted uptime since threshold known boot_id)

unfoldable pub failed_result : Bool → String → ProbeResult
failed_result reachable text = record {
  server_listening = false;
  host_reachable = reachable;
  uptime_s = none;
  fpga_operating = none;
  lock_bit = none;
  error = some text;
  boot_id = none;
  lock_read_attempted = false;
  lock_read_detail = none;
}

unfoldable pub probe_ssh : Bool → Option ℤ → ℤ → Option String → Ssh → ProbeResult
unfolding failed_result
probe_ssh read_lock_register since threshold known (connected uptime fpga boot_id register) =
    let attempted = should_read read_lock_register uptime fpga since threshold known boot_id in
    let (bit, detail) = if attempted then read_lock_bit register else (none, none) in
    record {
      server_listening = false;
      host_reachable = true;
      uptime_s = uptime;
      fpga_operating = fpga;
      lock_bit = bit;
      error = none;
      boot_id = boot_id;
      lock_read_attempted = attempted;
      lock_read_detail = if is_some bit then none else detail;
    }
probe_ssh read_lock_register since threshold known (auth_failed text) = failed_result true text
probe_ssh read_lock_register since threshold known (unreachable text) = failed_result false text
probe_ssh read_lock_register since threshold known (unexpected text) = failed_result false text

-- `host` is the device's, "" where it has none; _tcp_open says false for that one.
unfoldable pub probe_device :
    String → Bool → Bool → Option ℤ → ℤ → Option String → Ssh → ProbeResult
probe_device host tcp_accepts read_lock_register since threshold known ssh =
    if not (str_eq host "") && tcp_accepts
    then record {
      server_listening = true;
      host_reachable = true;
      uptime_s = none;
      fpga_operating = none;
      lock_bit = none;
      error = none;
      boot_id = none;
      lock_read_attempted = false;
      lock_read_detail = none;
    }
    else probe_ssh read_lock_register since threshold known ssh

pub data Category : Type 0 where
  recovering host_unreachable server_down_unknown rebooted server_crashed : Category

pub data LockState : Type 0 where
  unknown lost locked unlocked likely_held : LockState

pub data Message : Type 0 where
  reconnecting board_state_unread lock_lost_by_reboot still_locked not_locked : Message
  gateware_not_loaded fpga_unread register_not_read : Message
  cannot_reach : String → Message
  register_unreadable : Option Detail → Message

pub data Evidence : Type 0 where
  boot_id absence uptime_threshold : Evidence

pub record Diagnosis : Type 0 where
  pub category : Category
  pub lock_state : LockState
  pub message : Message
  pub probed_at : ℤ
  pub uptime_s : Option ℤ
  pub host_reachable : Bool
  pub server_running : Bool
  pub fpga_operating : Option Bool
  pub lock_read_detail : Option Detail
  pub seconds_since_last_connected : Option ℤ
  pub boot_id : Option String
  pub known_boot_id : Option String
  pub reboot_evidence : Evidence

unfoldable pub has_bit : ℕ → Option ℕ → Bool
has_bit n none = false
has_bit n (some b) = b == n

-- The verdict on a board that runs without linien-server, when the register gave no value.
unfoldable pub judge_gateware : Option Bool → Bool → Option Detail → LockState × Message
judge_gateware (some false) attempted detail = (lost, gateware_not_loaded)
judge_gateware none attempted detail = (unknown, fpga_unread)
judge_gateware (some true) false detail = (likely_held, register_not_read)
judge_gateware (some true) true detail = (likely_held, register_unreadable detail)

unfoldable pub judge_crashed : ProbeResult → LockState × Message
unfolding has_bit judge_gateware
judge_crashed r =
    if has_bit 1 r.lock_bit
    then (locked, still_locked)
    else if has_bit 0 r.lock_bit
    then (unlocked, not_locked)
    else judge_gateware r.fpga_operating r.lock_read_attempted r.lock_read_detail

unfoldable pub judge_up :
    ProbeResult → Option ℤ → Option ℤ → ℤ → Option String → Category × LockState × Message
unfolding judge_crashed
judge_up r none since threshold known = (server_down_unknown, unknown, board_state_unread)
judge_up r (some uptime) since threshold known =
    if looks_rebooted uptime since threshold known r.boot_id
    then (rebooted, lost, lock_lost_by_reboot)
    else (let (state, message) = judge_crashed r in (server_crashed, state, message))

-- The ladder of classify_diagnosis.
unfoldable pub judge :
    ProbeResult → String → Option ℤ → ℤ → Option String → Category × LockState × Message
unfolding judge_up
judge r host since threshold known =
    if r.server_listening
    then (recovering, unknown, reconnecting)
    else if not r.host_reachable
    then (host_unreachable, unknown, cannot_reach host)
    else judge_up r r.uptime_s since threshold known

unfoldable pub classify_diagnosis :
    ProbeResult → String → Option ℤ → ℤ → ℤ → Option String → Diagnosis
unfolding judge
classify_diagnosis r host since probed_at threshold known =
    let (category, lock_state, message) = judge r host since threshold known in
    record {
      category = category;
      lock_state = lock_state;
      message = message;
      probed_at = probed_at;
      uptime_s = r.uptime_s;
      host_reachable = r.host_reachable;
      server_running = r.server_listening;
      fpga_operating = r.fpga_operating;
      lock_read_detail = r.lock_read_detail;
      seconds_since_last_connected = since;
      boot_id = r.boot_id;
      known_boot_id = known;
      reboot_evidence =
          if is_given known && is_given r.boot_id
          then boot_id
          else if is_some since
          then absence
          else uptime_threshold;
    }
