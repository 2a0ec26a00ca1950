-- ===== src/Diagnosis/Verdict.antt =====
-- What a diagnosis says, against what the board answered (linien-gateway/app/diagnosis.py).
use linien_multi_device.Prelude.{
  ℤ, Bool, true, false, not, Option, none, some, String, ◌≡◌, ◌≢◌, refl, arith, str_eq, eq_iff,
}
use linien_multi_device.BoardEvents.{is_given}
use linien_multi_device.Diagnosis.{
  Ssh, connected, LockRead, read_lock_bit, looks_rebooted, should_read, probe_ssh, probe_device,
  rebooted, locked, register_not_read, Diagnosis, judge, judge_up, judge_crashed, judge_gateware,
  has_bit, is_true, failed_result, classify_diagnosis, auth_failed, unreachable, unexpected,
}

-- Where both boot ids are known, the board counts as rebooted exactly when they differ, whatever the
-- uptime and the absence are.
pub looks_rebooted-boot_id :
    (uptime : ℤ) (since : Option ℤ) (threshold : ℤ) (known boot_id : String)
    → known ≢ ""
    → boot_id ≢ ""
    → looks_rebooted uptime since threshold (some known) (some boot_id) ≡ not (str_eq known boot_id)
unfolding looks_rebooted is_given
looks_rebooted-boot_id uptime since threshold known boot_id k b =
    ground (arith, eq_iff known "", eq_iff boot_id "")

module _ (host : String) (tcp_accepts : Bool) (since : Option ℤ) (probed_at threshold : ℤ)
    (known : Option String) where
  abbrev pub diagnose : Bool → Ssh → Diagnosis
  diagnose read_lock_register ssh =
      classify_diagnosis
        (probe_device host tcp_accepts read_lock_register since threshold known ssh) host since
        probed_at threshold known

  -- The lock is reported as confirmed only if the board answered over SSH with its gateware loaded
  -- and no sign of a reboot, and its lock register was read as 1.
  pub diagnosis_locked :
      (read_lock_register : Bool) (ssh : Ssh)
      → (diagnose read_lock_register ssh).lock_state ≡ locked
      → (uptime : ℤ) × (boot_id : Option String) × (register : LockRead) × (ssh
          ≡ connected (some uptime) (some true) boot_id register)
        × (looks_rebooted uptime since threshold known boot_id ≡ false)
        × ((read_lock_bit register).0 ≡ some 1)
  unfolding classify_diagnosis judge judge_up judge_crashed judge_gateware has_bit probe_device
      probe_ssh should_read is_true failed_result
  diagnosis_locked read_lock_register (connected (some uptime) (some true) boot_id register) h =
      (uptime, boot_id, register, refl, ground arith, ground arith)
  diagnosis_locked read_lock_register (connected (some uptime) (some false) boot_id register) h =
      ground arith
  diagnosis_locked read_lock_register (connected (some uptime) none boot_id register) h =
      ground arith
  diagnosis_locked read_lock_register (connected none fpga boot_id register) h = ground arith
  diagnosis_locked read_lock_register (auth_failed text) h = ground arith
  diagnosis_locked read_lock_register (unreachable text) h = ground arith
  diagnosis_locked read_lock_register (unexpected text) h = ground arith

  -- The probe and the classifier agree on the reboot: with the register read allowed, a diagnosis
  -- never says that the register was not read.
  pub diagnosis_reads : (ssh : Ssh) → (diagnose true ssh).message ≢ register_not_read
  unfolding classify_diagnosis judge judge_up judge_crashed judge_gateware has_bit probe_device
      probe_ssh should_read is_true failed_result
  diagnosis_reads (connected (some uptime) (some true) boot_id register) h = ground arith
  diagnosis_reads (connected (some uptime) (some false) boot_id register) h = ground arith
  diagnosis_reads (connected (some uptime) none boot_id register) h = ground arith
  diagnosis_reads (connected none fpga boot_id register) h = ground arith
  diagnosis_reads (auth_failed text) h = ground arith
  diagnosis_reads (unreachable text) h = ground arith
  diagnosis_reads (unexpected text) h = ground arith

  -- A board that counts as rebooted never has its lock register read.
  pub diagnosis_rebooted :
      (read_lock_register : Bool) (ssh : Ssh)
      → (diagnose read_lock_register ssh).category ≡ rebooted
      → (probe_device host tcp_accepts read_lock_register since threshold known
          ssh).lock_read_attempted
        ≡ false
  unfolding classify_diagnosis judge judge_up judge_crashed judge_gateware has_bit probe_device
      probe_ssh should_read is_true failed_result
  diagnosis_rebooted read_lock_register (connected (some uptime) (some true) boot_id register) h =
      ground arith
  diagnosis_rebooted read_lock_register (connected (some uptime) (some false) boot_id register) h =
      ground arith
  diagnosis_rebooted read_lock_register (connected (some uptime) none boot_id register) h =
      ground arith
  diagnosis_rebooted read_lock_register (connected none fpga boot_id register) h = ground arith
  diagnosis_rebooted read_lock_register (auth_failed text) h = ground arith
  diagnosis_rebooted read_lock_register (unreachable text) h = ground arith
  diagnosis_rebooted read_lock_register (unexpected text) h = ground arith
