-- ===== src/AutoRelock/Types.antt =====
-- The data of linien-gateway/app/auto_relock.py: the configuration, the controller's fields, what
-- tick() may hand out and what the event hook is told.
use linien_multi_device.Prelude.{ℕ, ℤ, Bool, Option, List, String}

-- Durations in microseconds.
pub record Config : Type 0 where
  pub enabled : Bool
  pub trigger_hold_s : ℤ
  pub verify_hold_s : ℤ
  pub cooldown_s : ℤ
  pub unlocked_trace_timeout_s : ℤ
  pub max_attempts : ℕ

pub data Phase : Type 0 where
  idle lost_pending waiting_unlocked_trace verifying cooldown : Phase

pub data Action : Type 0 where
  sweep relock : Action

-- The `state` field of the lock indicator's snapshot.
pub data Indicator : Type 0 where
  unknown locked marginal lost : Indicator

-- The texts that `_last_error` can hold; the two last ones carry the caller's error text.
pub data Reason : Type 0 where
  max_attempts_reached unlocked_trace_timeout verify_failed : Reason
  start_sweep_failed start_relock_failed : Option String → Reason

pub data Event : Type 0 where
  attempt : ℕ → ℕ → ℤ → Event
  success : ℕ → ℤ → Event
  failure : Reason → ℕ → ℕ → Phase → ℤ → Event

-- `emitted` is the sequence of calls of the event hook, where one is set.
pub record Controller : Type 0 where
  pub config : Config
  pub event_hook : Bool
  pub state : Phase
  pub lost_since : Option ℤ
  pub wait_since : Option ℤ
  pub verify_since : Option ℤ
  pub verify_good_since : Option ℤ
  pub cooldown_until : Option ℤ
  pub retry_primed : Bool
  pub pending_action : Option Action
  pub attempts : ℕ
  pub last_trigger_at : Option ℤ
  pub last_attempt_at : Option ℤ
  pub last_success_at : Option ℤ
  pub last_failure_at : Option ℤ
  pub last_error : Option Reason
  pub emitted : List Event
