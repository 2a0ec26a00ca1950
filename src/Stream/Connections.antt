-- ===== src/Stream/Connections.antt =====
-- One connection of linien-gateway/app/stream.py: what a message does to its queue and its latest plot
-- frame, and which one its sender takes next. A websocket is a number. A frame rate is in millionths
-- of a hertz, a time in microseconds.
use linien_multi_device.Prelude.{
  ℕ, ℤ, pos, ◌-ℤ◌, ◌*ℤ◌, ltb_ℤ, leb_ℤ, min_ℤ, Bool, true, false, not, ◌||◌, Option, none, some,
  is_some, String, List, [], ◌∷◌, ◌++◌, str_eq, if◌then◌else◌, filter, any, length, ltb,
}
use linien_multi_device.Prelude.Assoc.{Assoc}

pub data Detail : Type 0 where
  summary full : Detail

-- A message: a plot frame or another one, its "series" where that is a dict, and the rest of it.
pub record Message (A : Type 0) : Type 0 where
  pub is_plot_frame : Bool
  pub series : Option (Assoc A)
  pub content : A

pub record Connection (A : Type 0) : Type 0 where
  pub websocket : ℕ
  pub max_fps : Option ℤ
  pub detail : Detail
  pub binary : Bool
  pub last_plot : ℤ
  pub reliable_queue : List (Message A)
  pub latest_plot_message : Option (Message A)
  pub wake_event : Bool

-- `none` stands for no value and for one that is not a finite number.
unfoldable pub normalize_positive_fps : Option ℤ → Option ℤ
normalize_positive_fps none = none
normalize_positive_fps (some fps) = if leb_ℤ fps (pos 0) then none else some fps

unfoldable pub cap_fps : Option ℤ → Option ℤ → Option ℤ
cap_fps none cap = none
cap_fps (some fps) none = some fps
cap_fps (some fps) (some cap) = some (min_ℤ fps cap)

unfoldable pub or_else : Option ℤ → Option ℤ → Option ℤ
or_else none default = default
or_else (some fps) default = some fps

unfoldable pub resolve_fps : Option ℤ → Option ℤ → Option ℤ → Option ℤ
unfolding normalize_positive_fps cap_fps or_else
resolve_fps requested default cap = cap_fps (or_else (normalize_positive_fps requested) default) cap

-- SUMMARY_SERIES_KEYS of linien-gateway/app/plot_processing.py.
abbrev summary_series_keys : List String
summary_series_keys =
    "combined_error" ∷ "control_signal" ∷ "error_signal_1" ∷ "error_signal_2" ∷ "monitor_signal"
    ∷ "control_signal_history" ∷ "monitor_signal_history" ∷ []

unfoldable pub is_summary_key : String → Bool
is_summary_key key = any (λ k. str_eq k key) summary_series_keys

unfoldable pub is_full : Detail → Bool
is_full full = true
is_full summary = false

-- `state.max_fps and now - state.last_plot < 1.0 / state.max_fps`; one second times one hertz is
-- 10 ^ 12 in the units of the model.
unfoldable pub is_throttled : Option ℤ → ℤ → ℤ → Bool
is_throttled none last_plot now = false
is_throttled (some fps) last_plot now = ltb_ℤ ((now -ℤ last_plot) *ℤ fps) (pos 1000000000000)

module _ {A : Type 0} where
  unfoldable pub filter_series : Option (Assoc A) → Option (Assoc A)
  filter_series none = none
  filter_series (some series) = some (filter (λ (kv : String × A). is_summary_key kv.0) series)

  unfoldable pub filter_plot_frame : Message A → Detail → Message A
  unfolding filter_series
  filter_plot_frame message full = message
  filter_plot_frame message summary = record message { series = filter_series message.series }

  unfoldable pub set_rate : Option ℤ → Connection A → Connection A
  set_rate fps c = record c { max_fps = fps; last_plot = pos 0 }

  unfoldable pub enqueue_plot_frame : Bool → Message A → Connection A → Connection A
  enqueue_plot_frame drop_old message c =
      if drop_old || not (is_some c.latest_plot_message)
      then record c { latest_plot_message = some message }
      else c

  unfoldable pub note_plot : Option ℤ → ℤ → Connection A → Connection A
  note_plot none now c = c
  note_plot (some fps) now c = record c { last_plot = now }

  -- The turn of broadcast() for a plot frame.
  unfoldable pub offer_plot : Bool → Message A → ℤ → Connection A → Connection A
  unfolding is_throttled note_plot enqueue_plot_frame filter_plot_frame
  offer_plot drop_old message now c =
      if is_throttled c.max_fps c.last_plot now
      then c
      else record (enqueue_plot_frame drop_old (filter_plot_frame message c.detail)
          (note_plot c.max_fps now c)) { wake_event = true }

  unfoldable pub queue_full : ℕ → Connection A → Bool
  queue_full size c = not (ltb (length c.reliable_queue) size)

  -- The turn for another message; a full queue stays as it is.
  unfoldable pub offer_reliable : ℕ → Message A → Connection A → Connection A
  unfolding queue_full
  offer_reliable size message c =
      if queue_full size c
      then c
      else record c { reliable_queue = c.reliable_queue ++ message ∷ []; wake_event = true }

  -- _dequeue_next: the reliable messages first, then the latest plot frame.
  unfoldable pub dequeue_from : List (Message A) → Connection A → Connection A × Option (Message A)
  dequeue_from [] c = (record c { latest_plot_message = none }, c.latest_plot_message)
  dequeue_from (message ∷ rest) c = (record c { reliable_queue = rest }, some message)

  unfoldable pub dequeue_next : Connection A → Connection A × Option (Message A)
  unfolding dequeue_from
  dequeue_next c = dequeue_from c.reliable_queue c
