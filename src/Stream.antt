-- ===== src/Stream.antt =====
-- linien-gateway/app/stream.py: the class WebsocketManager, which hands a device's messages to the
-- websockets that watch it. The sender task of a connection is the sequence of its `dequeue_next` calls.
pub mod Connections
pub mod Rates
pub mod Details
pub mod Delivery
use linien_multi_device.Prelude.{
  ℕ, suc, ◌+◌, ℤ, pos, ◌-ℤ◌, ◌*ℤ◌, ltb_ℤ, leb_ℤ, min_ℤ, max_ℤ, Bool, true, false, not, ◌&&◌, ◌||◌,
  Option, none, some, is_some, String, List, [], ◌∷◌, ◌++◌, str_eq, if◌then◌else◌, filter, map,
  ◌==◌, any, length, ltb,
}
use linien_multi_device.Prelude.Int.{to_ℕ}
use linien_multi_device.Prelude.Assoc.{Assoc, lookup, insert, erase}
use linien_multi_device.Stream.Connections.{
  Detail, Message, Connection, normalize_positive_fps, cap_fps, or_else, resolve_fps,
  is_summary_key, is_full, is_throttled, filter_series, filter_plot_frame, set_rate,
  enqueue_plot_frame, note_plot, offer_plot, queue_full, offer_reliable, dequeue_from, dequeue_next,
  summary, full,
}

-- `closed` are the websockets that drop() closed.
pub record WebsocketManager (A : Type 0) : Type 0 where
  pub connections : Assoc (List (Connection A))
  pub default_plot_fps : Option ℤ
  pub max_plot_fps_cap : Option ℤ
  pub drop_old_plot_frames : Bool
  pub reliable_queue_size : ℕ
  pub closed : List ℕ

lower_default : Option ℤ → Option ℤ → Option ℤ
lower_default none cap = none
lower_default (some fps) none = some fps
lower_default (some fps) (some cap) = if ltb_ℤ cap fps then some cap else some fps

module _ {A : Type 0} where
  pub init : Option ℤ → Option ℤ → Bool → ℤ → WebsocketManager A
  unfolding lower_default normalize_positive_fps
  init default_fps cap drop_old size = record {
    connections = [];
    default_plot_fps =
        lower_default (normalize_positive_fps default_fps) (normalize_positive_fps cap);
    max_plot_fps_cap = normalize_positive_fps cap;
    drop_old_plot_frames = drop_old;
    reliable_queue_size = to_ℕ (max_ℤ (pos 10) size);
    closed = [];
  }

  pub resolve_max_fps : Option ℤ → WebsocketManager A → Option ℤ
  unfolding resolve_fps
  resolve_max_fps requested m = resolve_fps requested m.default_plot_fps m.max_plot_fps_cap

  unfoldable pub connections_of : Option (List (Connection A)) → List (Connection A)
  connections_of none = []
  connections_of (some cs) = cs

  -- `connections[websocket] = state`
  set_connection : Connection A → List (Connection A) → List (Connection A)
  set_connection c [] = c ∷ []
  set_connection c (d ∷ cs) =
      let rest = set_connection c cs in if d.websocket == c.websocket then c ∷ cs else d ∷ rest

  pub register : String → ℕ → Option ℤ → Detail → Bool → WebsocketManager A → WebsocketManager A
  unfolding resolve_max_fps set_connection connections_of
  register key websocket max_fps detail binary m =
      let state : Connection A = record {
        websocket = websocket;
        max_fps = resolve_max_fps max_fps m;
        detail = detail;
        binary = binary;
        last_plot = pos 0;
        reliable_queue = [];
        latest_plot_message = none;
        wake_event = false;
      } in
      record m {
        connections =
            insert key (set_connection state (connections_of (lookup key m.connections)))
              m.connections;
      }

  -- Change the connection of a websocket in place, where there is one.
  modify : (Connection A → Connection A) → ℕ → List (Connection A) → List (Connection A)
  modify change websocket [] = []
  modify change websocket (c ∷ cs) =
      let rest = modify change websocket cs in
      if c.websocket == websocket then change c ∷ cs else c ∷ rest

  update_found :
      String → ℕ → Option ℤ → Option (List (Connection A)) → WebsocketManager A → WebsocketManager A
  unfolding modify set_rate
  update_found key websocket fps none m = m
  update_found key websocket fps (some cs) m = record m {
    connections = insert key (modify (set_rate fps) websocket cs) m.connections;
  }

  pub update_max_fps : String → ℕ → Option ℤ → WebsocketManager A → WebsocketManager A
  unfolding update_found resolve_max_fps
  update_max_fps key websocket max_fps m =
      update_found key websocket (resolve_max_fps max_fps m) (lookup key m.connections) m

  without : ℕ → List (Connection A) → List (Connection A)
  without websocket cs = filter (λ (c : Connection A). not (c.websocket == websocket)) cs

  -- A device whose last connection goes is forgotten.
  keep_or_forget : String → List (Connection A) → WebsocketManager A → WebsocketManager A
  keep_or_forget key [] m = record m { connections = erase key m.connections }
  keep_or_forget key (c ∷ cs) m = record m { connections = insert key (c ∷ cs) m.connections }

  unregister_found :
      String → ℕ → Option (List (Connection A)) → WebsocketManager A → WebsocketManager A
  unfolding keep_or_forget without
  unregister_found key websocket none m = m
  unregister_found key websocket (some cs) m = keep_or_forget key (without websocket cs) m

  pub unregister : String → ℕ → WebsocketManager A → WebsocketManager A
  unfolding unregister_found
  unregister key websocket m = unregister_found key websocket (lookup key m.connections) m

  -- unregister(), then close the socket.
  pub drop : String → ℕ → WebsocketManager A → WebsocketManager A
  unfolding unregister
  drop key websocket m =
      let m' = unregister key websocket m in record m' { closed = m'.closed ++ websocket ∷ [] }

  pub stale : ℕ → List (Connection A) → List ℕ
  unfolding queue_full
  stale size [] = []
  stale size (c ∷ cs) =
      let rest = stale size cs in if queue_full size c then c.websocket ∷ rest else rest

  pub drop_all : String → List ℕ → WebsocketManager A → WebsocketManager A
  unfolding drop
  drop_all key [] m = m
  drop_all key (w ∷ ws) m = drop_all key ws (drop key w m)

  -- What a plot frame does to each connection; `clock` is time.monotonic() at a websocket's turn.
  pub offer_plots : (ℕ → ℤ) → Bool → Message A → List (Connection A) → List (Connection A)
  unfolding offer_plot
  offer_plots clock drop_old message [] = []
  offer_plots clock drop_old message (c ∷ cs) =
      offer_plot drop_old message (clock c.websocket) c ∷ offer_plots clock drop_old message cs

  pub broadcast_to :
      (ℕ → ℤ)
      → String
      → Message A
      → Option (List (Connection A))
      → WebsocketManager A
      → WebsocketManager A
  unfolding offer_plots offer_reliable stale drop_all
  broadcast_to clock key message none m = m
  broadcast_to clock key message (some cs) m =
      if message.is_plot_frame
      then record m {
        connections =
            insert key (offer_plots clock m.drop_old_plot_frames message cs) m.connections;
      }
      else drop_all key (stale m.reliable_queue_size cs) (record m {
        connections =
            insert key (map (offer_reliable m.reliable_queue_size message) cs) m.connections;
      })

  pub broadcast : (ℕ → ℤ) → String → Message A → WebsocketManager A → WebsocketManager A
  unfolding broadcast_to
  broadcast clock key message m = broadcast_to clock key message (lookup key m.connections) m

  unfoldable pub required_detail : List (Connection A) → Option Detail
  unfolding is_full
  required_detail [] = none
  required_detail (c ∷ cs) =
      if any (λ (d : Connection A). is_full d.detail) (c ∷ cs) then some full else some summary

  unfoldable pub peek_required_detail : String → WebsocketManager A → Option Detail
  unfolding required_detail connections_of
  peek_required_detail key m = required_detail (connections_of (lookup key m.connections))

  find_connection : ℕ → List (Connection A) → Option (Connection A)
  find_connection websocket [] = none
  find_connection websocket (c ∷ cs) =
      if c.websocket == websocket then some c else find_connection websocket cs

  send_found :
      String
      → ℕ
      → Message A
      → Option (Connection A)
      → WebsocketManager A
      → WebsocketManager A × Bool
  unfolding queue_full offer_reliable modify connections_of
  send_found key websocket message none m = (m, false)
  send_found key websocket message (some c) m =
      if queue_full m.reliable_queue_size c then (drop key websocket m, false) else (
        record m {
          connections =
              insert key
                (modify (offer_reliable m.reliable_queue_size message) websocket
                  (connections_of (lookup key m.connections)))
                m.connections;
        },
        true,
      )

  pub send_initial : String → ℕ → Message A → WebsocketManager A → WebsocketManager A × Bool
  unfolding send_found find_connection connections_of
  send_initial key websocket message m =
      send_found key websocket message
        (find_connection websocket (connections_of (lookup key m.connections))) m
