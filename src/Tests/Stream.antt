-- ===== src/Tests/Stream.antt =====
-- Concrete runs of linien-gateway/app/stream.py.
use linien_multi_device.Prelude.{
  ℕ, pos, true, false, none, some, List, [], ◌∷◌, ◌++◌, ◌≡◌, refl, arith,
}
use linien_multi_device.Prelude.Assoc.{lookup}
use linien_multi_device.Stream.Connections.{
  Message, Connection, summary, filter_plot_frame, is_full,
}
use linien_multi_device.Stream.{
  WebsocketManager, broadcast, peek_required_detail, required_detail, connections_of,
}
use linien_multi_device.Stream.Rates.{taken, IsSpaced, taken-IsSpaced}
use linien_multi_device.Stream.Details.{broadcast-summary}
use linien_multi_device.Stream.Delivery.{
  Exchange, arrive, take, final, sent, accepted, reliables, IsSorted,
}
use linien_multi_device.Stream.Delivery.Order.{sent-accepted}

abbrev status : Message ℕ
status = record { is_plot_frame = false; series = none; content = 1 }

abbrev frame : Message ℕ
frame = record {
  is_plot_frame = true;
  series = some (("combined_error", 4) ∷ ("error_quadrature", 5) ∷ []);
  content = 2;
}

-- At 10 Hz, with an empty queue.
abbrev viewer : Connection ℕ
viewer = record {
  websocket = 0;
  max_fps = some (pos 10000000);
  detail = summary;
  binary = false;
  last_plot = pos 0;
  reliable_queue = [];
  latest_plot_message = none;
  wake_event = false;
}

abbrev manager : WebsocketManager ℕ
manager = record {
  connections = ("d1", viewer ∷ []) ∷ [];
  default_plot_fps = some (pos 60000000);
  max_plot_fps_cap = some (pos 60000000);
  drop_old_plot_frames = true;
  reliable_queue_size = 10;
  closed = [];
}

abbrev exchanges : List (Exchange ℕ)
exchanges =
    arrive frame (pos 1000000)
    ∷ arrive status (pos 1000001)
    ∷ take
    ∷ arrive frame (pos 1010000)
    ∷ take
    ∷ arrive status (pos 1020000)
    ∷ []

viewer-IsSorted : IsSorted 10 viewer
viewer-IsSorted = record { queued = tt; latest = refl; bounded = omega arith }

taken-IsSpaced_example :
    IsSpaced
      (pos 10000000)
      (pos 0)
      (taken true ((frame, pos 1000000) ∷ (frame, pos 1050000) ∷ (frame, pos 1100000) ∷ []) viewer)
taken-IsSpaced_example =
    taken-IsSpaced true ((frame, pos 1000000) ∷ (frame, pos 1050000) ∷ (frame, pos 1100000) ∷ [])
      (pos 10000000) viewer refl

manager-peek : peek_required_detail "d1" manager ≡ some summary
unfolding peek_required_detail required_detail connections_of is_full lookup
manager-peek = refl

broadcast-summary_example :
    broadcast (λ w. pos 1000000) "d1" (filter_plot_frame frame summary) manager
    ≡ broadcast (λ w. pos 1000000) "d1" frame manager
broadcast-summary_example =
    broadcast-summary (λ w. pos 1000000) "d1" frame manager refl manager-peek

sent-accepted_example :
    reliables (sent 10 true exchanges viewer) ++ (final 10 true exchanges viewer).reliable_queue
    ≡ [] ++ accepted 10 true exchanges viewer
sent-accepted_example = sent-accepted 10 true exchanges viewer viewer-IsSorted
