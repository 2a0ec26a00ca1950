-- ===== src/Stream/Details.antt =====
-- Which detail of a plot frame a producer has to publish (linien-gateway/app/stream.py).
use linien_multi_device.Prelude.{
  ℕ, ℤ, Bool, true, false, Option, none, some, String, List, [], ◌∷◌, ◌≡◌, refl, arith,
  if◌then◌else◌, filter, any, ap,
}
use linien_multi_device.Prelude.Assoc.{Assoc, lookup}
use linien_multi_device.Stream.Connections.{
  Detail, Message, Connection, summary, full, is_summary_key, filter_series, filter_plot_frame,
  offer_plot, is_full, is_throttled, note_plot, enqueue_plot_frame,
}
use linien_multi_device.Stream.{
  WebsocketManager, offer_plots, broadcast_to, broadcast, peek_required_detail, required_detail,
  connections_of,
}

module _ {A : Type 0} where
  filter-twice :
      (series : Assoc A)
      → filter
          (λ (kv : String × A). is_summary_key kv.0)
          (filter (λ (kv : String × A). is_summary_key kv.0) series)
        ≡ filter (λ (kv : String × A). is_summary_key kv.0) series
  filter-twice [] = refl
  filter-twice ((k, v) ∷ rest) = ground (arith, filter-twice rest)

  filter_series-twice :
      (series : Option (Assoc A)) → filter_series (filter_series series) ≡ filter_series series
  unfolding filter_series
  filter_series-twice none = refl
  filter_series-twice (some series) = ap some (filter-twice series)

  -- A summary of a summary is the summary.
  filter_plot_frame-twice :
      (message : Message A)
      → filter_plot_frame (filter_plot_frame message summary) summary
        ≡ filter_plot_frame message summary
  unfolding filter_plot_frame
  filter_plot_frame-twice message =
      ap (λ s. record message { series = s }) (filter_series-twice message.series)

  payload-summary :
      (message : Message A) (d : Detail)
      → is_full d ≡ false
      → filter_plot_frame (filter_plot_frame message summary) d ≡ filter_plot_frame message d
  unfolding is_full
  payload-summary message summary h = filter_plot_frame-twice message
  payload-summary message full h = ground arith

  offer_plot-summary :
      (drop_old : Bool) (message : Message A) (now : ℤ) (c : Connection A)
      → is_full c.detail ≡ false
      → offer_plot drop_old (filter_plot_frame message summary) now c
        ≡ offer_plot drop_old message now c
  unfolding offer_plot
  offer_plot-summary drop_old message now c h =
      ap
        (λ payload.
          if is_throttled c.max_fps c.last_plot now
          then c
          else record (enqueue_plot_frame drop_old payload (note_plot c.max_fps now c)) {
            wake_event = true;
          })
        (payload-summary message c.detail h)

  offer_plots-summary :
      (clock : ℕ → ℤ) (drop_old : Bool) (message : Message A) (cs : List (Connection A))
      → any (λ (d : Connection A). is_full d.detail) cs ≡ false
      → offer_plots clock drop_old (filter_plot_frame message summary) cs
        ≡ offer_plots clock drop_old message cs
  unfolding offer_plots
  offer_plots-summary clock drop_old message [] h = refl
  offer_plots-summary clock drop_old message (c ∷ cs) h = ground (
    arith,
    offer_plot-summary drop_old message (clock c.websocket) c,
    offer_plots-summary clock drop_old message cs,
  )

  -- No subscriber wants full detail.
  not_full :
      (cs : List (Connection A))
      → required_detail cs ≡ some summary
      → any (λ (d : Connection A). is_full d.detail) cs ≡ false
  unfolding required_detail
  not_full [] h = refl
  not_full (c ∷ cs) h = ground arith

  broadcast_to-summary :
      (clock : ℕ → ℤ) (key : String) (message : Message A) (o : Option (List (Connection A)))
      (m : WebsocketManager A)
      → message.is_plot_frame ≡ true
      → required_detail (connections_of o) ≡ some summary
      → broadcast_to clock key (filter_plot_frame message summary) o m
        ≡ broadcast_to clock key message o m
  unfolding broadcast_to connections_of filter_plot_frame
  broadcast_to-summary clock key message none m p h = refl
  broadcast_to-summary clock key message (some cs) m p h =
      ground (arith, offer_plots-summary clock m.drop_old_plot_frames message cs, not_full cs)

  -- Where peek_required_detail asks for the summary alone, broadcasting the summary of a plot frame
  -- does to every connection what broadcasting the whole frame does: a producer may leave out the
  -- rest.
  pub broadcast-summary :
      (clock : ℕ → ℤ) (key : String) (message : Message A) (m : WebsocketManager A)
      → message.is_plot_frame ≡ true
      → peek_required_detail key m ≡ some summary
      → broadcast clock key (filter_plot_frame message summary) m ≡ broadcast clock key message m
  unfolding broadcast peek_required_detail
  broadcast-summary clock key message m p h =
      broadcast_to-summary clock key message (lookup key m.connections) m p h
