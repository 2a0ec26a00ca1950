-- ===== src/Stream/Delivery.antt =====
-- What a connection's sender sends, against what was put into the connection
-- (linien-gateway/app/stream.py).
pub mod Order
use linien_multi_device.Prelude.{
  ℕ, ◌≤◌, ℤ, Bool, true, false, not, ◌||◌, Option, none, some, List, [], ◌∷◌, ◌++◌, ◌≡◌, refl,
  arith, if◌then◌else◌, filter, length, length-append, ap, ◌∙◌, is_some, if_intro, All, sym,
}
use mathlib.Core.Path.{subst}
use linien_multi_device.Stream.Connections.{
  Message, Connection, Detail, summary, full, filter_plot_frame, offer_plot, queue_full,
  offer_reliable, dequeue_from, dequeue_next, note_plot, enqueue_plot_frame, is_throttled,
}

-- What happens to one connection of a broadcast's: a message arrives at a time, or the sender takes
-- the next one.
pub data Exchange (A : Type 0) : Type 0 where
  arrive : Message A → ℤ → Exchange A
  take : Exchange A

module _ {A : Type 0} where
  -- The turn of broadcast() for the connection.
  pub offer : ℕ → Bool → Message A → ℤ → Connection A → Connection A
  offer size drop_old message now c =
      if message.is_plot_frame
      then offer_plot drop_old message now c
      else offer_reliable size message c

  pub step : ℕ → Bool → Exchange A → Connection A → Connection A
  unfolding offer
  step size drop_old (arrive message now) c = offer size drop_old message now c
  step size drop_old take c = (dequeue_next c).0

  pub final : ℕ → Bool → List (Exchange A) → Connection A → Connection A
  unfolding step
  final size drop_old [] c = c
  final size drop_old (e ∷ es) c = final size drop_old es (step size drop_old e c)

  taken_first : Option (Message A) → List (Message A) → List (Message A)
  taken_first none rest = rest
  taken_first (some message) rest = message ∷ rest

  -- All that the sender takes, in its order.
  pub sent : ℕ → Bool → List (Exchange A) → Connection A → List (Message A)
  unfolding step taken_first
  sent size drop_old [] c = []
  sent size drop_old (arrive message now ∷ es) c =
      sent size drop_old es (offer size drop_old message now c)
  sent size drop_old (take ∷ es) c =
      taken_first (dequeue_next c).1 (sent size drop_old es (dequeue_next c).0)

  -- The messages but the plot frames that arrive, those aside that meet a full queue.
  pub accepted : ℕ → Bool → List (Exchange A) → Connection A → List (Message A)
  unfolding step
  accepted size drop_old [] c = []
  accepted size drop_old (arrive message now ∷ es) c =
      let later = accepted size drop_old es (offer size drop_old message now c) in
      if message.is_plot_frame || queue_full size c then later else message ∷ later
  accepted size drop_old (take ∷ es) c = accepted size drop_old es (dequeue_next c).0

  -- The messages that are no plot frames.
  abbrev pub reliables : List (Message A) → List (Message A)
  reliables xs = filter (λ (m : Message A). not m.is_plot_frame) xs

  abbrev pub is_plot : Option (Message A) → Bool
  is_plot none = true
  is_plot (some message) = message.is_plot_frame

  abbrev pub NoPlots : List (Message A) → Type 0
  NoPlots xs = All (λ (m : Message A). m.is_plot_frame ≡ false) xs

  -- The queue holds no plot frames, and the place for the latest plot frame nothing else.
  pub record IsSorted (size : ℕ) (c : Connection A) : Type 0 where
    pub queued : NoPlots c.reliable_queue
    pub latest : is_plot c.latest_plot_message ≡ true
    pub bounded : length c.reliable_queue ≤ size

  NoPlots-append :
      (xs : List (Message A)) (m : Message A)
      → NoPlots xs
      → m.is_plot_frame ≡ false
      → NoPlots (xs ++ m ∷ [])
  NoPlots-append [] m a h = (h, tt)
  NoPlots-append (x ∷ xs) m (b, a) h = (b, NoPlots-append xs m a h)

  append_assoc :
      (xs : List (Message A)) (m : Message A) (ys : List (Message A))
      → (xs ++ m ∷ []) ++ ys ≡ xs ++ m ∷ ys
  append_assoc [] m ys = refl
  append_assoc (x ∷ xs) m ys = ap (λ zs. x ∷ zs) (append_assoc xs m ys)

  filter_plot_frame-plot :
      (m : Message A) (d : Detail) → (filter_plot_frame m d).is_plot_frame ≡ m.is_plot_frame
  unfolding filter_plot_frame
  filter_plot_frame-plot m full = refl
  filter_plot_frame-plot m summary = refl

  note_plot-keeps :
      (fps : Option ℤ) (now : ℤ) (c : Connection A)
      → ((note_plot fps now c).reliable_queue ≡ c.reliable_queue)
        × ((note_plot fps now c).latest_plot_message ≡ c.latest_plot_message)
  unfolding note_plot
  note_plot-keeps none now c = (refl, refl)
  note_plot-keeps (some fps) now c = (refl, refl)

  enqueue_plot_frame-queue :
      (drop_old : Bool) (m : Message A) (c : Connection A)
      → (enqueue_plot_frame drop_old m c).reliable_queue ≡ c.reliable_queue
  unfolding enqueue_plot_frame
  enqueue_plot_frame-queue drop_old m c = ground arith

  enqueue_plot_frame-latest :
      (drop_old : Bool) (m : Message A) (c : Connection A)
      → m.is_plot_frame ≡ true
      → is_plot c.latest_plot_message ≡ true
      → is_plot (enqueue_plot_frame drop_old m c).latest_plot_message ≡ true
  unfolding enqueue_plot_frame
  enqueue_plot_frame-latest drop_old m c p h =
      if_intro (λ (d : Connection A). is_plot d.latest_plot_message ≡ true)
        (drop_old || not (is_some c.latest_plot_message)) _ _ (λ t. p) (λ f. h)

  offer_plot-queue :
      (drop_old : Bool) (m : Message A) (now : ℤ) (c : Connection A)
      → (offer_plot drop_old m now c).reliable_queue ≡ c.reliable_queue
  unfolding offer_plot
  offer_plot-queue drop_old m now c =
      if_intro (λ (d : Connection A). d.reliable_queue ≡ c.reliable_queue)
        (is_throttled c.max_fps c.last_plot now) _ _ (λ t. refl)
        (λ f.
          enqueue_plot_frame-queue drop_old _ (note_plot c.max_fps now c)
          ∙ (note_plot-keeps c.max_fps now c).0)

  offer_plot-latest :
      (drop_old : Bool) (m : Message A) (now : ℤ) (c : Connection A)
      → m.is_plot_frame ≡ true
      → is_plot c.latest_plot_message ≡ true
      → is_plot (offer_plot drop_old m now c).latest_plot_message ≡ true
  unfolding offer_plot
  offer_plot-latest drop_old m now c p h =
      if_intro (λ (d : Connection A). is_plot d.latest_plot_message ≡ true)
        (is_throttled c.max_fps c.last_plot now) _ _ (λ t. h)
        (λ f.
          enqueue_plot_frame-latest drop_old (filter_plot_frame m c.detail)
            (note_plot c.max_fps now c) (filter_plot_frame-plot m c.detail ∙ p)
            (ap is_plot (note_plot-keeps c.max_fps now c).1 ∙ h))

  offer-IsSorted :
      (size : ℕ) (drop_old : Bool) (m : Message A) (now : ℤ) (c : Connection A)
      → IsSorted size c
      → IsSorted size (offer size drop_old m now c)
  unfolding offer offer_reliable queue_full
  offer-IsSorted size drop_old m now c w =
      if_intro (IsSorted size) m.is_plot_frame _ _
        (λ e. record {
          queued = subst NoPlots (sym (offer_plot-queue drop_old m now c)) w.queued;
          latest = offer_plot-latest drop_old m now c e w.latest;
          bounded =
              subst (λ q. length q ≤ size) (sym (offer_plot-queue drop_old m now c)) w.bounded;
        })
        (λ e.
          if_intro (IsSorted size) (queue_full size c) _ _ (λ t. w)
            (λ f. record {
              queued = NoPlots-append c.reliable_queue m w.queued e;
              latest = w.latest;
              bounded = ground (arith, length-append c.reliable_queue (m ∷ []));
            }))

  dequeue_from-IsSorted :
      (size : ℕ) (queue : List (Message A)) (c : Connection A)
      → c.reliable_queue ≡ queue
      → IsSorted size c
      → IsSorted size (dequeue_from queue c).0
  unfolding dequeue_from
  dequeue_from-IsSorted size [] c h w = record {
    queued = w.queued;
    latest = refl;
    bounded = w.bounded;
  }
  dequeue_from-IsSorted size (x ∷ rest) c h w = record {
    queued = (simp h at w.queued).1;
    latest = w.latest;
    bounded = ground (arith, w.bounded, ap length h);
  }
