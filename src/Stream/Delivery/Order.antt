-- ===== src/Stream/Delivery/Order.antt =====
-- The order in which the sender of a connection sends (linien-gateway/app/stream.py).
use linien_multi_device.Prelude.{
  ℕ, ℤ, Bool, true, ◌||◌, Option, none, some, List, [], ◌∷◌, ◌++◌, ◌≡◌, refl, arith, if◌then◌else◌,
  ap, ◌∙◌, sym,
}
use linien_multi_device.Stream.Connections.{
  Message, Connection, queue_full, offer_reliable, dequeue_from, dequeue_next,
}
use linien_multi_device.Stream.Delivery.{
  Exchange, offer, step, final, taken_first, sent, accepted, reliables, is_plot, IsSorted,
  append_assoc, offer_plot-queue, offer-IsSorted, dequeue_from-IsSorted, arrive, take,
}

module _ {A : Type 0} where
  offer-queue :
      (size : ℕ) (drop_old : Bool) (m : Message A) (now : ℤ) (c : Connection A)
      (rest : List (Message A))
      → (offer size drop_old m now c).reliable_queue ++ rest
        ≡ c.reliable_queue ++ (if m.is_plot_frame || queue_full size c then rest else m ∷ rest)
  unfolding offer offer_reliable
  offer-queue size drop_old m now c rest =
      ground (arith, offer_plot-queue drop_old m now c, append_assoc c.reliable_queue m rest)

  append_nil : (xs : List (Message A)) → xs ++ [] ≡ xs
  append_nil [] = refl
  append_nil (x ∷ xs) = ap (λ ys. x ∷ ys) (append_nil xs)

  untaken :
      (o : Option (Message A)) (later : List (Message A))
      → is_plot o ≡ true
      → reliables (taken_first o later) ≡ reliables later
  unfolding taken_first
  untaken none later h = refl
  untaken (some m) later h = simp h refl

  -- What taking one message does to what is still to be sent.
  dequeue-queue :
      (size : ℕ) (queue : List (Message A)) (c : Connection A) (later tail rest : List (Message A))
      → c.reliable_queue ≡ queue
      → IsSorted size c
      → reliables later ++ tail ≡ (dequeue_from queue c).0.reliable_queue ++ rest
      → reliables (taken_first (dequeue_from queue c).1 later) ++ tail ≡ queue ++ rest
  unfolding dequeue_from taken_first
  dequeue-queue size [] c later tail rest h w e =
      ap (λ l. l ++ tail) (untaken c.latest_plot_message later w.latest) ∙ e ∙ ap (λ q. q ++ rest) h
  dequeue-queue size (x ∷ queue) c later tail rest h w e =
      simp (simp h at w.queued).0 (ap (λ l. x ∷ l) e)

  -- In a connection that starts sorted, the messages but the plot frames that are taken, and those that
  -- still wait, are those that waited at the start and those that arrived at a queue with room, each
  -- once and in their order: nothing is lost, doubled or overtaken, however the plot frames come.
  pub sent-accepted :
      (size : ℕ) (drop_old : Bool) (es : List (Exchange A)) (c : Connection A)
      → IsSorted size c
      → reliables (sent size drop_old es c) ++ (final size drop_old es c).reliable_queue
        ≡ c.reliable_queue ++ accepted size drop_old es c
  unfolding sent final accepted step dequeue_next
  sent-accepted size drop_old [] c w = sym (append_nil c.reliable_queue)
  sent-accepted size drop_old (arrive message now ∷ es) c w =
      let c' = offer size drop_old message now c in
      sent-accepted size drop_old es c' (offer-IsSorted size drop_old message now c w)
      ∙ offer-queue size drop_old message now c (accepted size drop_old es c')
  sent-accepted size drop_old (take ∷ es) c w =
      let c' = (dequeue_from c.reliable_queue c).0 in
      dequeue-queue size c.reliable_queue c (sent size drop_old es c')
        (final size drop_old es c').reliable_queue (accepted size drop_old es c') refl w
        (sent-accepted size drop_old es c' (dequeue_from-IsSorted size c.reliable_queue c refl w))

  -- In a connection that starts sorted, whatever arrives and is taken, the queue holds no plot
  -- frame and never outgrows its size, and only plot frames take the place of the latest one.
  pub final-IsSorted :
      (size : ℕ) (drop_old : Bool) (es : List (Exchange A)) (c : Connection A)
      → IsSorted size c
      → IsSorted size (final size drop_old es c)
  unfolding final step dequeue_next
  final-IsSorted size drop_old [] c w = w
  final-IsSorted size drop_old (arrive message now ∷ es) c w =
      final-IsSorted size drop_old es (offer size drop_old message now c)
        (offer-IsSorted size drop_old message now c w)
  final-IsSorted size drop_old (take ∷ es) c w =
      final-IsSorted size drop_old es (dequeue_from c.reliable_queue c).0
        (dequeue_from-IsSorted size c.reliable_queue c refl w)
