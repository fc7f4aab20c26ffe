-- ===== src/Publisher/Accounting.antt =====
-- Every message that is put is accounted for: settled in order, or still in the queue.
use fluent_amqp.Base.{
  ◌≡◌, refl, gather, List, [], ◌∷◌, ◌++◌, Option, some, append_assoc, append-nil,
}
use fluent_amqp.Writer.{WriterConfig, Outgoing}
use fluent_amqp.Queue.Refine.{contents}
use fluent_amqp.Publisher.{
  Point, returned, top, peeking, publishing, Publisher, fresh, Event, puts, connects, checks, polls,
  answers, cancels, step, run, dispatch, connect,
}
use fluent_amqp.Publisher.Books.{
  settled, signal_of, due, Inv, fresh-Inv, Keeps, moved-Inv, arrival, arrivals,
}
use fluent_amqp.Publisher.Rounds.{check-Keeps, connect-Inv, poll-Keeps, put-Keeps, answer-Keeps}

module _ (cfg : WriterConfig) where
  same-Keeps : (ms : List Outgoing) {r : Option Publisher} → Keeps ms r → Keeps (ms ++ []) r
  same-Keeps ms (p, e, i) = (p, e, rw (append-nil ms) i)

  dispatch-Keeps :
      (ms : List Outgoing) (point : Point) (e : Event) (p : Publisher)
      → p.point ≡ point
      → Inv ms p
      → Keeps (ms ++ arrival e) (dispatch cfg point e p)
  unfolding dispatch
  dispatch-Keeps ms point (puts m) p pt i = put-Keeps ms m p i
  dispatch-Keeps ms (returned r) (connects a) p pt i =
      same-Keeps ms (connect cfg a p, refl, connect-Inv cfg ms a p i)
  dispatch-Keeps ms top checks p pt i = same-Keeps ms (check-Keeps cfg ms p i)
  dispatch-Keeps ms peeking polls p pt i = same-Keeps ms (poll-Keeps ms p pt i)
  dispatch-Keeps ms (publishing m) (answers err) p pt i =
      same-Keeps ms (answer-Keeps ms p m err i (i.held m pt))
  dispatch-Keeps ms peeking (cancels err) p pt i =
      same-Keeps ms
        (_, refl, moved-Inv ms p (record p { point = returned (some err) }) i refl refl (λ m k. cc))
  dispatch-Keeps ms _ _ p pt i = same-Keeps ms (p, refl, i)

  step-Keeps :
      (ms : List Outgoing) (e : Event) (p : Publisher)
      → Inv ms p
      → Keeps (ms ++ arrival e) (step cfg e p)
  unfolding step
  step-Keeps ms e p i = dispatch-Keeps ms p.point e p refl i

  run-Keeps :
      (ms : List Outgoing) (es : List Event) (p : Publisher)
      → Inv ms p
      → Keeps (ms ++ arrivals es) (run cfg es p)
  unfolding run
  run-Keeps ms [] p i = same-Keeps ms (p, refl, i)
  run-Keeps ms (e ∷ es) p i =
      let (p', stepped, j) = step-Keeps ms e p i in
      let (q, ran, k) = run-Keeps (ms ++ arrival e) es p' j in
      (q, rw (stepped, run) ran, rw (← append_assoc ms (arrival e) (arrivals es)) k)

  -- Whatever order writers, broker and context act in, over any number of connections: the loop does
  -- not panic; the messages put are, in this order, those settled (taken by the broker, or tried once
  -- if they have a `Try` channel) followed by those still queued; and the channels got exactly the
  -- signals that the broker's answers call for, in their order.
  pub no_message_lost :
      (es : List Event)
      → (p : Publisher) × (run cfg es fresh ≡ some p)
        × (arrivals es ≡ settled p.log ++ contents p.stream)
        × (gather signal_of p.log ≡ gather due p.log)
  no_message_lost es =
      let (p, ran, i) = run-Keeps [] es fresh fresh-Inv in (p, ran, i.books, i.signals)
