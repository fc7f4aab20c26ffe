-- ===== src/Publisher/EndToEnd.antt =====
-- From a writer to the broker: `Publish` and the loop of the publisher together.
use fluent_amqp.Base.{
  ℕ, gather-append, append-nil, arith, Option, ◌≡◌, sym, ◌∙◌, ap, List, [], ◌∷◌, ◌++◌, none, some,
  true, false, length, append_assoc,
}
use fluent_amqp.Amqp.{Error, Publishing}
use fluent_amqp.Queue.{MessageQueue}
use fluent_amqp.Queue.Refine.{contents}
use fluent_amqp.Writer.{WriterConfig, Outgoing, Message}
use fluent_amqp.Writer.Publish.{process_message, publish}
use fluent_amqp.Writer.Sending.{entry, publish_accepted}
use fluent_amqp.Publisher.{
  top, returned, connects, declared, Publisher, connect, dispatch, step, run,
}
use fluent_amqp.Publisher.Drain.{Stands, rounds, taken_by, sent, run_drains}

-- A message that the middleware accepts as `m`, published while the loop stands at its top with `xs`
-- queued, is handed to the broker after `xs`, with the exchange and key of the message, once the broker
-- has taken as many messages as then are queued; and nothing is left in the queue.
publish_reaches_broker :
    (cfg : WriterConfig) (ch : ℕ) (ms : Message) (m : Publishing) (p : Publisher)
    (xs ys : List Outgoing)
    → process_message cfg.middleware ms.msg ≡ some (true, m)
    → Stands top xs ys p
    → (q' : MessageQueue Outgoing) × (q : Publisher) × (publish cfg ch ms p.stream
        ≡ some (record { stream = q'; closed = false; err = none }))
      × (run cfg (rounds (length (xs ++ entry ms ch m ∷ []))) (record p { stream = q' }) ≡ some q)
      × (contents q.stream ≡ [])
      × (sent q.log ≡ ys ++ xs ++ entry ms ch m ∷ [])
publish_reaches_broker cfg ch ms m p xs ys h st =
    let (q', ran, v, same) = publish_accepted cfg ch ms p.stream m h st.valid in
    let (q, drained, sq) =
      run_drains cfg (xs ++ entry ms ch m ∷ []) ys (record p { stream = q' })
        (record {
          where_at = st.where_at;
          valid = v;
          queued = same ∙ ap (λ c. c ++ entry ms ch m ∷ []) st.queued;
          taken = st.taken;
        }) in
    (q', q, ran, drained, sq.queued, sq.taken ∙ sym (append_assoc ys xs (entry ms ch m ∷ [])))

-- A connection brings the loop to its top, and it drains the queue.
pub connects_drains :
    (cfg : WriterConfig) (result : Option Error) (xs ys : List Outgoing) (p : Publisher)
    → Stands (returned result) xs ys p
    → (q : Publisher) × (run cfg (connects none ∷ rounds (length xs)) p ≡ some q)
      × Stands top [] (ys ++ xs) q
unfolding run step dispatch connect
connects_drains cfg result xs ys p st =
    let p' = connect cfg none p in
    let none_sent = gather-append (taken_by) p.log (declared cfg.exchange cfg.kind ∷ []) in
    let ready : Stands top xs ys p' = record {
      where_at = ground arith;
      valid = ground (arith, st.valid);
      queued = ground (arith, st.queued);
      taken = ground (arith, st.taken, none_sent, append-nil (sent p.log));
    } in
    let (q, drained, sq) = run_drains cfg xs ys p' ready in
    (
      q,
      ap
            (λ pt. elim (dispatch cfg pt (connects none) p) [
              | none ↦ none
              | some r ↦ run cfg (rounds (length xs)) r
            ])
            st.where_at
          ∙ drained,
      sq,
    )
