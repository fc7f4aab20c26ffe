-- ===== src/Writer/Sending.antt =====
-- What each way to send a message does to the queue, on every answer of the middleware.
use fluent_amqp.Base.{ℕ, ◌≡◌, true, false, [], ◌∷◌, ◌++◌, Option, none, some, arith}
use fluent_amqp.Amqp.{Error, Publishing}
use fluent_amqp.Queue.{MessageQueue}
use fluent_amqp.Queue.Refine.{IsValid, contents, put_lem}
use fluent_amqp.Writer.{WriterConfig, Outgoing, Message}
use fluent_amqp.Writer.Publish.{
  rejected, Wait, cancelled, process_message, publish, publish_wait, send, send_context, try_send,
}

-- The entry that `Publish` makes for a message that the middleware left as `m`.
abbrev pub entry : Message → ℕ → Publishing → Outgoing
entry ms ch m = record { exchange = ms.exchange; key = ms.key; msg = m; try = none; done = some ch }

module _ (wc : WriterConfig) (ch : ℕ) (ms : Message) (q : MessageQueue Outgoing)
    (m : Publishing) where
  -- If the middleware accepts the message as `m`, `Publish` returns no error, leaves the channel open
  -- and adds one entry at the end of the queue, with `m`, the exchange and key of the message and the
  -- channel.
  pub publish_accepted :
      process_message wc.middleware ms.msg ≡ some (true, m)
      → IsValid q
      → (q' : MessageQueue Outgoing) × (publish wc ch ms q
          ≡ some (record { stream = q'; closed = false; err = none }))
        × IsValid q'
        × (contents q' ≡ contents q ++ entry ms ch m ∷ [])
  unfolding publish
  publish_accepted h v =
      let (q', ran, valid, same) = put_lem (entry ms ch m) q v in
      (q', rw (h, publish, ran), valid, same)

  -- If the middleware refuses the message, `Publish`, `PublishWait` and `SendContext` return the error for it and leave
  -- the queue alone; but `TrySend` returns no error, whatever its wait would bring, and `Send` returns
  -- a closed channel, as for a message that was sent.
  pub refused_lem :
      (wait : Wait (Option Error)) (end : Wait (Unit {0}))
      → process_message wc.middleware ms.msg ≡ some (false, m)
      → (publish wc ch ms q ≡ some (record { stream = q; closed = true; err = some rejected }))
        × (publish_wait wc ch ms end q ≡ some (some rejected, q))
        × (send_context wc ch ms q ≡ some (some rejected, q))
        × (try_send wc ch ms wait q ≡ some (none, q))
        × (send wc ch ms q ≡ some (true, q))
  unfolding publish publish_wait send_context try_send send
  refused_lem wait end h = (ground arith, ground arith, ground arith, ground arith, ground arith)

  -- A `PublishWait` that the caller's context ends returns the context's error, and the message stays
  -- in the queue all the same.
  pub publish_wait-cancelled :
      (e : Error)
      → process_message wc.middleware ms.msg ≡ some (true, m)
      → IsValid q
      → (q' : MessageQueue Outgoing) × (publish_wait wc ch ms (cancelled e) q ≡ some (some e, q'))
        × (contents q' ≡ contents q ++ entry ms ch m ∷ [])
  unfolding publish_wait
  publish_wait-cancelled e h v =
      let (q', ran, valid, same) = put_lem (entry ms ch m) q v in
      (q', rw (h, publish_wait, ran), same)
