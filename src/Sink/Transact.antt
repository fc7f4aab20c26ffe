-- ===== src/Sink/Transact.antt =====
-- sink.go, the handler that `TransactFunc` installs: the message is acknowledged, or returned to the
-- broker, by the outcome of the processing.
pub mod AtLeastOnce
mod Tests
use fluent_amqp.Base.{
  ◌≡◌, refl, ◌⊎◌, inl, inr, ◌≢◌, List, [], ◌∷◌, Option, none, some, arith, gather, String, ◌==◌,
  if◌then◌else◌, eq_iff,
}
use fluent_amqp.Amqp.{Error, Delivery, Publishing}
use fluent_amqp.Requeue.{
  ReQueueConfig, Ends, never_taken, abandoned, answered, marked, publishing, requeue,
}
use fluent_amqp.Base.Int.{ℤ}
use fluent_amqp.Base.Text.{◌+s◌}
use fluent_amqp.Amqp.{text, lookup, lookup?, made}
use fluent_amqp.Amqp.Laws.{lookup-insert_self}
use fluent_amqp.Writer.{millis}
use fluent_amqp.Requeue as R
use fluent_amqp.Requeue.{
  QueueDeclaration, published, serve, declaration, last_error_header, new_requeue, timeout,
}
use fluent_amqp.Sink.{SinkConfig, requeue_after}
use fluent_amqp.Sink.Topology.{own_queue}

-- What the handler does: it hands a copy to the requeuer, and calls `msg.Ack(false)` or
-- `msg.Nack(false, true)`.
pub data Effect : Type 0 where
  requeued : Publishing → Effect
  acked nacked : Effect

-- A failure: `snk.requeue`, if it is set, takes the message with the error marked in it; `ends` is how
-- the two waits of its `Requeue` end.
on_failure : Option ReQueueConfig → Delivery → Error → Ends → List Effect
unfolding requeue marked publishing
on_failure none msg err ends = nacked ∷ []
on_failure (some rq) msg err ends =
    let copy = requeued (publishing rq (marked msg (some err))) in
    elim (requeue ends) [ none ↦ copy ∷ acked ∷ [] | some failed ↦ copy ∷ nacked ∷ [] ]

-- The handler, for the result of `fn`.
unfoldable pub transact : SinkConfig → Delivery → Option Error → Ends → List Effect
unfolding on_failure
transact snk msg none ends = acked ∷ []
transact snk msg (some err) ends = on_failure snk.rq_config msg err ends

-- What settles the delivery.
abbrev pub settlement : Effect → List Effect
settlement (requeued p) = []
settlement e = e ∷ []

abbrev pub copy_of : Effect → List Publishing
copy_of (requeued p) = p ∷ []
copy_of _ = []

-- The sink requeues, and the requeuer has told that the broker took the copy.
abbrev pub IsCopied : Option ReQueueConfig → Ends → Type 0
IsCopied none ends = ⊥
IsCopied (some rq) ends = ends ≡ answered none

on_failure_lem :
    (config : Option ReQueueConfig) (msg : Delivery) (err : Error) (ends : Ends)
    → (IsCopied config ends × (gather settlement (on_failure config msg err ends) ≡ acked ∷ []))
      ⊎ ((¬ IsCopied config ends)
          × (gather settlement (on_failure config msg err ends) ≡ nacked ∷ []))
unfolding on_failure requeue
on_failure_lem none msg err ends = inr (λ x. x, refl)
on_failure_lem (some rq) msg err (never_taken e) = inr (λ x. ground arith, refl)
on_failure_lem (some rq) msg err (abandoned e) = inr (λ x. ground arith, refl)
on_failure_lem (some rq) msg err (answered none) = inl (refl, refl)
on_failure_lem (some rq) msg err (answered (some e)) = inr (λ x. ground arith, refl)

-- The delivery is settled exactly once: acknowledged when the processing succeeds, or when it fails and
-- the requeuer has told that the broker took a copy; in every other case returned to the broker.
pub transact_settles_once :
    (snk : SinkConfig) (msg : Delivery) (result : Option Error) (ends : Ends)
    → (((result ≡ none) ⊎ IsCopied snk.rq_config ends)
        × (gather settlement (transact snk msg result ends) ≡ acked ∷ []))
      ⊎ ((result ≢ none)
          × (¬ IsCopied snk.rq_config ends)
          × (gather settlement (transact snk msg result ends) ≡ nacked ∷ []))
unfolding transact
transact_settles_once snk msg none ends = inl (inl refl, refl)
transact_settles_once snk msg (some err) ends = elim (on_failure_lem snk.rq_config msg err ends) [
  | inl (copied, e) ↦ inl (inr copied, e)
  | inr (lost, e) ↦ inr (λ x. ground arith, lost, e)
]

copies :
    (rq : ReQueueConfig) (msg : Delivery) (err : Error) (ends : Ends)
    → gather copy_of (on_failure (some rq) msg err ends)
      ≡ publishing rq (marked msg (some err)) ∷ []
unfolding on_failure
copies rq msg err ends = ground arith

-- What a sink with `Requeue(interval)` hands to its requeuer.
pub transact-copies :
    (snk : SinkConfig) (interval : ℤ) (msg : Delivery) (err : Error) (ends : Ends)
    → gather copy_of (transact (requeue_after interval snk) msg (some err) ends)
      ≡ publishing (timeout interval (new_requeue snk.queue_name)) (marked msg (some err)) ∷ []
unfolding transact requeue_after
transact-copies snk interval msg err ends =
    copies (timeout interval (new_requeue snk.queue_name)) msg err ends

-- The publications of the requeuer's loop: exchange, key and message.
abbrev pub publications : R.Effect → List (String × String × Publishing)
publications (published exchange key p answer) = (exchange, key, p) ∷ []
publications _ = []

published_once :
    (queue_name : String) (p : Publishing) (answer : Option Error)
    → gather publications (serve queue_name p answer) ≡ ("", queue_name, p) ∷ []
unfolding serve
published_once queue_name p none = refl
published_once queue_name p (some e) = refl

-- Where a broker puts a message that expires in a queue of this declaration, when its dead letter exchange
-- is the default one: in the queue that the dead letter key names.
abbrev pub route_expired : QueueDeclaration → Option String
route_expired q = elim (lookup? "x-dead-letter-exchange" q.args) [
  | some (text exchange) ↦
      if exchange == ""
      then elim (lookup? "x-dead-letter-routing-key" q.args) [
        | some (text key) ↦ if key == "" then none else some key
        | _ ↦ none
      ]
      else none
  | _ ↦ none
]

route_expired_lem :
    (queue : String) (interval : ℤ)
    → queue ≢ ""
    → route_expired (declaration (timeout interval (new_requeue queue))) ≡ some queue
unfolding timeout new_requeue declaration lookup
route_expired_lem queue interval n = ground (arith, eq_iff queue "")

-- A message that fails in a sink of a named queue, with `Requeue(interval)`: one copy is handed to the
-- requeuer. Its loop publishes this copy, by the default exchange, under the name of the queue that it
-- declares; a message that expires there comes to the queue that the sink declares and consumes. The copy
-- expires after the interval, has the id and the body of the original and the error in its header; but its
-- delivery mode is unset.
pub failed_comes_back :
    (snk : SinkConfig) (interval : ℤ) (msg : Delivery) (err : Error) (ends : Ends)
    (answer : Option Error)
    → snk.queue_name ≢ ""
    → let requeued_snk = requeue_after interval snk in
      (rq : ReQueueConfig) × (copy : Publishing) × (requeued_snk.rq_config ≡ some rq)
      × (gather copy_of (transact requeued_snk msg (some err) ends) ≡ copy ∷ [])
      × (gather publications (serve rq.queue_name copy answer)
          ≡ ("", (declaration rq).name, copy) ∷ [])
      × (route_expired (declaration rq) ≡ some (own_queue requeued_snk).name)
      × (copy.message_id ≡ msg.message_id)
      × (copy.body ≡ msg.body)
      × (copy.expiration ≡ millis interval)
      × (lookup? last_error_header copy.headers ≡ some (text err))
      × (copy.delivery_mode ≡ 0)
unfolding transact requeue_after timeout new_requeue declaration lookup publishing marked serve
failed_comes_back snk interval msg err ends answer named =
    let rq = timeout interval (new_requeue snk.queue_name) in
    let copy = publishing rq (marked msg (some err)) in
    (
      rq,
      copy,
      refl,
      copies rq msg err ends,
      published_once rq.queue_name copy answer,
      route_expired_lem snk.queue_name interval named,
      refl,
      refl,
      refl,
      lookup-insert_self last_error_header (text err) (made msg.headers),
      refl,
    )
