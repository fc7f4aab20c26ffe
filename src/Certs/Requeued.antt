-- ===== src/Certs/Requeued.antt =====
-- A signature on the way through the requeuer: sink.go, requeuer.go and certs.go together.
use fluent_amqp.Base.{String, ◌≡◌, ◌≢◌, refl, ap, ap₂, ◌∙◌, List, [], ◌∷◌, Option, none, some}
use fluent_amqp.Amqp.{
  Error, text, Table, empty, Delivery, Publishing, lookup?, lookup, insert, made,
}
use fluent_amqp.Amqp.Laws.{lookup-insert_ne}
use fluent_amqp.Requeue.{ReQueueConfig, publishing, marked, last_error_header}
use fluent_amqp.Certs.{Crypto, signed_data, check_value, validator_handle}
use fluent_amqp.Certs.Validate.{check_value_cong}

-- The broker, which returns an expired copy to the sink's queue.
module _ (redeliver : Publishing → Delivery) where
  -- It keeps this header, the id and the body.
  abbrev pub Keeps : String → Type 0
  Keeps header =
      (p : Publishing)
      → (lookup? header (redeliver p).headers ≡ lookup? header p.headers)
        × ((redeliver p).message_id ≡ p.message_id)
        × ((redeliver p).body ≡ p.body)

  -- The message after it has failed with each of these errors in turn and come back.
  unfoldable pub returned_after : ReQueueConfig → List Error → Delivery → Delivery
  unfolding publishing marked
  returned_after rq [] msg = msg
  returned_after rq (err ∷ errs) msg =
      returned_after rq errs (redeliver (publishing rq (marked msg (some err))))

marked-lookup :
    (header : String) (headers : Option Table) (err : Error)
    → last_error_header ≢ header
    → lookup? header (some (insert last_error_header (text err) (made headers)))
      ≡ lookup? header headers
unfolding lookup
marked-lookup header none err n = lookup-insert_ne last_error_header header (text err) empty n
marked-lookup header (some t) err n = lookup-insert_ne last_error_header header (text err) t n

module _ (c : Crypto) where
  open c use {Cert}

  -- A message that fails again and again in a sink with a requeuer, while the broker returns each copy with
  -- its headers, id and body: the validator answers after any number of rounds as it did at the first, so a
  -- signature that was accepted stays so and no message gains one. The header of the signature is to be
  -- another than that of the last error.
  pub signature_survives :
      (redeliver : Publishing → Delivery) (rq : ReQueueConfig) (header : String) (cert : Cert)
      (errs : List Error) (msg : Delivery)
      → Keeps redeliver header
      → last_error_header ≢ header
      → validator_handle c header cert (returned_after redeliver rq errs msg)
        ≡ validator_handle c header cert msg
  unfolding validator_handle returned_after publishing marked
  signature_survives redeliver rq header cert [] msg keeps n = refl
  signature_survives redeliver rq header cert (err ∷ errs) msg keeps n =
      let copy = publishing rq (marked msg (some err)) in
      let back = redeliver copy in
      let (h, i, b) = keeps copy in
      signature_survives redeliver rq header cert errs back keeps n
      ∙ ap (check_value c cert back) (h ∙ marked-lookup header msg.headers err n)
      ∙ check_value_cong c cert back msg (lookup? header msg.headers) (ap₂ signed_data i b)
