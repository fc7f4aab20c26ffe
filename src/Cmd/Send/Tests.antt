-- ===== src/Cmd/Send/Tests.antt =====
-- amqp-send with a signer that lets the message pass, and with one that refuses it.
use fluent_amqp.Base.{◌≡◌, refl, false, [], ◌∷◌, none, some}
use fluent_amqp.Base.Int.{pos}
use fluent_amqp.Amqp.{Publishing}
use fluent_amqp.Queue.{MessageQueue, zero_queue}
use fluent_amqp.Queue.Refine.{IsValid, contents}
use fluent_amqp.Writer.{SenderHandler, WriterConfig, Outgoing}
use fluent_amqp.Writer.Publish.{process_message, cancelled}
use fluent_amqp.Cmd.Send.{Options, configure, message, content, run, main}
use fluent_amqp.Cmd.Send.Entry.{Carries, sends_and_succeeds}

abbrev refuse : SenderHandler
refuse m = some (false, m)

abbrev options : Options
options = record {
  exchange = "shop";
  exchange_type = "topic";
  sign = some refuse;
  message_id = "";
  reply_to = "answers";
  correlation_id = "9";
  headers = ("kind", "order") ∷ [];
  content_type = "text/plain";
  ttl = pos 5;
  routing_key = "orders.new";
}

abbrev writer : WriterConfig
writer = record {
  exchange = "shop";
  kind = "topic";
  middleware = refuse ∷ [];
  topic = "orders.new";
  max_size = pos 0;
  has_handler = false;
}

configured : configure options ≡ some writer
unfolding configure
configured = refl

abbrev refused : Publishing
unfolding message
refused = (message options "u-1" (pos 7) (104 ∷ 105 ∷ []) writer).msg

refused_lem :
    process_message writer.middleware (message options "u-1" (pos 7) (104 ∷ 105 ∷ []) writer).msg
    ≡ some (false, refused)
unfolding process_message message
refused_lem = refl

valid : IsValid (zero_queue {A = Outgoing})
valid = tt

sends_and_succeeds_example :
    (writer.exchange ≡ "shop")
    × (writer.topic ≡ "orders.new")
    × Carries options "u-1"
        (pos 7)
        (104 ∷ 105 ∷ [])
        writer
        (message options "u-1" (pos 7) (104 ∷ 105 ∷ []) writer)
    × ((q' : MessageQueue Outgoing) × (run options "u-1"
            (pos 7)
            3
            (cancelled "context canceled")
            (content (104 ∷ 105 ∷ []))
            zero_queue
          ≡ some (none, q'))
        × (main false none options "u-1"
              (pos 7)
              3
              (cancelled "context canceled")
              (content (104 ∷ 105 ∷ []))
              zero_queue
            ≡ some (0, q'))
        × (contents q' ≡ []))
sends_and_succeeds_example =
    sends_and_succeeds options writer "u-1" (pos 7) 3 (cancelled "context canceled")
      (104 ∷ 105 ∷ []) zero_queue refused false configured refused_lem valid
