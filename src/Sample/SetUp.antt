-- ===== src/Sample/SetUp.antt =====
-- What the example asks of the broker, once its key and its certificate are read.
use fluent_amqp.Base.{ℕ, String, ◌≡◌, refl, ap, ◌∙◌, true, false, List, [], ◌∷◌, none, some}
use fluent_amqp.Base.Int.{pos}
use fluent_amqp.Amqp.{Error, text, lookup, lookup?, insert}
use fluent_amqp.Requeue.{new_requeue, timeout}
use fluent_amqp.Sink.{
  SinkConfig, new_sink, manual_ack, dead_letter, dead_letter_queue, dead_letter_exchange,
  retry_limit, lazy, attr, topic, exchange, key,
}
use fluent_amqp.Sink as S
use fluent_amqp.Sink.Topology.{declare_exchange, declare_queue, bind_queue, open_stream}
use fluent_amqp.Sink.Topology.Plan.{plan}
use fluent_amqp.Writer.{WriterConfig, new_writer, default_topic, default_direct, default_key}
use fluent_amqp.Writer as W
use fluent_amqp.Config.{broker, logger, context}
use fluent_amqp.Certs.{Crypto, Found, signer_handle, validator_handle}
use fluent_amqp.Certs.Files.{returned, default_signature_header, validating}
use fluent_amqp.Certs.Trust.{HoldsKey, HoldsCert, sign_lem, validate_lem}
use fluent_amqp.Server.Handlers.{
  publishes, consumes, requeues, sink, publisher, requeue, create_writer, create_requeue,
  handler_func, transact_func,
}
use fluent_amqp.Rpc.Build.{build_rpc, rpc_publisher}
use fluent_amqp.Sample.{pem, brk, test_sink, register_rest, with_sink, with_publisher, set_up}

-- The arguments of the queue "test": a routing key for dead letters, and no exchange.
abbrev TestArgs : SinkConfig → Type 0
TestArgs snk =
    (lookup? "x-dead-letter-routing-key" snk.attrs ≡ some (text "deads"))
    × (lookup? "x-dead-letter-exchange" snk.attrs ≡ none)
    × (lookup? "x-queue-mode" snk.attrs ≡ some (text "lazy"))

module _ (c : Crypto) (read_file : String → Found (List ℕ)) (wrap : Error → String → Error) where
  open c use {Key, Cert}

  abbrev signed : Key → WriterConfig
  unfolding W.add_handler default_key default_topic
  signed k =
      W.add_handler (signer_handle c default_signature_header k)
        (default_key "test" (default_topic "sample" new_writer))

  abbrev checked : Cert → SinkConfig
  checked cert =
      S.add_handler (validating (validator_handle c default_signature_header cert))
        (sink brk "test")

  abbrev validated : Cert → SinkConfig
  validated cert = manual_ack (test_sink (checked cert))

  loaded :
      (k : Key) (cert : Cert)
      → HoldsKey c read_file wrap pem k
      → HoldsCert c read_file wrap pem cert
      → set_up c read_file wrap
        ≡ some (
            returned (
              register_rest (checked cert) (
                create_requeue
                  (timeout (pos 10000000000) (requeue brk "test"))
                  (create_writer (signed k) brk.handlers))))
  unfolding set_up publisher with_publisher with_sink
  loaded k cert hk hc =
      ap (with_publisher c read_file wrap) (
        sign_lem c read_file wrap pem k (default_key "test" (default_topic "sample" new_writer)) hk)
      ∙ ap (with_sink _) (validate_lem c read_file wrap pem cert (sink brk "test") hc)

  -- When the file holds a key and a certificate, `main` registers, in this order: its publisher, which signs;
  -- the requeuer for "test"; the sinks "test", which validates, and "echo"; and the publisher and the sink of
  -- the RPC, which asks the queue "echo". The sink "test" is to declare the queue "deads", its own queue, the
  -- exchange "sample" and one binding, and to consume with acknowledgements. But the arguments of its queue
  -- have the routing key of dead letters and no exchange for them.
  sample_lem :
      (k : Key) (cert : Cert)
      → HoldsKey c read_file wrap pem k
      → HoldsCert c read_file wrap pem cert
      → (set_up c read_file wrap
          ≡ some (
              returned (
                publishes (signed k)
                ∷ requeues (timeout (pos 10000000000) (new_requeue "test"))
                ∷ consumes (validated cert)
                ∷ consumes (manual_ack (sink brk "echo"))
                ∷ publishes (rpc_publisher brk "" "echo")
                ∷ consumes (sink brk "bot")
                ∷ [])))
        × (plan (validated cert) "test"
            ≡ declare_queue
                (record { name = "deads"; durable = true; auto_delete = false; args = none })
              ∷ declare_queue (record {
                name = "test";
                durable = true;
                auto_delete = false;
                args = (validated cert).attrs;
              })
              ∷ declare_exchange "sample" "topic" none
              ∷ bind_queue "test" "*" "sample"
              ∷ open_stream "test" false
              ∷ [])
        × TestArgs (validated cert)
  unfolding register_rest transact_func handler_func create_writer create_requeue build_rpc requeue
      sink broker logger context brk test_sink new_sink S.add_handler dead_letter retry_limit lazy
      topic exchange key manual_ack lookup insert
  sample_lem k cert hk hc = (loaded k cert hk hc, refl, (refl, refl, refl))
