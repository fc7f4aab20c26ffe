-- ===== src/Cmd/Replier/Setup.antt =====
-- What amqp-exec asks of the broker for its options.
use fluent_amqp.Base.{
  String, ◌≡◌, refl, Bool, true, false, not, List, [], ◌∷◌, ◌++◌, map, Option, none, some, ◌==◌,
  if◌then◌else◌, eq_iff, arith,
}
use fluent_amqp.Base.Int.{ℤ}
use fluent_amqp.Requeue.{new_requeue, timeout}
use fluent_amqp.Sink.{
  ReceiverHandler, SinkDefaults, SinkConfig, new_sink, exchange, key, lazy, attr, add_handler,
  manual_ack, retry_limit, requeue_after,
}
use fluent_amqp.Sink.Topology.{Call, declare_exchange, declare_queue, bind_queue, open_stream}
use fluent_amqp.Sink.Topology.Plan.{plan}
use fluent_amqp.Amqp.{insert}
use fluent_amqp.Writer.{
  WriterConfig, new_writer, default_key, default_topic, default_direct, default_fanout,
  with_exchange,
}
use fluent_amqp.Server.Handlers.{
  StateHandler, publishes, consumes, requeues, create_writer, create_requeue, handler_func,
  transact_func,
}
use fluent_amqp.Cmd.{exchange_kind, publish_to, bind_exchange, bind, with_validator, with_lazy}
use fluent_amqp.Cmd.Queues.{queue_of, joined}
use fluent_amqp.Cmd.Replier.{Options, prepared, consumer, publisher, configure}

-- The sink of these options, before its exchange.
abbrev sink_of : SinkDefaults → Option ReceiverHandler → Bool → ℤ → ℤ → String → SinkConfig
sink_of def verify on limit interval queue =
    with_lazy on
      (with_validator verify (requeue_after interval (retry_limit limit (new_sink def queue))))

module _ (def : SinkDefaults) (limit interval : ℤ) (queue name : String) where
  abbrev Takes : Bool → List Call → SinkConfig → Type 0
  Takes on calls snk =
      (plan snk name ≡ declare_queue (queue_of queue on) ∷ (calls ++ open_stream name false ∷ []))
      × (snk.rq_config ≡ some (timeout interval (new_requeue queue)))
      × (snk.retries ≡ limit)

  plain_lem :
      (verify : Option ReceiverHandler) (on : Bool)
      → Takes on [] (manual_ack (sink_of def verify on limit interval queue))
  unfolding requeue_after retry_limit with_lazy with_validator new_sink lazy attr insert manual_ack
      add_handler
  plain_lem none true = (refl, refl, refl)
  plain_lem none false = (refl, refl, refl)
  plain_lem (some mv) true = (refl, refl, refl)
  plain_lem (some mv) false = (refl, refl, refl)

  bound_lem :
      (verify : Option ReceiverHandler) (on : Bool) (exc kind : String) (ks : List String)
      → Takes on
          (declare_exchange exc kind none ∷ map (λ k. bind_queue name k exc) ks)
          (manual_ack (bind_exchange exc ks (sink_of def verify on limit interval queue) kind))
  unfolding bind_exchange exchange key requeue_after retry_limit with_lazy with_validator new_sink
      lazy attr insert manual_ack add_handler
  bound_lem none true exc kind ks = (joined queue true exc kind name ks, refl, refl)
  bound_lem none false exc kind ks = (joined queue false exc kind name ks, refl, refl)
  bound_lem (some mv) true exc kind ks = (joined queue true exc kind name ks, refl, refl)
  bound_lem (some mv) false exc kind ks = (joined queue false exc kind name ks, refl, refl)

  maybe_bound :
      (verify : Option ReceiverHandler) (on without : Bool) (exc kind : String) (ks : List String)
      → Takes on
          (if without
            then []
            else declare_exchange exc kind none ∷ map (λ k. bind_queue name k exc) ks)
          (manual_ack (
            if without
            then sink_of def verify on limit interval queue
            else bind_exchange exc ks (sink_of def verify on limit interval queue) kind))
  maybe_bound verify on true exc kind ks = plain_lem verify on
  maybe_bound verify on false exc kind ks = bound_lem verify on exc kind ks

-- The calls for the exchange of the options: it is declared, and each routing key is bound in turn.
abbrev pub exchange_plan : String → String → String → List String → List Call
exchange_plan name exc kind ks =
    if exc == "" then [] else declare_exchange exc kind none ∷ map (λ k. bind_queue name k exc) ks

-- What the sink of the options is to ask of the broker, and what it keeps.
abbrev pub Consumes : Options → String → String → SinkConfig → Type 0
Consumes o kind name snk =
    (plan snk name
      ≡ declare_queue (queue_of o.queue o.lazy)
        ∷ (exchange_plan name o.exchange kind o.routing_key ++ open_stream name false ∷ []))
    × (snk.rq_config ≡ some (timeout o.retry_interval (new_requeue o.queue)))
    × (snk.retries ≡ o.retry_limit)

-- Where the publisher of the options sends a message.
abbrev pub Publishes : Options → WriterConfig → Type 0
Publishes o wc =
    (wc.topic ≡ o.pub_key)
    × (wc.exchange ≡ (if o.pub_key == "" then "" else o.pub_exchange))
    × (wc.middleware ≡ [])

bind_lem :
    (name kind k : String) (keys : List String) (snk : SinkConfig)
    → exchange_kind kind ≡ some k
    → bind name kind keys snk ≡ some (if name == "" then snk else bind_exchange name keys snk k)
unfolding bind
bind_lem name kind k keys snk e = ground (arith, e)

publisher-Publishes : (o : Options) (wc : WriterConfig) → publisher o ≡ some wc → Publishes o wc
unfolding publisher publish_to default_key default_topic default_direct default_fanout with_exchange
    new_writer
publisher-Publishes o wc e = ground (arith, eq_iff o.pub_key "", eq_iff o.pub_exchange "")

-- The sink of the options, with its exchange, of this kind.
abbrev pub bound_sink : SinkDefaults → Options → String → SinkConfig
bound_sink def o kind =
    if o.exchange == ""
    then consumer def o
    else bind_exchange o.exchange o.routing_key (consumer def o) kind

-- The publisher, the sink and the requeuer of the options.
abbrev pub parts : Options → WriterConfig → SinkConfig → List StateHandler
parts o wc snk =
    publishes wc ∷ consumes snk ∷ requeues (timeout o.retry_interval (new_requeue o.queue)) ∷ []

bound_takes :
    (def : SinkDefaults) (o : Options) (kind name : String)
    → Consumes o kind name (manual_ack (bound_sink def o kind))
unfolding consumer
bound_takes def o kind name =
    maybe_bound def o.retry_limit o.retry_interval o.queue name o.verify o.lazy (o.exchange == "")
      o.exchange kind o.routing_key

pub configure_lem :
    (def : SinkDefaults) (o : Options) (kind : String) (wc : WriterConfig)
    → exchange_kind o.exchange_type ≡ some kind
    → publisher o ≡ some wc
    → configure def o
      ≡ prepared (parts o wc (manual_ack (bound_sink def o kind))) (not (o.pub_key == ""))
unfolding configure create_writer transact_func handler_func create_requeue
configure_lem def o kind wc k p =
    let bound = bind_lem o.exchange o.exchange_type kind o.routing_key (consumer def o) k in
    let requeuer = (bound_takes def o kind "").1 in ground (arith, p, bound, requeuer)

-- With exchanges of known kinds, `run` registers its publisher, its sink and, for the queue of the sink, a
-- requeuer with the retry interval, in this order. The sink is to declare the queue, lazy if the option
-- says so, then the exchange of the options and a binding for each routing key, if there is an exchange, and
-- to consume with acknowledgements; it has the retry limit and that requeuer. The publisher has the key
-- of the options and, if the key is not empty, their exchange, and no middleware; and messages that ask for
-- no reply are to be answered exactly if the key is not empty.
exec_set_up :
    (def : SinkDefaults) (o : Options) (kind name : String) (wc : WriterConfig)
    → exchange_kind o.exchange_type ≡ some kind
    → publisher o ≡ some wc
    → (snk : SinkConfig) × (configure def o ≡ prepared (parts o wc snk) (not (o.pub_key == "")))
      × Consumes o kind name snk
      × Publishes o wc
exec_set_up def o kind name wc k p = (
  manual_ack (bound_sink def o kind),
  configure_lem def o kind wc k p,
  bound_takes def o kind name,
  publisher-Publishes o wc p,
)
