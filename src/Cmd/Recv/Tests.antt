-- ===== src/Cmd/Recv/Tests.antt =====
-- amqp-recv on a topic exchange, with two messages.
use fluent_amqp.Base.{
  ℕ, List, Option, ◌≡◌, ◌≢◌, refl, false, true, [], ◌∷◌, ◌++◌, map, none, some, arith, eq_iff,
}
use fluent_amqp.Base.Int.{pos}
use fluent_amqp.Amqp.{Error, Delivery}
use fluent_amqp.Requeue.{answered}
use fluent_amqp.Sink.{SinkConfig, SinkDefaults}
use fluent_amqp.Sink.Transact.{acked}
use fluent_amqp.Sink.Topology.{declare_exchange, declare_queue, bind_queue, open_stream}
use fluent_amqp.Sink.Topology.Plan.{plan}
use fluent_amqp.Cmd.{exchange_kind}
use fluent_amqp.Certs.{found}
use fluent_amqp.Server.Handlers.{consumes}
use fluent_amqp.Cmd.Recv.{
  Options, receive, out_type, template, choose, chosen, waits, fails, run, main, OutType, render,
  output,
}
use fluent_amqp.Cmd.Queues.{queue_of}
use fluent_amqp.Cmd.Recv.Setup.{keys, validators, recv_takes_first}
use fluent_amqp.Cmd.Recv.First.{outcome}
use fluent_amqp.Cmd.Recv.{configure, rejected, settled}
use fluent_amqp.Cmd.{bind, bind_exchange, with_validator, with_lazy}
use fluent_amqp.Base.{Bool}
use fluent_amqp.Sink.{new_sink, manual_ack, exchange, key, lazy, attr, add_handler}
use fluent_amqp.Sink.Death.{get_redelivery, restore_routing_key}
use fluent_amqp.Sink.Consume.{dropped, handled, check_retries, run_middleware}
use fluent_amqp.Sink.Consume.Chain.{fate}

abbrev defaults : SinkDefaults
defaults = record {
  retries = pos 10;
  expired = none;
  too_much = none;
  threshold = pos 0;
  verbose_logging = true;
}

abbrev is_signed : List ℕ → Bool
is_signed [] = false
is_signed (x ∷ body) = true

abbrev options : Options
options = record {
  exchange = "shop";
  exchange_type = "topic";
  verify = some (λ msg. (is_signed msg.body, msg));
  queue = "";
  lazy = true;
  routing_key = "orders.*";
  out_type = "template";
}

abbrev message : Delivery
message = record {
  headers = none;
  content_type = "";
  content_encoding = "";
  correlation_id = "";
  reply_to = "";
  message_id = "1";
  timestamp = pos 0;
  type = "";
  routing_key = "orders.new";
  body = 7 ∷ [];
}

named : options.exchange ≢ ""
named = λ e. ground (arith, eq_iff options.exchange "")

topic : exchange_kind "topic" ≡ some "topic"
unfolding exchange_kind
topic = refl

-- Templates without a first byte are refused.
parse : List ℕ → Option Error
parse [] = some "empty"
parse content = none

chosen_format : choose (found (1 ∷ [])) parse (out_type "template") ≡ chosen template
unfolding choose out_type parse
chosen_format = refl

-- A template that writes the body twice.
library : OutType → Delivery → List ℕ
library t msg = msg.body ++ msg.body

-- The sink that `run` makes of the options; its validator refuses an empty body.
abbrev receiver : SinkConfig
unfolding manual_ack bind_exchange with_lazy with_validator new_sink
receiver = manual_ack (
    bind_exchange "shop" ("orders.*" ∷ [])
      (with_lazy true (with_validator options.verify (new_sink defaults ""))) "topic")

configured : configure defaults options ≡ some receiver
unfolding configure bind receiver
configured = ground (arith, eq_iff options.exchange "")

abbrev forged : Delivery
forged = record message { body = [] }

forged_dropped : fate receiver forged ≡ dropped
unfolding fate receiver manual_ack bind_exchange with_lazy with_validator new_sink check_retries
    run_middleware exchange key lazy attr add_handler get_redelivery
forged_dropped = refl

message_handled : fate receiver message ≡ handled message
unfolding fate receiver manual_ack bind_exchange with_lazy with_validator new_sink check_retries
    run_middleware exchange key lazy attr add_handler get_redelivery restore_routing_key
message_handled = refl

recv_takes_first_example :
    let taken =
      receive receiver
        (answered none)
        (record { num = 1; idx = 0 })
        ((forged ∷ []) ++ message ∷ (forged ∷ message ∷ [])) in
    (run (found (1 ∷ [])) parse defaults options ≡ waits template (consumes receiver ∷ []))
    × (main false none (run (found (1 ∷ [])) parse defaults options) ≡ some 0)
    × (receiver.middleware ≡ validators options.verify)
    × (plan receiver "amq.gen-1"
        ≡ declare_queue (queue_of "" true)
          ∷ declare_exchange "shop" "topic" none
          ∷ (map (λ k. bind_queue "amq.gen-1" k "shop") (keys "orders.*")
              ++ open_stream "amq.gen-1" false ∷ []))
    × (taken ≡ (
      message ∷ [],
      map (λ _. rejected) (forged ∷ [])
          ++ settled (acked ∷ []) ∷ map (λ m. outcome (fate receiver m)) (forged ∷ message ∷ []),
    ))
    × (output library template (λ msg. none) taken.0 ≡ some (render library template message))
recv_takes_first_example =
    recv_takes_first library (λ msg. none) (found (1 ∷ [])) parse template defaults options receiver
      "topic" "amq.gen-1" (answered none) (forged ∷ []) (forged ∷ message ∷ []) message message
      chosen_format named topic configured (forged_dropped, tt) message_handled refl

-- A format that the switch does not know, a template that cannot be parsed, and an exchange of no kind.
failures :
    (main false none (run (found []) parse defaults (record options { out_type = "xml" })) ≡ none)
    × (run (found []) parse defaults options ≡ fails "empty")
    × (main false none (run (found []) parse defaults options) ≡ some 2)
    × (run
          (found [])
          parse
          defaults
          (record options { out_type = "plain"; exchange_type = "headers" })
        ≡ fails "unknown exchange type headers")
unfolding run parse main
failures = (refl, refl, refl, refl)
