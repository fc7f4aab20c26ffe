-- ===== src/Sink.antt =====
-- sink.go: the configuration of a consumer.
pub mod Death
pub mod Topology
pub mod Consume
pub mod Transact
pub mod DeadLetter
pub mod Protocol
pub mod Endless
mod Tests
use fluent_amqp.Base.{
  ℕ, zero, suc, String, Bool, true, false, List, [], ◌∷◌, ◌++◌, Option, none, some, ◌==◌,
  if◌then◌else◌, length,
}
use fluent_amqp.Base.Int.{ℤ, pos}
use fluent_amqp.Base.Text.{◌+s◌}
use fluent_amqp.Amqp.{Error, Value, text, Table, Delivery, insert, erase, made}
use fluent_amqp.Requeue.{ReQueueConfig, new_requeue, timeout}

-- `ReceiverHandler`: `Handle` may change the delivery, and answers whether to go on.
abbrev pub ReceiverHandler : Type 0
ReceiverHandler = Delivery → Bool × Delivery

-- `SinkExpiredHandlerFunc`, and `DefaultSinkExpiredHandler` of the broker, which is called with the
-- sink's name as well. The argument after the delivery is the number of retries.
pub data ExpiredHandler : Type 0 where
  own : (Delivery → ℤ → Bool) → ExpiredHandler
  of_broker : (String → Delivery → ℤ → Bool) → ExpiredHandler

-- The part of `BrokerConfig` that sinks read.
pub record SinkDefaults : Type 0 where
  pub retries : ℤ
  pub expired : Option (String → Delivery → ℤ → Bool)
  pub too_much : Option (String → Delivery → ℤ → Bool)
  pub threshold : ℤ
  pub verbose_logging : Bool

-- `Exchange`
pub record Exchange : Type 0 where
  pub name : String
  pub kind : String
  pub binding : List String
  pub attrs : Option Table

-- `SinkConfig`, but for its handler and its broker. A `ready` callback stands by its answer.
pub record SinkConfig : Type 0 where
  pub name : String
  pub queue_name : String
  pub bindings : List Exchange
  pub middleware : List ReceiverHandler
  pub ready : List (Option Error)
  pub auto_ack : Bool
  pub verbose_logging : Bool
  pub dead_queue : String
  pub dead_exchange : String
  pub attrs : Option Table
  pub retries : ℤ
  pub expired : Option ExpiredHandler
  pub too_much : Option ExpiredHandler
  pub threshold : ℤ
  pub rq_config : Option ReQueueConfig

abbrev default_handler : Option (String → Delivery → ℤ → Bool) → Option ExpiredHandler
default_handler none = none
default_handler (some h) = some (of_broker h)

abbrev default_threshold : SinkDefaults → Option (String → Delivery → ℤ → Bool) → ℤ
default_threshold def none = pos 0
default_threshold def (some h) = def.threshold

-- `newSink`
unfoldable pub new_sink : SinkDefaults → String → SinkConfig
new_sink def queue = record {
  name = "";
  queue_name = queue;
  bindings = [];
  middleware = [];
  ready = [];
  auto_ack = true;
  verbose_logging = def.verbose_logging;
  dead_queue = "";
  dead_exchange = "";
  attrs = none;
  retries = def.retries;
  expired = default_handler def.expired;
  too_much = default_handler def.too_much;
  threshold = default_threshold def def.too_much;
  rq_config = none;
}

-- `Name`
unfoldable pub named : String → SinkConfig → SinkConfig
named name snk = record snk { name = name }

unfoldable pub on_expired : (Delivery → ℤ → Bool) → SinkConfig → SinkConfig
on_expired handler snk = record snk { expired = some (own handler) }

unfoldable pub on_too_much_retries : ℤ → (Delivery → ℤ → Bool) → SinkConfig → SinkConfig
on_too_much_retries threshold handler snk = record snk {
  too_much = some (own handler);
  threshold = threshold;
}

-- `Requeue`
unfoldable pub requeue_after : ℤ → SinkConfig → SinkConfig
unfolding new_requeue timeout
requeue_after interval snk = record snk {
  rq_config = some (timeout interval (new_requeue snk.queue_name));
}

unfoldable pub manual_ack : SinkConfig → SinkConfig
manual_ack snk = record snk { auto_ack = false }

unfoldable pub verbose : Bool → SinkConfig → SinkConfig
verbose on snk = record snk { verbose_logging = on }

-- `Use`
unfoldable pub add_handler : ReceiverHandler → SinkConfig → SinkConfig
add_handler handler snk = record snk { middleware = snk.middleware ++ handler ∷ [] }

unfoldable pub attr : String → Value → SinkConfig → SinkConfig
attr name value snk = record snk { attrs = some (insert name value (made snk.attrs)) }

-- `delete` of a nil map does nothing.
abbrev without : String → Option Table → Option Table
without name none = none
without name (some t) = some (erase name t)

unfoldable pub dead_letter_queue : String → SinkConfig → SinkConfig
unfolding attr
dead_letter_queue name snk =
    let snk' : SinkConfig = record snk { dead_queue = name } in
    if name == ""
    then record snk' { attrs = without "x-dead-letter-routing-key" snk'.attrs }
    else attr "x-dead-letter-routing-key" (text name) snk'

unfoldable pub dead_letter_exchange : String → SinkConfig → SinkConfig
unfolding attr
dead_letter_exchange name snk =
    let snk' : SinkConfig = record snk { dead_exchange = name } in
    if name == ""
    then record snk' { attrs = without "x-dead-letter-exchange" snk'.attrs }
    else attr "x-dead-letter-exchange" (text name) snk'

unfoldable pub lazy : SinkConfig → SinkConfig
unfolding attr
lazy snk = attr "x-queue-mode" (text "lazy") snk

-- `Retries`
unfoldable pub retry_limit : ℤ → SinkConfig → SinkConfig
retry_limit count snk = record snk { retries = count }

unfoldable pub dead_letter : String → String → SinkConfig → SinkConfig
unfolding dead_letter_exchange dead_letter_queue
dead_letter exchange routing_key snk =
    dead_letter_queue routing_key (dead_letter_exchange exchange snk)

unfoldable pub keep_dead : SinkConfig → SinkConfig
unfolding dead_letter
keep_dead snk = dead_letter "dead.messages" (snk.queue_name +s "/dead") snk

-- `Ready`
unfoldable pub add_ready : Option Error → SinkConfig → SinkConfig
add_ready answer snk = record snk { ready = snk.ready ++ answer ∷ [] }

-- `exchange`: the sink and the pointer to the new exchange, which is its place in `bindings`
unfoldable pub exchange : String → String → SinkConfig → ℕ × SinkConfig
exchange name kind snk = (
  length snk.bindings,
  record snk {
    bindings = snk.bindings ++ record { name = name; kind = kind; binding = []; attrs = none } ∷ [];
  },
)

-- The methods `Topic`, `Direct` and `Fanout`, of a sink and, for its sink, of an exchange.
unfoldable pub topic : String → SinkConfig → ℕ × SinkConfig
unfolding exchange
topic name snk = exchange name "topic" snk

unfoldable pub direct : String → SinkConfig → ℕ × SinkConfig
unfolding exchange
direct name snk = exchange name "direct" snk

unfoldable pub fanout : String → SinkConfig → ℕ × SinkConfig
unfolding exchange
fanout name snk = exchange name "fanout" snk

-- A write through a pointer to an exchange.
abbrev pub update_at : ℕ → (Exchange → Exchange) → List Exchange → List Exchange
update_at i f [] = []
update_at zero f (x ∷ xs) = f x ∷ xs
update_at (suc i) f (x ∷ xs) = x ∷ update_at i f xs

-- `Exchange.Key`
unfoldable pub key : ℕ → List String → SinkConfig → SinkConfig
key exc routing_keys snk = record snk {
  bindings = update_at exc (λ e. record e { binding = e.binding ++ routing_keys }) snk.bindings;
}

-- `Exchange.Attr`
unfoldable pub exchange_attr : ℕ → String → Value → SinkConfig → SinkConfig
exchange_attr exc name value snk = record snk {
  bindings =
      update_at exc (λ e. record e { attrs = some (insert name value (made e.attrs)) })
        snk.bindings;
}
