-- ===== src/Sink/DeadLetter.antt =====
-- sink.go: the dead letter arguments of a sink's queue, through the calls that configure it.
use fluent_amqp.Base.{
  String, ◌≡◌, refl, ◌≢◌, Bool, Option, none, some, ◌==◌, arith, if◌then◌else◌, eq_iff,
}
use fluent_amqp.Base.Int.{ℤ}
use fluent_amqp.Amqp.{Error, Value, text, Table, empty, Delivery, lookup, lookup?, insert, made}
use fluent_amqp.Amqp.Laws.{lookup-insert, lookup-erase}
use fluent_amqp.Sink.{
  ReceiverHandler, SinkDefaults, SinkConfig, new_sink, named, on_expired, on_too_much_retries,
  requeue_after, manual_ack, verbose, add_handler, attr, dead_letter_queue, dead_letter_exchange,
  lazy, retry_limit, dead_letter, keep_dead, add_ready, exchange, without,
}
use fluent_amqp.Base.Text.{◌+s◌}

abbrev pub routing_key_arg : String
routing_key_arg = "x-dead-letter-routing-key"

abbrev pub exchange_arg : String
exchange_arg = "x-dead-letter-exchange"

-- A configuration that the calls of the interface make, from a new sink. `Attr` sets neither of the two
-- dead letter arguments by hand.
pub data Built : SinkConfig → Type 0 where
  created : (def : SinkDefaults) (queue : String) → Built (new_sink def queue)
  renamed : {snk : SinkConfig} → Built snk → (name : String) → Built (named name snk)
  expires : {snk : SinkConfig} → Built snk → (h : Delivery → ℤ → Bool) → Built (on_expired h snk)
  bounded :
      {snk : SinkConfig}
      → Built snk
      → (n : ℤ) → (h : Delivery → ℤ → Bool) → Built (on_too_much_retries n h snk)
  requeues : {snk : SinkConfig} → Built snk → (interval : ℤ) → Built (requeue_after interval snk)
  manual : {snk : SinkConfig} → Built snk → Built (manual_ack snk)
  logged : {snk : SinkConfig} → Built snk → (on : Bool) → Built (verbose on snk)
  filtered : {snk : SinkConfig} → Built snk → (h : ReceiverHandler) → Built (add_handler h snk)
  has_attr :
      {snk : SinkConfig}
      → Built snk
      → (name : String) (v : Value) → name ≢ routing_key_arg
      → name ≢ exchange_arg
      → Built (attr name v snk)
  to_queue : {snk : SinkConfig} → Built snk → (name : String) → Built (dead_letter_queue name snk)
  to_exchange :
      {snk : SinkConfig} → Built snk → (name : String) → Built (dead_letter_exchange name snk)
  made_lazy : {snk : SinkConfig} → Built snk → Built (lazy snk)
  limited : {snk : SinkConfig} → Built snk → (n : ℤ) → Built (retry_limit n snk)
  to_both : {snk : SinkConfig} → Built snk → (exc key : String) → Built (dead_letter exc key snk)
  keeps_dead : {snk : SinkConfig} → Built snk → Built (keep_dead snk)
  prepared : {snk : SinkConfig} → Built snk → (answer : Option Error) → Built (add_ready answer snk)
  bound : {snk : SinkConfig} → Built snk → (name kind : String) → Built (exchange name kind snk).1

-- An argument that is set exactly when the name is not empty, and then to the name.
abbrev pub expected : String → Option Value
expected name = if name == "" then none else some (text name)

-- The arguments of the queue name the queue and the exchange that `ChannelReady` declares.
abbrev pub Agrees : SinkConfig → Type 0
Agrees snk =
    (lookup? routing_key_arg snk.attrs ≡ expected snk.dead_queue)
    × (lookup? exchange_arg snk.attrs ≡ expected snk.dead_exchange)

lookup?-insert :
    (k j : String) (v : Value) (t : Option Table)
    → lookup? j (some (insert k v (made t))) ≡ (if k == j then some v else lookup? j t)
unfolding lookup
lookup?-insert k j v none = lookup-insert k j v empty
lookup?-insert k j v (some t) = lookup-insert k j v t

lookup?-without :
    (k j : String) (t : Option Table)
    → lookup? j (without k t) ≡ (if k == j then none else lookup? j t)
lookup?-without k j none = ground arith
lookup?-without k j (some t) = lookup-erase k j t

attr-Agrees :
    (snk : SinkConfig) (name : String) (v : Value)
    → name ≢ routing_key_arg
    → name ≢ exchange_arg
    → Agrees snk
    → Agrees (attr name v snk)
unfolding attr
attr-Agrees snk name v h k (r, e) = (
  ground (arith, lookup?-insert name routing_key_arg v snk.attrs, eq_iff name routing_key_arg),
  ground (arith, lookup?-insert name exchange_arg v snk.attrs, eq_iff name exchange_arg),
)

dead_letter_queue-Agrees :
    (snk : SinkConfig) (name : String) → Agrees snk → Agrees (dead_letter_queue name snk)
unfolding dead_letter_queue attr
dead_letter_queue-Agrees snk name (r, e) = (
  ground (
    arith,
    lookup?-insert routing_key_arg routing_key_arg (text name) snk.attrs,
    lookup?-without routing_key_arg routing_key_arg snk.attrs,
  ),
  ground (
    arith,
    lookup?-insert routing_key_arg exchange_arg (text name) snk.attrs,
    lookup?-without routing_key_arg exchange_arg snk.attrs,
  ),
)

dead_letter_exchange-Agrees :
    (snk : SinkConfig) (name : String) → Agrees snk → Agrees (dead_letter_exchange name snk)
unfolding dead_letter_exchange attr
dead_letter_exchange-Agrees snk name (r, e) = (
  ground (
    arith,
    lookup?-insert exchange_arg routing_key_arg (text name) snk.attrs,
    lookup?-without exchange_arg routing_key_arg snk.attrs,
  ),
  ground (
    arith,
    lookup?-insert exchange_arg exchange_arg (text name) snk.attrs,
    lookup?-without exchange_arg exchange_arg snk.attrs,
  ),
)

-- Whatever calls configure a sink, the dead letter arguments of its queue are set exactly when the names
-- of the dead letter queue and exchange are not empty, and then to those names, provided `Attr` never sets
-- the two arguments.
pub dead_letter-Agrees : {snk : SinkConfig} → Built snk → Agrees snk
unfolding new_sink named on_expired on_too_much_retries requeue_after manual_ack verbose add_handler
    retry_limit add_ready exchange lazy dead_letter keep_dead
dead_letter-Agrees (created def queue) = (refl, refl)
dead_letter-Agrees (renamed b name) = dead_letter-Agrees b
dead_letter-Agrees (expires b h) = dead_letter-Agrees b
dead_letter-Agrees (bounded b n h) = dead_letter-Agrees b
dead_letter-Agrees (requeues b i) = dead_letter-Agrees b
dead_letter-Agrees (manual b) = dead_letter-Agrees b
dead_letter-Agrees (logged b on) = dead_letter-Agrees b
dead_letter-Agrees (filtered b h) = dead_letter-Agrees b
dead_letter-Agrees (has_attr {snk} b name v h k) = attr-Agrees snk name v h k (dead_letter-Agrees b)
dead_letter-Agrees (to_queue {snk} b name) =
    dead_letter_queue-Agrees snk name (dead_letter-Agrees b)
dead_letter-Agrees (to_exchange {snk} b name) =
    dead_letter_exchange-Agrees snk name (dead_letter-Agrees b)
dead_letter-Agrees (made_lazy {snk} b) =
    attr-Agrees snk "x-queue-mode" (text "lazy")
      (ground (arith, eq_iff "x-queue-mode" routing_key_arg))
      (ground (arith, eq_iff "x-queue-mode" exchange_arg)) (dead_letter-Agrees b)
dead_letter-Agrees (limited b n) = dead_letter-Agrees b
dead_letter-Agrees (to_both {snk} b exc key) =
    dead_letter_queue-Agrees (dead_letter_exchange exc snk) key
      (dead_letter_exchange-Agrees snk exc (dead_letter-Agrees b))
dead_letter-Agrees (keeps_dead {snk} b) =
    dead_letter_queue-Agrees (dead_letter_exchange "dead.messages" snk) (snk.queue_name +s "/dead")
      (dead_letter_exchange-Agrees snk "dead.messages" (dead_letter-Agrees b))
dead_letter-Agrees (prepared b a) = dead_letter-Agrees b
dead_letter-Agrees (bound b name kind) = dead_letter-Agrees b
