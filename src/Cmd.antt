-- ===== src/Cmd.antt =====
-- cmd/: what the command line programs make of their options. The values of the options are arguments;
-- the files that they name have been read.
pub mod Recv
pub mod Send
pub mod Replier
pub mod Queues
use fluent_amqp.Base.{ℕ, String, Bool, List, [], ◌∷◌, Option, none, some, ◌==◌, if◌then◌else◌}
use fluent_amqp.Amqp.{Error}
use fluent_amqp.Sink.{ReceiverHandler, SinkConfig, add_handler, lazy, exchange, key}
use fluent_amqp.Writer.{WriterConfig, default_topic, default_direct, default_fanout}

-- the `switch` on the kind of an exchange, which all three programs have; `none` is the error for an
-- unknown kind
unfoldable pub exchange_kind : String → Option String
exchange_kind kind =
    if kind == "topic"
    then some "topic"
    else if kind == "direct"
    then some "direct"
    else if kind == "fanout"
    then some "fanout"
    else none

-- the same for the default exchange of a publisher
unfoldable pub publish_to : String → String → WriterConfig → Option WriterConfig
unfolding default_topic default_direct default_fanout
publish_to name kind wc =
    if kind == "topic"
    then some (default_topic name wc)
    else if kind == "direct"
    then some (default_direct name wc)
    else if kind == "fanout"
    then some (default_fanout name wc)
    else none

-- An exchange of a known kind, with the routing keys.
unfoldable pub bind_exchange : String → List String → SinkConfig → String → SinkConfig
unfolding exchange key
bind_exchange name keys snk kind = let (exc, snk') = exchange name kind snk in key exc keys snk'

unfoldable pub bind : String → String → List String → SinkConfig → Option SinkConfig
unfolding exchange_kind bind_exchange
bind name kind keys snk =
    if name == ""
    then some snk
    else elim (exchange_kind kind) [ none ↦ none | some k ↦ some (bind_exchange name keys snk k) ]

-- The middleware for a certificate, and the option for a lazy queue.
unfoldable pub with_validator : Option ReceiverHandler → SinkConfig → SinkConfig
unfolding add_handler
with_validator none snk = snk
with_validator (some mv) snk = add_handler mv snk

unfoldable pub with_lazy : Bool → SinkConfig → SinkConfig
unfolding lazy
with_lazy on snk = if on then lazy snk else snk

-- The exit status for the result of `run`.
abbrev pub exit_of : Option Error → ℕ
exit_of none = 0
exit_of (some e) = 2
