-- ===== src/Cmd/Replier.antt =====
-- cmd/amqp-exec/main.go: what `run` makes of the options of amqp-exec.
pub mod Setup
pub mod Tries
mod Tests
use fluent_amqp.Base.{ℕ, String, Bool, not, List, [], Option, none, some, ◌==◌, if◌then◌else◌}
use fluent_amqp.Base.Int.{ℤ}
use fluent_amqp.Base.Text.{◌+s◌}
use fluent_amqp.Amqp.{Error}
use fluent_amqp.Sink.{
  ReceiverHandler, SinkDefaults, SinkConfig, new_sink, retry_limit, requeue_after, manual_ack,
}
use fluent_amqp.Writer.{WriterConfig, new_writer, default_key}
use fluent_amqp.Server.Handlers.{StateHandler, create_writer, transact_func}
use fluent_amqp.Cmd.{exit_of, publish_to, bind, with_validator, with_lazy}

-- The options that reach the sink and the publisher.
pub record Options : Type 0 where
  pub queue : String
  pub retry_limit : ℤ
  pub retry_interval : ℤ
  pub verify : Option ReceiverHandler
  pub lazy : Bool
  pub exchange : String
  pub exchange_type : String
  pub routing_key : List String
  pub pub_key : String
  pub pub_exchange : String
  pub pub_exchange_type : String

-- What `run` has registered with the server, when it ends with an error or has come to its wait.
pub data Prepared : Type 0 where
  unknown_kind : Error → List StateHandler → Prepared
  prepared : (handlers : List StateHandler) → (auto_reply : Bool) → Prepared

-- the sink, before its exchange
unfoldable pub consumer : SinkDefaults → Options → SinkConfig
unfolding new_sink retry_limit requeue_after with_validator with_lazy
consumer def o = with_lazy o.lazy (
    with_validator o.verify
      (requeue_after o.retry_interval (retry_limit o.retry_limit (new_sink def o.queue))))

-- the publisher; `none` is the error for an unknown kind
unfoldable pub publisher : Options → Option WriterConfig
unfolding new_writer default_key publish_to
publisher o =
    if o.pub_key == ""
    then some new_writer
    else if o.pub_exchange == ""
    then some (default_key o.pub_key new_writer)
    else publish_to o.pub_exchange o.pub_exchange_type (default_key o.pub_key new_writer)

-- `run`, up to the wait for messages
unfoldable pub configure : SinkDefaults → Options → Prepared
unfolding consumer publisher bind create_writer transact_func
configure def o = elim (publisher o) [
  | none ↦ unknown_kind ("unknown exchange type " +s o.pub_exchange_type) []
  | some wc ↦
      let started = create_writer wc [] in
      elim (bind o.exchange o.exchange_type o.routing_key (consumer def o)) [
        | none ↦ unknown_kind ("unknown exchange type " +s o.exchange_type) started
        | some snk ↦ prepared (transact_func snk started) (not (o.pub_key == ""))
      ]
]

-- `main`: the exit status, by whether the version is asked for, the error of the flags and the result of
-- `run`
unfoldable pub main : Bool → Option Error → Option Error → ℕ
main version parse_err run_err =
    if version then 0 else elim parse_err [ some e ↦ 1 | none ↦ exit_of run_err ]
