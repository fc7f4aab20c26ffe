-- ===== src/Cmd/Send.antt =====
-- cmd/amqp-send/main.go: standard input becomes one message.
pub mod Entry
mod Tests
use fluent_amqp.Base.{ℕ, String, Bool, List, Option, none, some, ◌==◌, if◌then◌else◌}
use fluent_amqp.Base.Int.{ℤ}
use fluent_amqp.Base.Text.{◌+s◌}
use fluent_amqp.Amqp.{Error}
use fluent_amqp.Queue.{MessageQueue}
use fluent_amqp.Writer.{
  SenderHandler, WriterConfig, new_writer, default_key, add_handler, Outgoing, Message, prepare,
  bytes, id, ttl, type, reply_to,
}
use fluent_amqp.Writer.Publish.{Wait, publish_wait}
use fluent_amqp.Exec.{add_headers}
use fluent_amqp.Cmd.{publish_to, exit_of}

-- The options; `sign` is the signer of the key file.
pub record Options : Type 0 where
  pub exchange : String
  pub exchange_type : String
  pub sign : Option SenderHandler
  pub message_id : String
  pub reply_to : String
  pub correlation_id : String
  pub headers : List (String × String)
  pub content_type : String
  pub ttl : ℤ
  pub routing_key : String

-- How the wait for standard input ends.
pub data Input : Type 0 where
  content : List ℕ → Input
  unreadable : Input
  cancelled : Error → Input

with_signer : Option SenderHandler → WriterConfig → WriterConfig
unfolding add_handler
with_signer none wc = wc
with_signer (some h) wc = add_handler h wc

-- the writer that `run` configures; `none` is the error for an unknown kind
unfoldable pub configure : Options → Option WriterConfig
unfolding new_writer publish_to default_key with_signer
configure o =
    elim (if o.exchange == ""
      then some new_writer
      else publish_to o.exchange o.exchange_type new_writer) [
        | none ↦ none
        | some wc ↦ some (with_signer o.sign (default_key o.routing_key wc))
      ]

-- The message; `uuid` is the id that is generated if the option is empty.
unfoldable pub message : Options → String → ℤ → List ℕ → WriterConfig → Message
unfolding prepare bytes id ttl add_headers type reply_to
message o uuid now input wc =
    let name = if o.message_id == "" then uuid else o.message_id in
    let ms = ttl o.ttl (id name (bytes input (prepare wc now))) in
    reply_to o.correlation_id o.reply_to (type o.content_type (add_headers o.headers ms))

-- `run`: its result and the queue; the error of `PublishWait` is written to the log only
unfoldable pub run :
    Options
    → String
    → ℤ
    → ℕ
    → Wait (Unit {0})
    → Input
    → MessageQueue Outgoing
    → Option (Option Error × MessageQueue Outgoing)
unfolding configure message publish_wait
run o uuid now done wait input q = elim (configure o) [
  | none ↦ some (some ("unknown exchange type " +s o.exchange_type), q)
  | some wc ↦ elim input [
    | unreadable ↦ some (some "read STDIN", q)
    | cancelled e ↦ some (some e, q)
    | content read ↦ elim (publish_wait wc done (message o uuid now read wc) wait q) [
      | none ↦ none
      | some (err, q') ↦ some (none, q')
    ]
  ]
]

-- `main`: the exit status and the queue, by whether the version is asked for and by the error of the flags
unfoldable pub main :
    Bool
    → Option Error
    → Options
    → String
    → ℤ
    → ℕ
    → Wait (Unit {0})
    → Input
    → MessageQueue Outgoing
    → Option (ℕ × MessageQueue Outgoing)
unfolding run
main version parse_err o uuid now done wait input q =
    if version then some (0, q) else elim parse_err [
      | some e ↦ some (1, q)
      | none ↦ elim (run o uuid now done wait input q) [
        | none ↦ none
        | some (err, q') ↦ some (exit_of err, q')
      ]
    ]
