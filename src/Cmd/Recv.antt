-- ===== src/Cmd/Recv.antt =====
-- cmd/amqp-recv/main.go: the first message is written, and every other one goes back to the broker.
pub mod First
pub mod Setup
mod Tests
use fluent_amqp.Base.{
  ℕ, suc, String, Bool, List, [], ◌∷◌, ◌++◌, Option, none, some, ◌==◌, if◌then◌else◌, leb, map,
}
use fluent_amqp.Amqp.{Error, Delivery}
use fluent_amqp.Requeue.{Ends}
use fluent_amqp.Sink.{ReceiverHandler, SinkDefaults, SinkConfig, new_sink, manual_ack}
use fluent_amqp.Sink.Consume
use fluent_amqp.Sink.Consume.{dropped, handled, arrives, consume}
use fluent_amqp.Sink.Transact.{Effect, transact}
use fluent_amqp.Base.Text.{◌+s◌}
use fluent_amqp.Certs.{Found, found, failed}
use fluent_amqp.Server.Handlers.{StateHandler, handler_func}
use fluent_amqp.Cmd.{exit_of, bind, with_validator, with_lazy}

-- The options that reach the sink, but for the queue.
pub record Options : Type 0 where
  pub exchange : String
  pub exchange_type : String
  pub verify : Option ReceiverHandler
  pub queue : String
  pub lazy : Bool
  pub routing_key : String
  pub out_type : String

-- the sink that `run` configures
unfoldable pub configure : SinkDefaults → Options → Option SinkConfig
unfolding new_sink with_validator with_lazy bind manual_ack
configure def o =
    let snk = with_lazy o.lazy (with_validator o.verify (new_sink def o.queue)) in
    let keys = if o.routing_key == "" then [] else o.routing_key ∷ [] in
    elim (bind o.exchange o.exchange_type keys snk) [ none ↦ none | some s ↦ some (manual_ack s) ]

-- The handlers of the four output formats, by what they write. `dump`, `json` and `template` are written
-- by libraries.
pub data OutType : Type 0 where
  body dump json template : OutType

-- `none` is the panic for an unknown format
unfoldable pub out_type : String → Option OutType
out_type name =
    if name == "dump"
    then some dump
    else if name == "json"
    then some json
    else if name == "body"
    then some body
    else if name == "plain"
    then some body
    else if name == "template"
    then some template
    else none

module _ (library : OutType → Delivery → List ℕ) where
  unfoldable pub render : OutType → Delivery → List ℕ
  render body msg = msg.body
  render dump msg = library dump msg
  render json msg = library json msg
  render template msg = library template msg

  -- `Handle` of a format, by the error of its write, if any; `none` is a panic. `dump` reads no error.
  unfoldable pub write : OutType → Option Error → Delivery → Option (List ℕ)
  unfolding render
  write dump err msg = some (render dump msg)
  write t none msg = some (render t msg)
  write t (some e) msg = none

  -- What is written of the messages that `limited.Handle` passes on.
  unfoldable pub output : OutType → (Delivery → Option Error) → List Delivery → Option (List ℕ)
  unfolding write
  output t write_error [] = some []
  output t write_error (msg ∷ msgs) =
      let later = output t write_error msgs in
      elim (write t (write_error msg) msg) [
        | none ↦ none
        | some now ↦ elim later [ none ↦ none | some others ↦ some (now ++ others) ]
      ]

-- `limited`
pub record Limited : Type 0 where
  pub num : ℕ
  pub idx : ℕ

abbrev pub limit_reached : Error
limit_reached = "limit reached"

-- `limited.Handle`: the messages that it passes to its `HandlerFunc`, its result, and its new state
unfoldable pub limited_handle : Limited → Delivery → List Delivery × Option Error × Limited
limited_handle dh msg =
    if leb dh.num dh.idx
    then ([], some limit_reached, dh)
    else (msg ∷ [], none, record dh { idx = suc dh.idx })

-- How a delivery is settled: dropped by the loop of the sink, or by the transaction of the handler.
pub data Outcome : Type 0 where
  rejected : Outcome
  settled : List Effect → Outcome

-- `limited` under the loop of the sink: what is written, how the deliveries are settled, and its new state.
unfoldable pub serve :
    SinkConfig → Ends → Limited → List Consume.Effect → List Delivery × List Outcome × Limited
unfolding limited_handle
serve snk ends dh [] = ([], [], dh)
serve snk ends dh (handled msg ∷ effects) =
    let (now, result, dh') = limited_handle dh msg in
    let (later, outcomes, end) = serve snk ends dh' effects in
    (now ++ later, settled (transact snk msg result ends) ∷ outcomes, end)
serve snk ends dh (dropped ∷ effects) =
    let (later, outcomes, end) = serve snk ends dh effects in (later, rejected ∷ outcomes, end)
serve snk ends dh (_ ∷ effects) = serve snk ends dh effects

-- The deliveries in their order, through the loop of the sink, while no `Nack` fails.
unfoldable pub receive : SinkConfig → Ends → Limited → List Delivery → List Delivery × List Outcome
unfolding serve
receive snk ends dh msgs =
    let inputs = map (λ msg. arrives msg none) msgs in
    let (written, outcomes, end) = serve snk ends dh (consume snk inputs).0 in (written, outcomes)

-- The handler that `run` has chosen by the format, an error, or a panic.
pub data Chosen : Type 0 where
  chosen : OutType → Chosen
  broken : Error → Chosen
  panics : Chosen

-- The content of standard input, if it can be read, and the parser of templates: its error, if any.
module _ (stdin : Found (List ℕ)) (parse : List ℕ → Option Error) where
  unfoldable pub template_of : Found (List ℕ) → Chosen
  template_of (failed e) = broken e
  template_of (found content) = elim (parse content) [ some e ↦ broken e | none ↦ chosen template ]

  -- the `switch` on the format
  unfoldable pub choose : Option OutType → Chosen
  unfolding template_of
  choose none = panics
  choose (some template) = template_of stdin
  choose (some t) = chosen t

-- How `run` ends, or what it has registered with the server when it has come to its wait.
pub data Prepared : Type 0 where
  fails : Error → Prepared
  crashes : Prepared
  waits : OutType → List StateHandler → Prepared

-- `run`, up to the wait for messages
unfoldable pub run : Found (List ℕ) → (List ℕ → Option Error) → SinkDefaults → Options → Prepared
unfolding choose out_type configure handler_func
run stdin parse def o = elim (choose stdin parse (out_type o.out_type)) [
  | panics ↦ crashes
  | broken e ↦ fails e
  | chosen t ↦ elim (configure def o) [
    | none ↦ fails ("unknown exchange type " +s o.exchange_type)
    | some snk ↦ waits t (handler_func snk [])
  ]
]

-- `main`: the exit status, by whether the version is asked for, the error of the flags and what `run` does;
-- `none` is a panic
unfoldable pub main : Bool → Option Error → Prepared → Option ℕ
main version parse_err prepared = if version then some 0 else elim parse_err [
  | some e ↦ some 1
  | none ↦ elim prepared [
    | crashes ↦ none
    | fails e ↦ some (exit_of (some e))
    | waits t handlers ↦ some (exit_of none)
  ]
]
