-- ===== src/Sink/Topology.antt =====
-- sink.go, the first part of `sink.ChannelReady`: the calls that declare the queues, the exchanges and the
-- bindings, up to the loop.
pub mod Plan
use fluent_amqp.Base.{
  String, ◌≡◌, refl, ◌∙◌, ap, Bool, true, false, not, List, [], ◌∷◌, ◌++◌, Option, none, some, ◌==◌,
  arith, if◌then◌else◌, map, append_assoc, ◌||◌, gather, gather-append, append-nil,
}
use fluent_amqp.Amqp.{Error, Table}
use fluent_amqp.Requeue.{QueueDeclaration}
use fluent_amqp.Sink.{Exchange, SinkConfig}

-- A call of the channel, with the arguments that are not the same constant everywhere; `ready` is a call of
-- a callback.
pub data Call : Type 0 where
  declare_exchange : (name kind : String) → Option Table → Call
  declare_queue : QueueDeclaration → Call
  bind_queue : (queue key exchange : String) → Call
  open_stream : (queue : String) → (auto_ack : Bool) → Call
  ready : Option Error → Call

-- The answer to a call: the broker's, or the callback's own.
abbrev pub answer_to : (Call → Option Error) → Call → Option Error
answer_to broker (ready answer) = answer
answer_to broker call = broker call

-- The calls made so far, and how the function ended: it goes on (`none`), or has returned an error.
abbrev pub Run : Type 0
Run = List Call × Option Error

-- The declaration of the sink's own queue.
abbrev pub own_queue : SinkConfig → QueueDeclaration
own_queue cfg = record {
  name = cfg.queue_name;
  durable = not (cfg.queue_name == "");
  auto_delete = cfg.queue_name == "";
  args = cfg.attrs;
}

-- The broker's answers.
module _ (broker : Call → Option Error) where
  -- `if err := <call>; err != nil { return err }`, and what follows it
  pub then_do : Call → Run → Run
  then_do call later = elim (answer_to broker call) [
    | none ↦ (call ∷ later.0, later.1)
    | some err ↦ (call ∷ [], some err)
  ]

  pub declare_dead : SinkConfig → Run → Run
  unfolding then_do
  declare_dead cfg later =
      let bind =
        if cfg.dead_exchange == "" || cfg.dead_queue == ""
        then later
        else then_do (bind_queue cfg.dead_queue cfg.dead_queue cfg.dead_exchange) later in
      let queue =
        if cfg.dead_queue == ""
        then bind
        else then_do
            (declare_queue
              (record { name = cfg.dead_queue; durable = true; auto_delete = false; args = none }))
            bind in
      if cfg.dead_exchange == ""
      then queue
      else then_do (declare_exchange cfg.dead_exchange "direct" none) queue

  pub bind_keys : String → String → List String → Run → Run
  unfolding then_do
  bind_keys queue exchange [] later = later
  bind_keys queue exchange (key ∷ keys) later =
      then_do (bind_queue queue key exchange) (bind_keys queue exchange keys later)

  pub bind_exchanges : String → List Exchange → Run → Run
  unfolding then_do bind_keys
  bind_exchanges queue [] later = later
  bind_exchanges queue (exc ∷ rest) later =
      then_do (declare_exchange exc.name exc.kind exc.attrs)
        (bind_keys queue exc.name exc.binding (bind_exchanges queue rest later))

  pub call_ready : List (Option Error) → Run
  unfolding then_do
  call_ready [] = ([], none)
  call_ready (handler ∷ rest) = then_do (ready handler) (call_ready rest)

  -- `ChannelReady` up to the loop; `name` is the name the broker gives to the sink's queue.
  pub set_up : SinkConfig → (name : String) → Run
  unfolding declare_dead then_do bind_exchanges call_ready
  set_up cfg name = declare_dead cfg (
      then_do (declare_queue (own_queue cfg)) (
        bind_exchanges name cfg.bindings
          (then_do (open_stream name cfg.auto_ack) (call_ready cfg.ready))))
