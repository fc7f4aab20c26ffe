-- ===== src/Cmd/Queues.antt =====
-- The queue of a sink that the programs of cmd/ set up, and the calls for its exchange.
use fluent_amqp.Base.{
  String, ◌≡◌, ap, Bool, true, false, not, List, [], ◌∷◌, ◌++◌, map, append-nil, Option, none, some,
  ◌==◌,
}
use fluent_amqp.Amqp.{Table, entry, empty, text}
use fluent_amqp.Requeue.{QueueDeclaration}
use fluent_amqp.Sink.Topology.{declare_exchange, declare_queue, bind_queue, open_stream}

-- The arguments of the queue.
abbrev pub queue_args : Bool → Option Table
queue_args true = some (entry "x-queue-mode" (text "lazy") empty)
queue_args false = none

-- The queue that is declared: it lasts if it has a name of its own.
abbrev pub queue_of : String → Bool → QueueDeclaration
queue_of name on = record {
  name = name;
  durable = not (name == "");
  auto_delete = name == "";
  args = queue_args on;
}

-- The calls of the plan without the empty ones.
pub joined :
    (queue : String) (on : Bool) (exc kind name : String) (ks : List String)
    → declare_queue (queue_of queue on)
        ∷ declare_exchange exc kind none
        ∷ (map (λ k. bind_queue name k exc) ks ++ [] ++ open_stream name false ∷ [])
      ≡ declare_queue (queue_of queue on)
        ∷ declare_exchange exc kind none
        ∷ (map (λ k. bind_queue name k exc) ks ++ open_stream name false ∷ [])
joined queue on exc kind name ks =
    ap
      (λ l.
        declare_queue (queue_of queue on)
        ∷ declare_exchange exc kind none
        ∷ (l ++ open_stream name false ∷ []))
      (append-nil (map (λ k. bind_queue name k exc) ks))
