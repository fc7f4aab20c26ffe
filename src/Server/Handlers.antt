-- ===== src/Server/Handlers.antt =====
-- What the parts register with their server (amqp.go, handle), in the order of the calls of one goroutine:
-- WriterConfig.Create, ReQueueConfig.Create, SinkConfig.HandlerFunc and TransactFunc. Server/Stream has
-- `handle` under several goroutines.
use fluent_amqp.Base.{String, List, [], ◌∷◌, ◌++◌, none, some}
use fluent_amqp.Requeue.{ReQueueConfig, new_requeue}
use fluent_amqp.Sink.{SinkConfig, new_sink, manual_ack}
use fluent_amqp.Writer.{WriterConfig, new_writer}
use fluent_amqp.Config.{BrokerConfig}

-- `StateHandler`: a publisher, a sink or a requeuer, with its configuration.
pub data StateHandler : Type 0 where
  publishes : WriterConfig → StateHandler
  consumes : SinkConfig → StateHandler
  requeues : ReQueueConfig → StateHandler

abbrev pub handle : StateHandler → List StateHandler → List StateHandler
handle st handlers = handlers ++ st ∷ []

unfoldable pub create_writer : WriterConfig → List StateHandler → List StateHandler
create_writer wc handlers = handle (publishes wc) handlers

unfoldable pub create_requeue : ReQueueConfig → List StateHandler → List StateHandler
create_requeue rq handlers = handle (requeues rq) handlers

-- the sink is copied as it is at the call; its handler is an argument of the consumer loop
unfoldable pub handler_func : SinkConfig → List StateHandler → List StateHandler
unfolding create_requeue
handler_func snk handlers =
    let registered = handle (consumes snk) handlers in
    elim snk.rq_config [ none ↦ registered | some rq ↦ create_requeue rq registered ]

unfoldable pub transact_func : SinkConfig → List StateHandler → List StateHandler
unfolding handler_func manual_ack
transact_func snk handlers = handler_func (manual_ack snk) handlers

-- `Server`, as the program sees it; Server/Stream and Server/Session have its loop.
pub record Server : Type 0 where
  pub config : BrokerConfig
  pub handlers : List StateHandler

-- `BrokerConfig.Start`
abbrev pub start_server : BrokerConfig → Server
start_server bc = record { config = bc; handlers = [] }

unfoldable pub sink : Server → String → SinkConfig
unfolding new_sink
sink brk queue_name = new_sink brk.config.sinks queue_name

unfoldable pub publisher : Server → WriterConfig
unfolding new_writer
publisher brk = new_writer

unfoldable pub requeue : Server → String → ReQueueConfig
unfolding new_requeue
requeue brk original_queue = new_requeue original_queue
