-- ===== src/Rpc/Build.antt =====
-- rpc.go, `BuildRPC`: what it registers with the server.
use fluent_amqp.Base.{String, List}
use fluent_amqp.Writer.{WriterConfig, default_direct, default_key}
use fluent_amqp.Server.Handlers.{StateHandler, Server, sink, publisher, create_writer, handler_func}

-- the publisher of the requests
unfoldable pub rpc_publisher : Server → (target_exchange target_routing_key : String) → WriterConfig
unfolding publisher default_direct default_key
rpc_publisher brk target_exchange target_routing_key =
    default_key target_routing_key (default_direct target_exchange (publisher brk))

unfoldable pub build_rpc :
    Server
    → (consumer_queue target_exchange target_routing_key : String) → List StateHandler
    → List StateHandler
unfolding rpc_publisher sink create_writer handler_func
build_rpc brk consumer_queue target_exchange target_routing_key handlers =
    handler_func (sink brk consumer_queue)
      (create_writer (rpc_publisher brk target_exchange target_routing_key) handlers)
