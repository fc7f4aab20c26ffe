-- ===== src/Lib.antt =====
-- A model of fluent-amqp, a Go library over streadway/amqp that keeps consumers ("sinks") and
-- publishers alive over reconnections.
--
-- How the parts work together. A program configures writers and sinks on a broker. A writer's
-- messages pass its middleware and are put in an unlimited queue in memory; the publisher's loop takes
-- them from the front, hands them to the broker and removes them, over as many connections as it
-- takes. A sink declares its queue, exchanges and bindings, and consumes deliveries: it counts
-- retries, asks the handlers of old messages, runs its middleware, and calls its handler, which in a
-- transaction acknowledges the message, returns it, or hands a copy to the requeuer.
--
-- Files, and what of the repository they model:
--  - Base, with Base/Lists, Base/Int, Base/Text: library names, lists, integers over the native
--    naturals, texts and their UTF-8 bytes, and in Base/Text/Decimal a reader of decimal numbers.
--  - Amqp: the types of streadway/amqp that the program fills or reads, and Go's map operations.
--  - Headers: utils.go (BoolHeader, StringHeader, IntHeader, FloatHeader). Signals: SignalContext.
--  - Queue: internal/message_queue.go, one function per method, as state passing; `none` is a panic.
--    Queue/Refine: the list that the queue stands for. Queue/Wakeup: the interleavings of writers and
--    the one reader, as a step relation whose steps are the locked parts and the channel operations.
--  - Writer: writer.go (WriterConfig, Writer, Message) and middleware.go. Writer/Publish: the middleware and
--    the ways to send a message. A channel is a number.
--    Writer/Expiry: the time to live as the broker reads it.
--  - Publisher: writer.go, publisher.ChannelReady. A run is a list of events: writers that put,
--    connections, the rounds of the loop, the broker's answers, the end of the context. The log records
--    what the loop does to channels and to the broker.
--  - Certs: certs.go (sign, messageSigner, messageValidator, the searches of a PEM file). Certs/Files: the
--    signer and the validator of a file, WriterConfig.Sign and SinkConfig.Validate. Certs/Requeued: a signed
--    message on its way through a requeuer.
--  - Requeue: requeuer.go, its functions. Requeue/Calls: its loop, any number of callers of Requeue, and the
--    connections that start the loop, as a step relation. Requeue/Promise: the interface Requeue, as a record
--    that the transactions of a sink take.
--  - Sink: sink.go, the configuration. Sink/Topology: the declarations of sink.ChannelReady.
--    Sink/Consume: its loop. Sink/Death: getRedelivery and restoreRoutingKey. Sink/Transact:
--    TransactFunc. Sink/DeadLetter: the dead letter arguments. Sink/Protocol: AMQP's rule for
--    acknowledgements, as a bookkeeping of the tags of a channel that is independent of the code.
--    Sink/Endless: a message that fails in a sink without a requeuer.
--  - Server: amqp.go, dialToFirstReachable and the loop of start, with the states of
--    docs/connection_state.dot in Server/Life. Server/Stream: handle and streamHandlers, as a step
--    relation. Server/Session: onConnectionEstablished and createChannel, the goroutines of a
--    connection; when a handler returns is left open. Server/Session/Onward: their steps but for interrupts.
--    Server/Handlers: the calls Sink, Publisher and Requeue of a server, and what Create, HandlerFunc and
--    TransactFunc register with it. Server/Exchanges: the methods of an exchange that go on with its sink.
--    Server/Register: HandlerFunc in one goroutine and the deliveries in another.
--    Server/Mask: maskPassword, and the log of a dial (Server/Mask/Log).
--  - Rpc: rpc.go. A run is a list of requests and deliveries; a reply channel is a number. Rpc/Release: the
--    end of BuildRPC. Rpc/Build: what BuildRPC registers. Rpc/RoundTrip: a request, and the answer that a
--    sink makes with Writer.Reply.
--  - Config: config.go. Config/Retries: the sink, its requeuer and a broker that returns the copies,
--    over the life of a message.
--  - Exec: cmd/amqp-exec/main.go, the replies of its handler. Exec/Process: the application of a
--    message, and in Exec/Status its exit status. Exec/Order: the maps of headers, which Go walks in any order.
--  - Cmd: what the command line programs make of their options. Cmd/Recv: cmd/amqp-recv/main.go, with its
--    limit. Cmd/Send: cmd/amqp-send/main.go. Cmd/Replier: run of cmd/amqp-exec/main.go.
--    Cmd/Queues: the queue that amqp-recv and amqp-exec declare. The mains end with an exit status.
--  - Sample: example/cmd/fluent-sample/main.go, what it configures and registers (Sample/SetUp), and its
--    handlers.
--
-- Three modules put the parts together: Pipeline, from the calls of Publish through the publisher's loop and a
-- broker to the handler of a sink; Sink/Transact/AtLeastOnce, a transaction that fails and the requeuer under
-- all of its callers; and Config/Retries, the life of a message that fails.
--
-- Parameters. The broker's answers, the ends of contexts, the handlers and the middleware are
-- arguments. So are the results of dialing, the content of files and of standard input, the wrapping of
-- errors, what becomes of the process of an application, the splitting of its output in lines, the decoding of
-- JSON, hashing, signatures, PEM decoding and key parsing (Certs.Crypto) and the conversions to floating point
-- (Headers.FloatOps).
-- Theorems on the PEM search assume of the decoder only that each rest is shorter than its input.
--
-- Bounds and fuel. Go's int and int64 are integers; IntHeader keeps its wrap-around. The PEM searches run
-- on fuel, the length of the file and one more, which is enough because each block shortens the rest.
-- The life of a message (Config/Retries) runs on fuel too: two more than its limit of retries is enough. Nothing
-- else needs fuel: a loop of the program is a function on the list of what happens to it, or a relation.
--
-- Not modelled: log output but that of a dial, the flags of the programs, the output formats of cmd/amqp-recv
-- that libraries write, flags/writer.go, which is a
-- record without code, what a broker does inside, and, but in Pipeline, the map of headers that a message shares
-- with what it has put in the queue: elsewhere headers are values, as they are if a message is published once.
pub mod Base
pub mod Amqp
pub mod Headers
pub mod Queue
pub mod Writer
pub mod Publisher
pub mod Certs
pub mod Requeue
pub mod Sink
pub mod Server
pub mod Rpc
pub mod Config
pub mod Exec
pub mod Cmd
pub mod Sample
pub mod Pipeline
pub mod Signals
