-- ===== src/Requeue.antt =====
-- requeuer.go: a message that could not be processed is published to a queue of its own, from which the
-- broker returns it to the original queue when its expiration is over.
pub mod Promise
pub mod Calls
mod Tests
use fluent_amqp.Base.{String, Bool, not, List, [], ◌∷◌, Option, none, some, ◌==◌}
use fluent_amqp.Base.Int.{ℤ, pos}
use fluent_amqp.Base.Text.{◌+s◌}
use fluent_amqp.Amqp.{Error, text, Table, empty, entry, Delivery, Publishing, insert, made}
use fluent_amqp.Writer.{millis}

abbrev pub last_error_header : String
last_error_header = "x-fluent-amqp-last-message-error"

-- `ReQueueConfig`; the timeout is in nanoseconds
pub record ReQueueConfig : Type 0 where
  pub queue_name : String
  pub target_queue : String
  pub timeout : ℤ

-- `newRequeue`
unfoldable pub new_requeue : String → ReQueueConfig
new_requeue target_queue = record {
  queue_name = target_queue +s "/requeue";
  target_queue = target_queue;
  timeout = pos 10000000000;
}

unfoldable pub timeout : ℤ → ReQueueConfig → ReQueueConfig
timeout tm rq = record rq { timeout = tm }

unfoldable pub queue : String → ReQueueConfig → ReQueueConfig
queue name rq = record rq { queue_name = name }

-- A call of `ch.QueueDeclare`
pub record QueueDeclaration : Type 0 where
  pub name : String
  pub durable : Bool
  pub auto_delete : Bool
  pub args : Option Table

-- The declaration that `requeue.ChannelReady` makes.
unfoldable pub declaration : ReQueueConfig → QueueDeclaration
declaration rq = record {
  name = rq.queue_name;
  durable = not (rq.queue_name == "");
  auto_delete = rq.queue_name == "";
  args = some (
      entry "x-dead-letter-routing-key" (text rq.target_queue)
        (entry "x-dead-letter-exchange" (text "") empty));
}

-- The message that `Requeue` makes of a delivery.
unfoldable pub publishing : ReQueueConfig → Delivery → Publishing
publishing rq original = record {
  headers = original.headers;
  content_type = original.content_type;
  content_encoding = original.content_encoding;
  delivery_mode = 0;
  correlation_id = original.correlation_id;
  reply_to = original.reply_to;
  expiration = millis rq.timeout;
  message_id = original.message_id;
  timestamp = original.timestamp;
  type = original.type;
  body = original.body;
}

-- What the loop of `requeue.ChannelReady` does with one message: it publishes to the default exchange
-- with the queue's name as the key, hands the answer to the caller, and goes on or returns.
pub data Effect : Type 0 where
  published : (exchange key : String) → Publishing → Option Error → Effect
  told : Option Error → Effect
  returned : Error → Effect

stop : Option Error → List Effect
stop none = []
stop (some err) = returned err ∷ []

unfoldable pub serve : String → Publishing → Option Error → List Effect
unfolding stop
serve queue_name m answer = published "" queue_name m answer ∷ told answer ∷ stop answer

-- How the two waits of `Requeue` end: the context ends before the message has a place in the channel
-- `messages`, or after, or the loop tells the answer.
pub data Ends : Type 0 where
  never_taken : Error → Ends
  abandoned : Error → Ends
  answered : Option Error → Ends

-- `Requeue`: its result
unfoldable pub requeue : Ends → Option Error
requeue (never_taken e) = some e
requeue (abandoned e) = some e
requeue (answered answer) = answer

-- `RequeueWithError`: the delivery that it requeues
unfoldable pub marked : Delivery → Option Error → Delivery
marked original none = original
marked original (some err) = record original {
  headers = some (insert last_error_header (text err) (made original.headers));
}
