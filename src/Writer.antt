-- ===== src/Writer.antt =====
-- writer.go, middleware.go and internal/types.go: writers and the messages that they build. A method that changes its receiver returns the new
-- value.
pub mod Publish
pub mod Middleware
pub mod Sending
pub mod Building
pub mod Expiry
mod Tests
use fluent_amqp.Base.{ℕ, zero, String, Bool, true, false, List, [], ◌∷◌, ◌++◌, Option, none, some}
use fluent_amqp.Base.Int.{ℤ, pos, quot_ℕ}
use fluent_amqp.Base.Text.{bytes_of, format_int}
use fluent_amqp.Amqp.{Error, Value, Table, Delivery, Publishing, insert, made}
use fluent_amqp.Queue.{MessageQueue, put}

-- `SenderHandler`: `Handle` may change the message, and answers whether to send it; `none` is a panic.
abbrev pub SenderHandler : Type 0
SenderHandler = Publishing → Option (Bool × Publishing)

-- `WriterConfig`. The overflow handler is a callback that is only called, so the model keeps whether
-- it is set.
pub record WriterConfig : Type 0 where
  pub exchange : String
  pub kind : String
  pub middleware : List SenderHandler
  pub topic : String
  pub max_size : ℤ
  pub has_handler : Bool

-- `newWriter`
unfoldable pub new_writer : WriterConfig
new_writer = record {
  exchange = "";
  kind = "direct";
  middleware = [];
  topic = "";
  max_size = pos 0;
  has_handler = false;
}

unfoldable pub with_exchange : String → String → WriterConfig → WriterConfig
with_exchange name kind wc = record wc { exchange = name; kind = kind }

-- `Use`
unfoldable pub add_handler : SenderHandler → WriterConfig → WriterConfig
add_handler handler wc = record wc { middleware = wc.middleware ++ handler ∷ [] }

unfoldable pub default_topic : String → WriterConfig → WriterConfig
unfolding with_exchange
default_topic name wc = with_exchange name "topic" wc

unfoldable pub default_direct : String → WriterConfig → WriterConfig
unfolding with_exchange
default_direct name wc = with_exchange name "direct" wc

unfoldable pub default_fanout : String → WriterConfig → WriterConfig
unfolding with_exchange
default_fanout name wc = with_exchange name "fanout" wc

unfoldable pub default_key : String → WriterConfig → WriterConfig
default_key routing_key wc = record wc { topic = routing_key }

-- `Overflow`, with a handler that is not nil
unfoldable pub overflow : ℤ → WriterConfig → WriterConfig
overflow max_queue_size wc = record wc { max_size = max_queue_size; has_handler = true }

-- `internal.Message`. A channel stands by its number.
pub record Outgoing : Type 0 where
  pub exchange : String
  pub key : String
  pub msg : Publishing
  pub try : Option ℕ
  pub done : Option ℕ

-- `Message`, without the pointer to its writer
pub record Message : Type 0 where
  pub msg : Publishing
  pub exchange : String
  pub key : String

-- `amqp.Publishing{}`
abbrev pub no_publishing : Publishing
no_publishing = record {
  headers = none;
  content_type = "";
  content_encoding = "";
  delivery_mode = 0;
  correlation_id = "";
  reply_to = "";
  expiration = "";
  message_id = "";
  timestamp = pos 0;
  type = "";
  body = [];
}

-- `amqp.Persistent`
abbrev pub persistent : ℕ
persistent = 2

-- `Prepare`, at the time `now`
unfoldable pub prepare : WriterConfig → ℤ → Message
prepare wc now = record {
  msg = record no_publishing { timestamp = now; delivery_mode = persistent };
  exchange = wc.exchange;
  key = wc.topic;
}

-- `Writer.Reply`
unfoldable pub reply_to_delivery : WriterConfig → ℤ → Delivery → Message
unfolding prepare
reply_to_delivery wc now d =
    let ms = prepare wc now in
    record ms {
      exchange = "";
      key = d.reply_to;
      msg = record (ms.msg) { correlation_id = d.correlation_id };
    }

unfoldable pub time : ℤ → Message → Message
time stamp ms = record ms { msg = record (ms.msg) { timestamp = stamp } }

unfoldable pub id : String → Message → Message
id name ms = record ms { msg = record (ms.msg) { message_id = name } }

unfoldable pub exchange : String → Message → Message
exchange name ms = record ms { exchange = name }

unfoldable pub header : String → Value → Message → Message
header name value ms = record ms {
  msg = record (ms.msg) { headers = some (insert name value (made ms.msg.headers)) };
}

-- `Type`, which sets the content type
unfoldable pub type : String → Message → Message
type content_type ms = record ms { msg = record (ms.msg) { content_type = content_type } }

unfoldable pub content_type : String → Message → Message
content_type mime ms = record ms { msg = record (ms.msg) { content_type = mime } }

unfoldable pub key : String → Message → Message
key name ms = record ms { key = name }

unfoldable pub reply_to : String → String → Message → Message
reply_to correlation_id queue_name ms = record ms {
  msg = record (ms.msg) { correlation_id = correlation_id; reply_to = queue_name };
}

-- `Message.Reply`
unfoldable pub reply : String → String → Message → Message
reply correlation_id queue_name ms = record ms {
  msg = record (ms.msg) { correlation_id = correlation_id };
  exchange = "";
  key = queue_name;
}

-- `Bytes`
unfoldable pub bytes : List ℕ → Message → Message
bytes content ms = record ms { msg = record (ms.msg) { body = content } }

-- `String`
unfoldable pub string : String → Message → Message
unfolding bytes
string content ms = bytes (bytes_of content) ms

-- `JSON`; the argument is what `json.MarshalIndent` returned, `none` for an error, on which it panics
unfoldable pub json : Option (List ℕ) → Message → Option Message
json none ms = none
json (some v) ms =
    some (record ms { msg = record (ms.msg) { body = v; content_type = "application/json" } })

unfoldable pub json_content : List ℕ → Message → Message
unfolding content_type bytes
json_content content ms = bytes content (content_type "application/json" ms)

abbrev nanos_per_milli : ℕ
nanos_per_milli = 1000000

-- `strconv.FormatInt(int64(tm/time.Millisecond), 10)` for a duration in nanoseconds
abbrev pub millis : ℤ → String
millis tm = format_int (quot_ℕ tm nanos_per_milli)

unfoldable pub ttl : ℤ → Message → Message
ttl (pos zero) ms = ms
ttl tm ms = record ms { msg = record (ms.msg) { expiration = millis tm } }
