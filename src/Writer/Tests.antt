-- ===== src/Writer/Tests.antt =====
-- The writer's theorems at concrete messages.
use fluent_amqp.Base.{ℕ, ◌+◌, ◌*◌, ◌≤◌, ◌<◌, arith, ◌≡◌, refl, true, false, [], ◌∷◌, some}
use fluent_amqp.Base.Int.{pos}
use fluent_amqp.Base.Text.{bytes_of, format_int}
use fluent_amqp.Amqp.{Publishing}
use fluent_amqp.Writer.{
  WriterConfig, SenderHandler, Message, no_publishing, new_writer, add_handler, prepare, ttl,
  string, nanos_per_milli,
}
use fluent_amqp.Writer.Publish.{process_message}
use fluent_amqp.Writer.Expiry.{ttl_bounds}
use fluent_amqp.Base.Text.Decimal.{read_decimal}

-- Stamps the message id.
abbrev stamp : SenderHandler
stamp m = some (true, record m { message_id = "7" })

abbrev refuse : SenderHandler
refuse m = some (false, m)

abbrev stamping : WriterConfig
stamping = record {
  exchange = "";
  kind = "direct";
  middleware = stamp ∷ [];
  topic = "";
  max_size = pos 0;
  has_handler = false;
}

stamping_lem : stamping ≡ add_handler stamp new_writer
unfolding add_handler new_writer
stamping_lem = refl

abbrev refusing : WriterConfig
refusing = record stamping { middleware = stamp ∷ refuse ∷ [] }

abbrev hello : Message
hello = record {
  msg = record no_publishing { timestamp = pos 5; delivery_mode = 2; body = 104 ∷ 105 ∷ [] };
  exchange = "";
  key = "";
}

hello_lem : hello ≡ string "hi" (prepare new_writer (pos 5))
unfolding string prepare new_writer bytes_of
hello_lem = refl

abbrev stamped : Publishing
stamped = record (hello.msg) { message_id = "7" }

process_message_tests :
    (process_message stamping.middleware hello.msg ≡ some (true, stamped))
    × (process_message refusing.middleware hello.msg ≡ some (false, stamped))
unfolding process_message
process_message_tests = (refl, refl)

ttl_test : (ttl (pos 1500000000) hello).msg.expiration ≡ "1500"
unfolding ttl format_int
ttl_test = refl

ttl_bounds_example :
    (n : ℕ) × (read_decimal (ttl (pos 1500000) hello).msg.expiration ≡ some n)
    × (n * nanos_per_milli ≤ 1500000)
    × (1500000 < (n + 1) * nanos_per_milli)
ttl_bounds_example = ttl_bounds 1500000 hello (omega arith)
