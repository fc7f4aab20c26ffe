-- ===== src/Writer/Expiry.antt =====
-- How long a message lives that `Message.TTL` (writer.go) has given a time to live.
use fluent_amqp.Base.{ℕ, zero, suc, ◌+◌, ◌*◌, ◌/◌, ◌≤◌, ◌<◌, ◌≡◌, some, arith}
use fluent_amqp.Base.Int.{pos}
use fluent_amqp.Base.Text.Decimal.{read_decimal, read_decimal-format_int}
use fluent_amqp.Writer.{Message, ttl, millis, nanos_per_milli}

millis-reads : (tm : ℕ) → read_decimal (millis (pos tm)) ≡ some (tm / nanos_per_milli)
millis-reads tm = read_decimal-format_int (tm / nanos_per_milli)

-- A message with a positive time to live: its expiration is a decimal number of milliseconds, which is the
-- time rounded down, so the message expires no later than asked and less than a millisecond earlier.
pub ttl_bounds :
    (tm : ℕ) (ms : Message)
    → 0 < tm
    → (n : ℕ) × (read_decimal (ttl (pos tm) ms).msg.expiration ≡ some n)
      × (n * nanos_per_milli ≤ tm)
      × (tm < (n + 1) * nanos_per_milli)
unfolding ttl
ttl_bounds zero ms h = absurd (omega arith)
ttl_bounds (suc tm) ms h =
    (suc tm / nanos_per_milli, millis-reads (suc tm), omega arith, omega arith)
