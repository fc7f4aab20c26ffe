-- ===== src/Config/Redelivery.antt =====
-- A broker that returns messages, for examples of the life of a message.
use fluent_amqp.Base.{suc, ◌≡◌, refl, ap, some, none, []}
use fluent_amqp.Base.Int.{ℤ, pos, negsuc}
use fluent_amqp.Amqp.{
  Delivery, Publishing, entry, array, cons, nil, table, empty, integer, int64, lookup,
}
use fluent_amqp.Sink.Death.{get_redelivery}
use fluent_amqp.Config.Retries.{Counts}

abbrev pub fresh : Delivery
fresh = record {
  headers = none;
  content_type = "";
  content_encoding = "";
  correlation_id = "";
  reply_to = "";
  message_id = "";
  timestamp = pos 0;
  type = "";
  routing_key = "";
  body = [];
}

-- A broker that writes the header `x-death` with the next count.
next_count : ℤ → ℤ
next_count (pos k) = pos (suc k)
next_count (negsuc k) = negsuc k

pub redeliver : Publishing → Delivery
redeliver p = record fresh {
  headers = some (
      entry "x-death"
        (array (
          cons (table (entry "count" (integer int64 (next_count (get_redelivery p.headers))) empty))
            nil))
        empty);
  body = p.body;
}

pub redeliver-Counts : Counts redeliver
unfolding redeliver next_count get_redelivery lookup
redeliver-Counts p k e = ap next_count e

pub fresh_count : get_redelivery fresh.headers ≡ pos 0
unfolding get_redelivery lookup
fresh_count = refl
