-- ===== src/Sink/Death.antt =====
-- sink.go: what a sink reads from the `x-death` header that the broker adds to dead-lettered messages.
use fluent_amqp.Base.{String, ◌≡◌, Option, none, some, arith}
use fluent_amqp.Base.Int.{ℤ, pos}
use fluent_amqp.Amqp.{
  Value, text, integer, int64, array, table, Values, cons, Table, lookup, lookup?,
}

-- The first entry of the header, if the header is a non-empty array that begins with a table.
pub first_death : Option Value → Option Table
first_death (some (array (cons (table t) rest))) = some t
first_death _ = none

count_of : Option Value → ℤ
count_of (some (integer int64 n)) = n
count_of _ = pos 0

pub count_in : Option Table → ℤ
unfolding count_of
count_in none = pos 0
count_in (some t) = count_of (lookup "count" t)

-- `getRedelivery`; the argument is `msg.Headers`
unfoldable pub get_redelivery : Option Table → ℤ
unfolding first_death count_in
get_redelivery headers = count_in (first_death (lookup? "x-death" headers))

key_of : Option Value → String → String
key_of (some (array (cons (text rk) rest))) routing_key = rk
key_of _ routing_key = routing_key

key_in : Option Table → String → String
unfolding key_of
key_in none routing_key = routing_key
key_in (some t) routing_key = key_of (lookup "routing-keys" t) routing_key

-- `restoreRoutingKey`
unfoldable pub restore_routing_key : Option Table → String → String
unfolding first_death key_in
restore_routing_key headers routing_key =
    key_in (first_death (lookup? "x-death" headers)) routing_key

-- A header that the broker writes: its first entry is the table `t`.
abbrev pub HasDeath : Option Table → Table → Type 0
HasDeath headers t =
    (rest : Values) × (lookup? "x-death" headers ≡ some (array (cons (table t) rest)))

-- A message that was dead-lettered, with the count `n` and the first routing key `rk` in its first
-- entry, has been redelivered `n` times and had the routing key `rk`; a message without the header has
-- been redelivered 0 times and keeps its routing key.
pub death_is_read :
    (headers : Option Table) (t : Table) (n : ℤ) (rk routing_key : String) (keys : Values)
    → HasDeath headers t
    → lookup "count" t ≡ some (integer int64 n)
    → lookup "routing-keys" t ≡ some (array (cons (text rk) keys))
    → (get_redelivery headers ≡ n) × (restore_routing_key headers routing_key ≡ rk)
unfolding get_redelivery restore_routing_key
death_is_read headers t n rk routing_key keys (rest, e) c k = (ground arith, ground arith)

pub no_death :
    (headers : Option Table) (routing_key : String)
    → lookup? "x-death" headers ≡ none
    → (get_redelivery headers ≡ pos 0) × (restore_routing_key headers routing_key ≡ routing_key)
unfolding get_redelivery restore_routing_key
no_death headers routing_key e = (ground arith, ground arith)
