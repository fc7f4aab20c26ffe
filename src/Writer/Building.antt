-- ===== src/Writer/Building.antt =====
-- What the message builder leaves in a message.
use fluent_amqp.Base.{
  ℕ, suc, ◌<◌, String, ◌≡◌, refl, ◌∙◌, ap, Option, none, some, ◌==◌, arith, if◌then◌else◌,
}
use fluent_amqp.Base.Int.{pos}
use fluent_amqp.Base.Text.{format_int}
use fluent_amqp.Amqp.{Value, Table, lookup, lookup?, made}
use fluent_amqp.Amqp.Laws.{lookup-insert}
use fluent_amqp.Writer.{Message, header, ttl}

lookup-made : (other : String) (t : Option Table) → lookup other (made t) ≡ lookup? other t
unfolding lookup
lookup-made other none = refl
lookup-made other (some t) = refl

-- After `Header(name, value)` the header `name` holds that value, and every other header what it held
-- before, also where the message had no headers at all.
pub lookup?-header :
    (name other : String) (value : Value) (ms : Message)
    → lookup? other (header name value ms).msg.headers
      ≡ (if name == other then some value else lookup? other ms.msg.headers)
unfolding header
lookup?-header name other value ms =
    lookup-insert name other value (made ms.msg.headers)
    ∙ ap (λ rest. if name == other then some value else rest) (lookup-made other ms.msg.headers)

-- A positive time to live below a millisecond is sent as the expiration `0`.
pub ttl_below_milli :
    (n : ℕ) (ms : Message) → n < 999999 → (ttl (pos (suc n)) ms).msg.expiration ≡ format_int (pos 0)
unfolding ttl
ttl_below_milli n ms h = ap (λ k. format_int (pos k)) (omega arith)
