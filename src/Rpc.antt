-- ===== src/Rpc.antt =====
-- rpc.go: requests over a publisher, whose replies a sink receives and hands out by correlation id.
pub mod Channels
pub mod Waiting
pub mod Replies
pub mod Release
pub mod RoundTrip
pub mod Build
mod Tests
use fluent_amqp.Base.{
  ℕ, suc, String, Bool, List, [], ◌∷◌, ◌++◌, Option, none, some, ◌==◌, if◌then◌else◌, map,
}
use fluent_amqp.Base.Int.{ℤ}
use fluent_amqp.Amqp.{Error, Delivery, Publishing}
use fluent_amqp.Writer.{WriterConfig, Message, no_publishing, prepare}

-- `rpc.correlation`: a map from correlation ids to channels, which are numbers
abbrev pub Pending : Type 0
Pending = List (String × ℕ)

-- `ch, ok := rpc.correlation[id]`
unfoldable pub waiting_for : String → Pending → Option ℕ
waiting_for id [] = none
waiting_for id ((k, ch) ∷ rest) = if k == id then some ch else waiting_for id rest

-- `rpc.correlation[id] = ch`
unfoldable pub register : String → ℕ → Pending → Pending
register id ch [] = (id, ch) ∷ []
register id ch ((k, c) ∷ rest) = if k == id then (k, ch) ∷ rest else (k, c) ∷ register id ch rest

-- `delete(rpc.correlation, id)`
unfoldable pub forget : String → Pending → Pending
forget id [] = []
forget id ((k, c) ∷ rest) = if k == id then forget id rest else (k, c) ∷ forget id rest

-- What happens to the reply channels and to the publisher.
pub data Effect : Type 0 where
  sent : Message → Effect
  delivered : ℕ → Delivery → Effect
  closed : ℕ → Effect

-- `RPC`, with the number of the next channel that `make` gives, and the effects so far
pub record Rpc : Type 0 where
  pub correlation : Pending
  pub channels : ℕ
  pub log : List Effect

-- `Reply`, without its field `data`, which nothing reads or sets
pub record Reply : Type 0 where
  pub id : String
  pub ch : ℕ

abbrev pub new_rpc : Rpc
new_rpc = record { correlation = []; channels = 0; log = [] }

-- `Raw` is called with a message, at a time, and `uuid.New` gives an id; or the sink calls `onMessage`.
pub data Event : Type 0 where
  calls : (id : String) → (now : ℤ) → Publishing → Event
  arrives : Delivery → Event

-- `onMessage`
pub on_message : Delivery → Rpc → Rpc
on_message msg rpc = elim (waiting_for msg.correlation_id rpc.correlation) [
  | none ↦ rpc
  | some ch ↦ record rpc {
    correlation = forget msg.correlation_id rpc.correlation;
    log = rpc.log ++ delivered ch msg ∷ closed ch ∷ [];
  }
]

-- The publisher of the RPC, with its default exchange and key, and the queue of the replies.
module _ (wc : WriterConfig) (queue : String) where
  -- the message that `Raw` sends: `ms.msg = *msg` replaces all that `Prepare` has set in it
  unfoldable pub request : String → ℤ → Publishing → Message
  unfolding prepare
  request id now msg =
      let ms = prepare wc now in
      record ms {
        msg = record msg {
          correlation_id = id;
          message_id = id;
          reply_to = queue;
          timestamp = now;
        };
      }

  -- `Raw`: the channel is registered before the message is sent
  pub raw : String → ℤ → Publishing → Rpc → Rpc
  raw id now msg rpc = record {
    correlation = register id rpc.channels rpc.correlation;
    channels = suc rpc.channels;
    log = rpc.log ++ sent (request id now msg) ∷ [];
  }

  -- the `Reply` that `Raw` returns
  unfoldable pub raw_reply : Rpc → Reply
  raw_reply rpc = record { id = ""; ch = rpc.channels }

  pub handle : Event → Rpc → Rpc
  unfolding raw on_message
  handle (calls id now msg) rpc = raw id now msg rpc
  handle (arrives msg) rpc = on_message msg rpc

  pub run : List Event → Rpc → Rpc
  unfolding handle
  run [] rpc = rpc
  run (e ∷ es) rpc = run es (handle e rpc)

-- the messages of `Bytes`, `Content` and `JSON`; the argument of the last is what `json.Marshal`
-- returned, `none` for an error, on which it panics
unfoldable pub bytes_message : List ℕ → Publishing
bytes_message content = record no_publishing { body = content }

unfoldable pub content_message : List ℕ → String → Publishing
content_message content mime = record no_publishing { body = content; content_type = mime }

unfoldable pub json_message : Option (List ℕ) → Option Publishing
unfolding content_message
json_message none = none
json_message (some v) = some (content_message v "application/json")

-- the end of the server: all channels that still wait are closed
pub finish : Rpc → Rpc
finish rpc = record rpc { log = rpc.log ++ map (λ p. closed p.1) rpc.correlation }

-- `Reply.Bytes`, by what came out of the channel before it was closed
unfoldable pub reply_bytes : List Delivery → Option (List ℕ)
reply_bytes [] = none
reply_bytes (msg ∷ rest) = some msg.body

-- `Reply.JSON`, with `json.Unmarshal` into the target
unfoldable pub reply_json : (List ℕ → Option Error) → List Delivery → Option Error
reply_json unmarshal [] = some "closed channel"
reply_json unmarshal (msg ∷ rest) = unmarshal msg.body
