-- ===== src/Writer/Publish.antt =====
-- writer.go, the ends of a chain of builder calls: the middleware, and how a message reaches the queue of the
-- publisher. A channel is a number.
use fluent_amqp.Base.{ℕ, Bool, true, false, List, [], ◌∷◌, Option, none, some}
use fluent_amqp.Amqp.{Error, Publishing}
use fluent_amqp.Queue.{MessageQueue, put}
use fluent_amqp.Writer.{SenderHandler, WriterConfig, Outgoing, Message}

-- `processMessage`: the answer and the message as the handlers left it
unfoldable pub process_message : List SenderHandler → Publishing → Option (Bool × Publishing)
process_message [] m = some (true, m)
process_message (handle ∷ rest) m = elim (handle m) [
  | none ↦ none
  | some (false, m') ↦ some (false, m')
  | some (true, m') ↦ process_message rest m'
]

-- What `Publish` returns and leaves: the stream, whether it has closed `done` itself, its error.
pub record Published : Type 0 where
  pub stream : MessageQueue Outgoing
  pub closed : Bool
  pub err : Option Error

abbrev pub rejected : Error
rejected = "rejected by middleware"

abbrev published_to : Option (Unit {0} × MessageQueue Outgoing) → Option Published
published_to none = none
published_to (some (u, q)) = some (record { stream = q; closed = false; err = none })

-- `Publish`, with the new channel `done`. The entry has the headers as the middleware leaves them, which later
-- writes into the same map do not change (Pipeline/Publishing has these).
unfoldable pub publish : WriterConfig → ℕ → Message → MessageQueue Outgoing → Option Published
unfolding process_message
publish wc done ms q = elim (process_message wc.middleware ms.msg) [
  | none ↦ none
  | some (false, m) ↦ some (record { stream = q; closed = true; err = some rejected })
  | some (true, m) ↦ published_to (
      put (record { msg = m; key = ms.key; exchange = ms.exchange; try = none; done = some done })
        q)
]

-- The end of a wait: the channel is ready, with what it carries, or the context has ended.
pub data Wait {ℓ} (A : Type ℓ) : Type ℓ where
  arrives : A → Wait A
  cancelled : Error → Wait A

-- `PublishWait`: `none` is a panic. A channel that `Publish` has closed is ready at once.
unfoldable pub publish_wait :
    WriterConfig
    → ℕ
    → Message
    → Wait (Unit {0})
    → MessageQueue Outgoing
    → Option (Option Error × MessageQueue Outgoing)
unfolding publish
publish_wait wc done ms wait q = elim (publish wc done ms q) [
  | none ↦ none
  | some r ↦ some (
    elim r.err [ some e ↦ some e | none ↦ elim wait [ arrives u ↦ none | cancelled e ↦ some e ] ],
    r.stream,
  )
]

-- `SendContext`
unfoldable pub send_context :
    WriterConfig
    → ℕ
    → Message
    → MessageQueue Outgoing
    → Option (Option Error × MessageQueue Outgoing)
unfolding publish
send_context wc done ms q = elim (publish wc done ms q) [
  | none ↦ none
  | some r ↦ some (r.err, r.stream)
]

-- `Send`: whether the returned channel is closed already
unfoldable pub send :
    WriterConfig → ℕ → Message → MessageQueue Outgoing → Option (Bool × MessageQueue Outgoing)
unfolding publish
send wc done ms q = elim (publish wc done ms q) [ none ↦ none | some r ↦ some (r.closed, r.stream) ]

-- `TrySend`, with the new channel `try`
unfoldable pub try_send :
    WriterConfig
    → ℕ
    → Message
    → Wait (Option Error)
    → MessageQueue Outgoing
    → Option (Option Error × MessageQueue Outgoing)
unfolding process_message
try_send wc try ms wait q = elim (process_message wc.middleware ms.msg) [
  | none ↦ none
  | some (false, m) ↦ some (none, q)
  | some (true, m) ↦
      elim (put
        (record { msg = m; key = ms.key; exchange = ms.exchange; try = some try; done = none }) q) [
          | none ↦ none
          | some (u, q') ↦ some (elim wait [ arrives err ↦ err | cancelled e ↦ some e ], q')
        ]
]
