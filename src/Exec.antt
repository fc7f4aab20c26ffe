-- ===== src/Exec.antt =====
-- cmd/amqp-exec/main.go: what the program sends for a message, from the output of the application.
pub mod Process
pub mod Replies
pub mod Order
pub mod Status
mod Tests
use fluent_amqp.Base.{
  ℕ, String, Bool, true, false, not, ◌&&◌, List, [], ◌∷◌, Option, none, some, ◌==◌, if◌then◌else◌,
}
use fluent_amqp.Base.Int.{ℤ}
use fluent_amqp.Amqp.{Error, text, Delivery}
use fluent_amqp.Queue.{MessageQueue}
use fluent_amqp.Writer.{WriterConfig, Outgoing, Message, prepare, reply_to_delivery, bytes, header}
use fluent_amqp.Writer.Publish.{Wait, publish_wait}

-- `handler`, but for its publisher; the map of headers stands in the order of the iteration
pub record Handler : Type 0 where
  pub auto_reply : Bool
  pub empty_publish : Bool
  pub multi_line : Bool
  pub copy_text : String
  pub export_env : List String
  pub headers : List (String × String)

-- One call of `send`: its data, the time, the new channel, and the end of the wait of `PublishWait`.
pub record Attempt : Type 0 where
  pub data_sent : List ℕ
  pub now : ℤ
  pub channel : ℕ
  pub wait : Wait (Unit {0})

abbrev pub is_empty : List ℕ → Bool
is_empty [] = true
is_empty (x ∷ xs) = false

-- the loop over the map of headers
unfoldable pub add_headers : List (String × String) → Message → Message
add_headers [] ms = ms
add_headers ((k, v) ∷ rest) ms = add_headers rest (header k (text v) ms)

-- `os.Getenv`, and Go's conversion of bytes to a string.
module _ (env : String → String) (string_of : List ℕ → String) where
  unfoldable pub add_env : List String → Message → Message
  add_env [] ms = ms
  add_env (name ∷ rest) ms = add_env rest (header name (text (env name)) ms)

  -- the headers of `send`
  unfoldable pub decorate : Handler → Delivery → Message → Message
  unfolding add_headers add_env
  decorate h msg ms =
      let copied =
        if h.copy_text == "" then ms else header h.copy_text (text (string_of msg.body)) ms in
      add_env h.export_env (add_headers h.headers copied)

  -- the message that `send` publishes, if any
  unfoldable pub outgoing : Handler → WriterConfig → Delivery → Attempt → Option Message
  unfolding decorate bytes reply_to_delivery prepare
  outgoing h wc msg a =
      if is_empty a.data_sent && not h.empty_publish
      then none
      else if not (msg.reply_to == "")
      then some (decorate h msg (bytes a.data_sent (reply_to_delivery wc a.now msg)))
      else if h.auto_reply
      then some (decorate h msg (bytes a.data_sent (prepare wc a.now)))
      else none

  -- `send`; `none` is a panic
  unfoldable pub send :
      Handler
      → WriterConfig
      → Delivery
      → Attempt
      → MessageQueue Outgoing
      → Option (Option Error × MessageQueue Outgoing)
  unfolding outgoing publish_wait
  send h wc msg a q = elim (outgoing h wc msg a) [
    | none ↦ some (none, q)
    | some ms ↦ publish_wait wc a.channel ms a.wait q
  ]

  -- the loop over the lines
  unfoldable pub send_lines :
      Handler
      → WriterConfig
      → Delivery
      → List Attempt
      → MessageQueue Outgoing
      → Option (Option Error × MessageQueue Outgoing)
  send_lines h wc msg [] q = some (none, q)
  send_lines h wc msg (a ∷ rest) q = elim (send h wc msg a q) [
    | none ↦ none
    | some (some err, q') ↦ some (some err, q')
    | some (none, q') ↦ send_lines h wc msg rest q'
  ]

-- What the application did: it failed (to start, or, unless it prints lines, in its exit status), or it printed the
-- data of these calls of `send`.
pub data Ran : Type 0 where
  broke : Error → Ran
  printed : Attempt → Ran

pub data Started : Type 0 where
  not_started : Error → Started
  lines : List Attempt → Started

module _ (env : String → String) (string_of : List ℕ → String) where
  -- `Handle`, by what `runApplication` and `runMultiLineApplication` return
  unfoldable pub handle :
      Handler
      → WriterConfig
      → Delivery
      → Ran
      → Started
      → MessageQueue Outgoing
      → Option (Option Error × MessageQueue Outgoing)
  handle h wc msg ran started q =
      if h.multi_line
      then elim started [
        | not_started e ↦ some (some e, q)
        | lines attempts ↦ send_lines env string_of h wc msg attempts q
      ]
      else elim ran [ broke e ↦ some (some e, q) | printed a ↦ send env string_of h wc msg a q ]
