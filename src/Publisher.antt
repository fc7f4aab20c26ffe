-- ===== src/Publisher.antt =====
-- writer.go, `publisher.ChannelReady`: the loop that hands queued messages to the broker. The
-- broker, the writers and the context act between its steps, so a run is a list of events.
pub mod Books
pub mod Rounds
pub mod Accounting
pub mod Waiters
pub mod Overflow
pub mod Drain
pub mod EndToEnd
mod Tests
use fluent_amqp.Base.{
  ℕ, String, Bool, true, false, not, ◌&&◌, List, [], ◌∷◌, ◌++◌, Option, none, some, ◌==◌,
  if◌then◌else◌,
}
use fluent_amqp.Base.Int.{pos, ltb_ℤ}
use fluent_amqp.Amqp.{Error}
use fluent_amqp.Queue.{MessageQueue, zero_queue, len, peek, receive, commit, put}
use fluent_amqp.Writer.{WriterConfig, Outgoing}

-- What the loop does to the world. `published` is one call of `ch.Publish` with its answer.
pub data Effect : Type 0 where
  declared : (name kind : String) → Effect
  overflowed : ℕ → Effect
  published : Outgoing → Option Error → Effect
  tried : ℕ → Option Error → Effect
  closed : ℕ → Effect

-- Where the goroutine stands: outside `ChannelReady`, with what it returned; at the top of the
-- loop; in `Peek`; in `ch.Publish`.
pub data Point : Type 0 where
  returned : Option Error → Point
  top peeking : Point
  publishing : Outgoing → Point

-- `publisher`, the local variable `overflow`, and the effects so far.
pub record Publisher : Type 0 where
  pub stream : MessageQueue Outgoing
  pub overflow : Bool
  pub point : Point
  pub log : List Effect

abbrev pub fresh : Publisher
fresh = record { stream = zero_queue; overflow = false; point = returned none; log = [] }

-- What happens next. `connects` is the server calling `ChannelReady` with the answer of the exchange
-- declaration, `answers` the end of the call of `ch.Publish`, `cancels` the end of the context,
-- `puts` a writer's `stream.Put`. `checks` and `polls` are the loop's own steps.
pub data Event : Type 0 where
  puts : Outgoing → Event
  connects : Option Error → Event
  checks polls : Event
  answers : Option Error → Event
  cancels : Error → Event

abbrev note : Effect → Publisher → Publisher
note e p = record p { log = p.log ++ e ∷ [] }

abbrev at : Point → Publisher → Publisher
at point p = record p { point = point }

-- An operation on the queue inside the publisher; `none` is a panic.
abbrev on_stream {ℓ} :
    {B : Type ℓ}
    → (MessageQueue Outgoing → Option (B × MessageQueue Outgoing))
    → (B → Publisher → Option Publisher)
    → Publisher
    → Option Publisher
on_stream op k p = elim (op p.stream) [ none ↦ none | some (b, q) ↦ k b (record p { stream = q }) ]

module _ (cfg : WriterConfig) where
  -- up to the `for`
  pub connect : Option Error → Publisher → Publisher
  connect answer p =
      if cfg.exchange == ""
      then at top (record p { overflow = false })
      else at (elim answer [ none ↦ top | some err ↦ returned (some err) ])
          (note (declared cfg.exchange cfg.kind) (record p { overflow = false }))

  -- the overflow check at the top of a round, for `n` queued messages
  pub check_overflow : ℕ → Publisher → Publisher
  check_overflow n p =
      if ltb_ℤ (pos n) cfg.max_size
      then record p { overflow = false }
      else if not p.overflow && cfg.has_handler
      then note (overflowed n) (record p { overflow = true })
      else p

  pub check : Publisher → Option Publisher
  unfolding check_overflow
  check = on_stream len (λ n p. some (at peeking (check_overflow n p)))

-- one round of `Peek`: it returns the front message, or waits
pub seek : Option Outgoing → Publisher → Option Publisher
seek (some m) p = some (at (publishing m) p)
seek none p = on_stream receive (λ _ p'. some p') p

pub poll : Publisher → Option Publisher
unfolding seek
poll = on_stream peek seek

pub drop_front : Publisher → Option Publisher
drop_front = on_stream commit (λ _ p. some p)

-- `if msg.Try != nil`
pub settle_try : Option ℕ → Option Error → Publisher → Option Publisher
unfolding drop_front
settle_try none err p = some p
settle_try (some ch) err p = drop_front (note (closed ch) (note (tried ch err) p))

-- `if msg.Done != nil`
pub settle_done : Option ℕ → Publisher → Publisher
settle_done none p = p
settle_done (some ch) p = note (closed ch) p

-- `if msg.Try == nil`
pub settle_commit : Option ℕ → Publisher → Option Publisher
unfolding drop_front
settle_commit none p = drop_front p
settle_commit (some ch) p = some p

-- from the return of `ch.Publish` to the end of the round
pub after_try : Outgoing → Option Error → Publisher → Option Publisher
unfolding settle_done settle_commit
after_try m (some err) p = some (at (returned (some err)) p)
after_try m none p = elim (settle_commit m.try (settle_done m.done p)) [
  | none ↦ none
  | some p' ↦ some (at top p')
]

pub answer : Outgoing → Option Error → Publisher → Option Publisher
unfolding settle_try after_try
answer m err p = elim (settle_try m.try err (note (published m err) p)) [
  | none ↦ none
  | some p' ↦ after_try m err p'
]

module _ (cfg : WriterConfig) where
  -- An event that cannot happen where the goroutine stands changes nothing. The context may end
  -- between the look at an empty queue and the wait, so `cancels` asks nothing of the queue.
  pub dispatch : Point → Event → Publisher → Option Publisher
  unfolding connect check poll answer
  dispatch _ (puts m) p = on_stream (put m) (λ _ p'. some p') p
  dispatch (returned r) (connects a) p = some (connect cfg a p)
  dispatch top checks p = check cfg p
  dispatch peeking polls p = poll p
  dispatch (publishing m) (answers err) p = answer m err p
  dispatch peeking (cancels err) p = some (at (returned (some err)) p)
  dispatch _ _ p = some p

  unfoldable pub step : Event → Publisher → Option Publisher
  unfolding dispatch
  step e p = dispatch p.point e p

  unfoldable pub run : List Event → Publisher → Option Publisher
  run [] p = some p
  run (e ∷ es) p = elim (step e p) [ none ↦ none | some p' ↦ run es p' ]
