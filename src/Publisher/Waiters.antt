-- ===== src/Publisher/Waiters.antt =====
-- Those who wait for a message are woken once: when it is settled, and not before.
use fluent_amqp.Base.{
  ℕ, ◌≡◌, refl, sym, ◌∙◌, ap, ap₂, ◌⊎◌, List, [], ◌∷◌, ◌++◌, Option, none, some, arith, All,
  All-split, gather, gather-append,
}
use fluent_amqp.Writer.{WriterConfig, Outgoing}
use fluent_amqp.Queue.Refine.{contents}
use fluent_amqp.Publisher.{
  Effect, declared, overflowed, published, tried, closed, Publisher, fresh, Event, run,
}
use fluent_amqp.Publisher.Books.{settled_by, settled, signal_of, due, arrivals}
use fluent_amqp.Publisher.Accounting.{no_message_lost}

abbrev pub channel : Option ℕ → List ℕ
channel none = []
channel (some ch) = ch ∷ []

-- The channels of a message.
abbrev pub channels : Outgoing → List ℕ
channels m = channel m.try ++ channel m.done

-- `TrySend` sets the one, `Publish` the other.
abbrev pub HasOneChannel : Outgoing → Type 0
HasOneChannel m = (m.try ≡ none) ⊎ (m.done ≡ none)

-- The channels closed, in order.
abbrev pub closed_by : Effect → List ℕ
closed_by (closed ch) = ch ∷ []
closed_by _ = []

closed_by-signals :
    (log : List Effect) → gather closed_by (gather signal_of log) ≡ gather closed_by log
closed_by-signals [] = refl
closed_by-signals (closed ch ∷ log) = ap (◌∷◌ ch) (closed_by-signals log)
closed_by-signals (declared a b ∷ log) = closed_by-signals log
closed_by-signals (overflowed n ∷ log) = closed_by-signals log
closed_by-signals (published m err ∷ log) = closed_by-signals log
closed_by-signals (tried ch err ∷ log) = closed_by-signals log

due-channels :
    (e : Effect)
    → All HasOneChannel (settled_by e)
    → gather closed_by (due e) ≡ gather channels (settled_by e)
due-channels (published m none) (h, _) = ground arith
due-channels (published m (some err)) h = ground arith
due-channels (declared a b) h = refl
due-channels _ h = refl

gather-due :
    (log : List Effect)
    → All HasOneChannel (settled log)
    → gather closed_by (gather due log) ≡ gather channels (settled log)
gather-due [] h = refl
gather-due (e ∷ log) h =
    let (first, rest) = All-split HasOneChannel (settled_by e) (settled log) h in
    gather-append closed_by (due e) (gather due log)
    ∙ ap₂ ◌++◌ (due-channels e first) (gather-due log rest)
    ∙ sym (gather-append channels (settled_by e) (settled log))

-- If each message put has one channel at most: the channels closed so far, followed by the channels of
-- the messages still queued, are the channels of the messages put, each as often and in the same
-- order. So no channel is closed before its message is settled, and none twice unless two messages
-- share it.
pub waiters_woken_once :
    (cfg : WriterConfig) (es : List Event)
    → All HasOneChannel (arrivals es)
    → (p : Publisher) × (run cfg es fresh ≡ some p)
      × (gather closed_by p.log ++ gather channels (contents p.stream)
          ≡ gather channels (arrivals es))
waiters_woken_once cfg es h =
    let (p, ran, books, signals) = no_message_lost cfg es in
    let whole : All HasOneChannel (settled p.log ++ contents p.stream) = rw books at h in
    let mine = (All-split HasOneChannel (settled p.log) (contents p.stream) whole).0 in
    let shut : gather closed_by p.log ≡ gather channels (settled p.log) =
      sym (closed_by-signals p.log) ∙ ap (gather closed_by) signals ∙ gather-due p.log mine in
    (p, ran, rw (books, gather-append channels (settled p.log) (contents p.stream), shut))
