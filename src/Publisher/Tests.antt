-- ===== src/Publisher/Tests.antt =====
-- A run of the publisher over two connections, and the theorems at it.
use fluent_amqp.Base.{
  ◌≡◌, refl, true, List, [], ◌∷◌, ◌++◌, Option, some, none, arith, gather, inl, inr,
}
use fluent_amqp.Base.Int.{pos}
use fluent_amqp.Queue.{len, peek, receive, commit, put}
use fluent_amqp.Queue.Refine.{contents}
use fluent_amqp.Writer.{WriterConfig, Outgoing, no_publishing}
use fluent_amqp.Publisher.{
  Effect, declared, overflowed, published, tried, closed, Publisher, fresh, Event, puts, connects,
  checks, polls, answers, step, run,
}
use fluent_amqp.Publisher.Books.{arrivals, settled, signal_of, due}
use fluent_amqp.Publisher.Accounting.{no_message_lost}
use fluent_amqp.Publisher.Waiters.{channels, closed_by, waiters_woken_once}
use fluent_amqp.Publisher.Overflow.{check_all, one_call_per_overflow}

abbrev cfg : WriterConfig
cfg = record {
  exchange = "x";
  kind = "topic";
  middleware = [];
  topic = "";
  max_size = pos 1;
  has_handler = true;
}

abbrev waited : Outgoing
waited = record { exchange = "x"; key = "k"; msg = no_publishing; try = none; done = some 1 }

abbrev tried_once : Outgoing
tried_once = record { exchange = "x"; key = "k"; msg = no_publishing; try = some 2; done = none }

-- The first attempt fails and the message is sent again on the next connection; the message of a
-- `TrySend` is tried once.
abbrev history : List Event
history =
    puts waited
    ∷ connects none
    ∷ checks
    ∷ polls
    ∷ answers (some "down")
    ∷ puts tried_once
    ∷ connects none
    ∷ checks
    ∷ polls
    ∷ answers none
    ∷ checks
    ∷ polls
    ∷ answers (some "gone")
    ∷ []

abbrev outcome : Option Publisher → List Effect
outcome none = []
outcome (some p) = p.log

run-history :
    outcome (run cfg history fresh)
    ≡ declared "x" "topic"
      ∷ overflowed 1
      ∷ published waited (some "down")
      ∷ declared "x" "topic"
      ∷ overflowed 2
      ∷ published waited none
      ∷ closed 1
      ∷ published tried_once (some "gone")
      ∷ tried 2 (some "gone")
      ∷ closed 2
      ∷ []
unfolding run step len peek receive commit put
run-history = refl

no_message_lost_example :
    (p : Publisher) × (run cfg history fresh ≡ some p)
    × (arrivals history ≡ settled p.log ++ contents p.stream)
    × (gather signal_of p.log ≡ gather due p.log)
no_message_lost_example = no_message_lost cfg history

waiters_woken_once_example :
    (p : Publisher) × (run cfg history fresh ≡ some p)
    × (gather closed_by p.log ++ gather channels (contents p.stream) ≡ 1 ∷ 2 ∷ [])
waiters_woken_once_example = waiters_woken_once cfg history (inl refl, (inr refl, tt))

one_call_per_overflow_example :
    check_all cfg (0 ∷ 3 ∷ 4 ∷ 0 ∷ []) fresh ≡ record fresh { log = overflowed 3 ∷ [] }
one_call_per_overflow_example =
    one_call_per_overflow cfg (0 ∷ []) (4 ∷ []) 3 0 fresh refl refl (omega arith) (omega arith)
      (omega arith) (omega arith)
