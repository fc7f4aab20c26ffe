-- ===== src/Server/Tests.antt =====
-- The theorems of the connection at small inputs: three URLs of which the second answers; a server that
-- is shut down in its second wait; a handler added while the stream waits.
use fluent_amqp.Base.{
  ℕ, zero, suc, ◌<◌, ◌≡◌, refl, ◌⊎◌, true, false, List, [], ◌∷◌, ◌++◌, Option, none, some, All,
  arith,
}
use fluent_amqp.Amqp.{Error}
use fluent_amqp.Server.{
  Dialed, connected, unreachable, Connection, failed, all_unreachable, dial_to_first_reachable,
  State, ready, connection_established, disconnected, idle, finished, elapsed, cancelled, start,
}
use fluent_amqp.Server.Dial.{IsSkipped, Stops, dial_cases}
use fluent_amqp.Server.Life.{Follows, start-Follows}
use fluent_amqp.Server.Stream.{
  System, connection, handler_at, waiting, append, read, emit, sent, Reach, here, next,
}
use fluent_amqp.Server.Stream.Complete.{every_handler_streamed}

dial : ℕ → Dialed ℕ
dial (suc zero) = connected 7
dial _ = unreachable "refused"

abbrev stands : ℕ → Option Error
stands url = none

abbrev urls : List ℕ
urls = 0 ∷ 1 ∷ 2 ∷ []

dial_cases_example :
    (All (IsSkipped dial stands) urls
      × (dial_to_first_reachable dial stands urls ≡ (urls, failed all_unreachable)))
    ⊎ ((before : List ℕ) × (url : ℕ) × (after : List ℕ) × (r : Connection ℕ) × (urls
          ≡ before ++ url ∷ after)
        × All (IsSkipped dial stands) before
        × Stops dial stands url r
        × (dial_to_first_reachable dial stands urls ≡ (before ++ url ∷ [], r)))
dial_cases_example = dial_cases dial stands urls

start-Follows_example :
    (rest : List State) × ((start true (elapsed false ∷ cancelled "closed" ∷ [])).0 ≡ ready ∷ rest)
    × Follows ready rest
    × ((start true (elapsed false ∷ cancelled "closed" ∷ [])).1 ≡ some "closed")
start-Follows_example = start-Follows true (elapsed false ∷ cancelled "closed" ∷ [])

states :
    (start true (elapsed false ∷ cancelled "closed" ∷ [])).0
    ≡ ready ∷ connection_established ∷ disconnected ∷ idle ∷ ready ∷ idle ∷ finished ∷ []
unfolding start
states = refl

-- The stream has sent its one handler and waits, when another one is appended.
abbrev added : System ℕ
added = record {
  handlers = 4 ∷ 5 ∷ [];
  refresh = false;
  adding = 1;
  streamer = waiting 1;
  streamed = 4 ∷ [];
}

added_reached : Reach (connection (4 ∷ []) false 0) added
unfolding handler_at
added_reached =
    next
      (next (next (next here (read 0 refl)) (emit 0 1 4 refl (ground arith) refl))
        (sent 1 1 refl (ground arith)))
      (append 5)

every_handler_streamed_example :
    ((rest : List ℕ) × (added.handlers ≡ added.streamed ++ rest))
    × ((n : ℕ)
        → added.streamer ≡ waiting n
        → (added.streamed ≡ added.handlers) ⊎ ((added.refresh ≡ true) ⊎ (0 < added.adding)))
every_handler_streamed_example = every_handler_streamed (4 ∷ []) false 0 added added_reached
