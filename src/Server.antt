-- ===== src/Server.antt =====
-- amqp.go: the connection to the broker.
pub mod Dial
pub mod Life
pub mod Handlers
pub mod Exchanges
pub mod Mask
pub mod Register
pub mod Session
pub mod Stream
mod Tests
use fluent_amqp.Base.{Bool, true, false, List, [], ◌∷◌, ◌++◌, Option, none, some}
use fluent_amqp.Amqp.{Error}

-- What one `amqp.DialConfig` brings.
pub data Dialed (Conn : Type 0) : Type 0 where
  connected : Conn → Dialed Conn
  unreachable : Error → Dialed Conn

-- What `dialToFirstReachable` returns.
pub data Connection (Conn : Type 0) : Type 0 where
  opened : Conn → Connection Conn
  failed : Error → Connection Conn

abbrev pub all_unreachable : Error
all_unreachable = "all urls are unreachable"

-- The answers of the network to a URL, and of `ctx.Err()` after the try with it.
module _ {Url Conn : Type 0} (dial : Url → Dialed Conn) (ctx_err : Url → Option Error) where
  -- `dialToFirstReachable`, with the URLs tried
  unfoldable pub dial_to_first_reachable : List Url → List Url × Connection Conn
  dial_to_first_reachable [] = ([], failed all_unreachable)
  dial_to_first_reachable (url ∷ urls) =
      let rest = dial_to_first_reachable urls in
      elim (dial url) [
        | connected conn ↦ (url ∷ [], opened conn)
        | unreachable e ↦ elim (ctx_err url) [
          | some err ↦ (url ∷ [], failed err)
          | none ↦ (url ∷ rest.0, rest.1)
        ]
      ]

-- The states of the connection, by the comments of the handlers.
pub data State : Type 0 where
  ready connection_established disconnected idle finished : State

-- `onReady`, by whether the dial succeeded
unfoldable pub on_ready : Bool → List State
on_ready false = ready ∷ []
on_ready true = ready ∷ connection_established ∷ disconnected ∷ []

-- How the wait of `onIdle` ends: after the interval, with the result of the next dial, or with the
-- context.
pub data Wait : Type 0 where
  elapsed : Bool → Wait
  cancelled : Error → Wait

-- the loop of `start`: the states passed, and the error it returned, if it returned
unfoldable pub idle_loop : List Wait → List State × Option Error
unfolding on_ready
idle_loop [] = (idle ∷ [], none)
idle_loop (cancelled e ∷ waits) = (idle ∷ finished ∷ [], some e)
idle_loop (elapsed reached ∷ waits) =
    let (states, end) = idle_loop waits in (idle ∷ (on_ready reached ++ states), end)

-- `start`, by the result of its first dial and the waits that follow
unfoldable pub start : Bool → List Wait → List State × Option Error
unfolding on_ready idle_loop
start reached waits = let (states, end) = idle_loop waits in (on_ready reached ++ states, end)
