-- ===== src/Server/Session.antt =====
-- amqp.go: `onConnectionEstablished` and `createChannel`, the goroutines of one connection.
pub mod Clean
pub mod Onward
pub mod Returns
mod Tests
use fluent_amqp.Base.{
  ◌≡◌, Bool, true, false, List, [], ◌∷◌, ◌++◌, All, Option, none, some, if◌then◌else◌,
}
use fluent_amqp.Amqp.{Error}

-- What a goroutine does, in its order; `open_channel` carries the answer of `conn.Channel()`.
pub data Call : Type 0 where
  open_channel : Option Error → Call
  set_qos channel_ready close_channel cancel_context done : Call

-- `createChannel`, by the answers of `conn.Channel()` and `ch.Qos`; the second component is whether there
-- is a channel
unfoldable pub create_channel : Option Error → Option Error → List Call × Bool
create_channel (some e) qos = (open_channel (some e) ∷ [], false)
create_channel none (some e) = (open_channel none ∷ set_qos ∷ close_channel ∷ [], false)
create_channel none none = (open_channel none ∷ set_qos ∷ [], true)

-- The body of a goroutine; what it has deferred comes in the reverse order.
unfoldable pub goroutine : Option Error → Option Error → List Call
unfolding create_channel
goroutine opened qos =
    let (calls, ok) = create_channel opened qos in
    calls ++ ((if ok then channel_ready ∷ close_channel ∷ [] else []) ++ cancel_context ∷ done ∷ [])

-- Where `onConnectionEstablished` stands: in its loop over the handlers, in `wg.Wait()`, or at its end.
pub data Stage : Type 0 where
  looping waiting returned : Stage

-- What each goroutine has still to do, what all of them did, and whether the child context is cancelled.
pub record Session : Type 0 where
  pub stage : Stage
  pub routines : List (List Call)
  pub trail : List Call
  pub is_cancelled : Bool

abbrev pub established : Session
established = record { stage = looping; routines = []; trail = []; is_cancelled = false }

-- One goroutine makes its next call.
pub data Picks : Call → List (List Call) → List (List Call) → Type 0 where
  here :
      {c : Call} {rest : List Call} {rs : List (List Call)} → Picks c ((c ∷ rest) ∷ rs) (rest ∷ rs)
  other :
      {c : Call} {r : List Call} {rs rs' : List (List Call)}
      → Picks c rs rs'
      → Picks c (r ∷ rs) (r ∷ rs')

abbrev pub cancels : Call → Bool → Bool
cancels cancel_context before = true
cancels _ before = before

-- The steps of the session. The stream of the handlers ends with the child context. `channel_ready` is the return
-- of a handler, which is up to the handler: it may come at any time, or never.
pub data Step : Session → Session → Type 0 where
  spawn :
      (s : Session) (opened qos : Option Error)
      → s.stage ≡ looping
      → Step s (record s { routines = goroutine opened qos ∷ s.routines })
  work :
      (s : Session) (c : Call) (rs : List (List Call))
      → Picks c s.routines rs
      → Step s (record s {
        routines = rs;
        trail = s.trail ++ c ∷ [];
        is_cancelled = cancels c s.is_cancelled;
      })
  interrupt : (s : Session) → Step s (record s { is_cancelled = true })
  loop_end :
      (s : Session)
      → s.stage ≡ looping
      → s.is_cancelled ≡ true
      → Step s (record s { stage = waiting })
  leave :
      (s : Session)
      → s.stage ≡ waiting
      → All (λ r. r ≡ []) s.routines
      → Step s (record s { stage = returned; is_cancelled = true })

pub data Reach : Session → Session → Type 0 where
  stay : {s : Session} → Reach s s
  next : {s t u : Session} → Reach s t → Step t u → Reach s u
