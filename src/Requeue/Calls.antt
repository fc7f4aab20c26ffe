-- ===== src/Requeue/Calls.antt =====
-- requeuer.go under its callers and its server: any number of calls of `Requeue`, the loop of
-- `requeue.ChannelReady`, and the connections of amqp.go that start the loop. A step is one channel
-- operation, one call of the broker, or one return.
pub mod Trail
pub mod Own
pub mod Deadlock
use fluent_amqp.Base.{
  ℕ, eqb, ◌≡◌, ◌≢◌, Bool, true, false, List, [], ◌∷◌, ◌++◌, Option, none, some, All, if◌then◌else◌,
}
use fluent_amqp.Amqp.{Error, Publishing}

-- Where a call of `Requeue` stands: not made; in its first `select`; in its second, when the message has
-- been sent; or returned, with its result.
pub data Call : Type 0 where
  idle : Call
  offering awaiting : Publishing → Call
  finished : Publishing → Option Error → Call

-- `requeueMessage`; its channel `done` is that of the call with this number
pub record Request : Type 0 where
  pub call : ℕ
  pub msg : Publishing

-- `requeue.ChannelReady`: not running, in its `select`, or in `ch.Publish`.
pub data Loop : Type 0 where
  stopped waiting : Loop
  publishing : Request → Loop

-- A call of `ch.Publish` that has returned, and its error, which the loop has put in the channel `done`.
pub record Entry : Type 0 where
  pub request : Request
  pub answer : Option Error

-- `messages` is the channel of that name, with one place. `session` says whether the server stands in
-- `onConnectionEstablished`; `inside` are the calls that the sinks of this connection have made.
pub record System : Type 0 where
  pub calls : ℕ → Call
  pub messages : Option Request
  pub loop : Loop
  pub session : Bool
  pub inside : List ℕ
  pub closed : Option Error
  pub log : List Entry

abbrev pub start : System
start = record {
  calls = λ _. idle;
  messages = none;
  loop = stopped;
  session = false;
  inside = [];
  closed = none;
  log = [];
}

abbrev pub set_call : ℕ → Call → (ℕ → Call) → ℕ → Call
set_call i c calls j = if eqb i j then c else calls j

-- What the call finds in its channel `done`.
abbrev pub answer_to : ℕ → List Entry → Option (Option Error)
answer_to i [] = none
answer_to i (e ∷ es) = if eqb e.request.call i then some e.answer else answer_to i es

-- After `ch.Publish` the loop goes on, or returns the error.
abbrev pub after_publish : Option Error → Loop
after_publish none = waiting
after_publish (some err) = stopped

abbrev pub HasReturned : Call → Type 0
HasReturned (finished p r) = Unit
HasReturned _ = ⊥

pub data Step (s : System) : System → Type 0 where
  -- a call from outside the connection, or from a handler of a sink in it
  call_outside :
      (i : ℕ) (p : Publishing)
      → s.calls i ≡ idle
      → Step s (record s { calls = set_call i (offering p) s.calls })
  call_inside :
      (i : ℕ) (p : Publishing)
      → s.calls i ≡ idle
      → s.session ≡ true
      → Step s (record s { calls = set_call i (offering p) s.calls; inside = i ∷ s.inside })
  send :
      (i : ℕ) (p : Publishing)
      → s.calls i ≡ offering p
      → s.messages ≡ none
      → Step s (record s {
        calls = set_call i (awaiting p) s.calls;
        messages = some (record { call = i; msg = p });
      })
  receive :
      (r : Request)
      → s.loop ≡ waiting
      → s.messages ≡ some r
      → Step s (record s { loop = publishing r; messages = none })
  publish :
      (r : Request) (a : Option Error)
      → s.loop ≡ publishing r
      → Step s (record s {
        loop = after_publish a;
        log = s.log ++ record { request = r; answer = a } ∷ [];
      })
  hear :
      (i : ℕ) (p : Publishing) (a : Option Error)
      → s.calls i ≡ awaiting p
      → answer_to i s.log ≡ some a
      → Step s (record s { calls = set_call i (finished p a) s.calls })
  -- the end of the context of the server, and the returns that it brings
  close : (e : Error) → s.closed ≡ none → Step s (record s { closed = some e })
  stop_offering :
      (i : ℕ) (p : Publishing) (e : Error)
      → s.calls i ≡ offering p
      → s.closed ≡ some e
      → Step s (record s { calls = set_call i (finished p (some e)) s.calls })
  stop_awaiting :
      (i : ℕ) (p : Publishing) (e : Error)
      → s.calls i ≡ awaiting p
      → s.closed ≡ some e
      → Step s (record s { calls = set_call i (finished p (some e)) s.calls })
  -- the end of the context of the connection, in the `select` of the loop
  disconnect : s.loop ≡ waiting → Step s (record s { loop = stopped })
  -- a new connection, whose declaration of the queue succeeds or fails
  connect : s.session ≡ false → Step s (record s { session = true; loop = waiting })
  connect_in_vain : s.session ≡ false → Step s (record s { session = true })
  -- `wg.Wait` returns when all handlers of the connection have returned
  end_session :
      s.session ≡ true
      → s.loop ≡ stopped
      → All (λ i. HasReturned (s.calls i)) s.inside
      → Step s (record s { session = false; inside = [] })

pub data Reach (s : System) : System → Type 0 where
  here : Reach s s
  next : {t u : System} → Reach s t → Step t u → Reach s u
