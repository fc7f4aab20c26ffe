-- ===== src/Requeue/Tests.antt =====
-- A sink that requeues one message: on a connection that holds, and on one that is lost while the message
-- lies in the channel.
use fluent_amqp.Base.{◌≡◌, refl, inl, true, [], ◌∷◌, none, some}
use fluent_amqp.Writer.{no_publishing}
use fluent_amqp.Amqp.{Publishing}
use fluent_amqp.Requeue.Calls.{
  offering, awaiting, finished, Request, stopped, waiting, publishing, System, start, set_call,
  Step, call_inside, send, receive, publish, hear, connect, Reach, here, next,
}
use fluent_amqp.Requeue.Calls.Own.{each_hears_its_own}
use fluent_amqp.Requeue.Calls.Trail.{own_log}
use fluent_amqp.Requeue.Calls.Deadlock.{IsQueued, lost_connection_hangs}

abbrev copy : Publishing
copy = record no_publishing { message_id = "7" }

abbrev request : Request
request = record { call = 0; msg = copy }

abbrev connected : System
connected = record start { session = true; loop = waiting }

abbrev called : System
called = record connected { calls = set_call 0 (offering copy) connected.calls; inside = 0 ∷ [] }

abbrev queued : System
queued = record called { calls = set_call 0 (awaiting copy) called.calls; messages = some request }

abbrev received : System
received = record queued { loop = publishing request; messages = none }

abbrev published : System
published = record received {
  loop = waiting;
  log = record { request = request; answer = none } ∷ [];
}

abbrev heard : System
heard = record published { calls = set_call 0 (finished copy none) published.calls }

queued_reached : Reach start queued
queued_reached =
    next (next (next here (connect refl)) (call_inside 0 copy refl refl)) (send 0 copy refl refl)

heard_reached : Reach start heard
heard_reached =
    next (next (next queued_reached (receive request refl refl)) (publish request none refl))
      (hear 0 copy none refl refl)

each_hears_its_own_example : own_log 0 heard.log ≡ (copy, none) ∷ []
each_hears_its_own_example = each_hears_its_own heard 0 copy none heard_reached refl

queued-IsQueued : IsQueued 0 copy queued
queued-IsQueued = record {
  open_still = refl;
  listens = refl;
  waits = refl;
  counted = inl refl;
  queued = refl;
}

lost_connection_hangs_example :
    Step queued (record queued { loop = stopped })
    × (queued.calls 0 ≡ awaiting copy)
    × ◌≡◌ stopped stopped
    × (queued.session ≡ true)
lost_connection_hangs_example =
    lost_connection_hangs queued (record queued { loop = stopped }) 0 copy queued_reached
      queued-IsQueued here refl
