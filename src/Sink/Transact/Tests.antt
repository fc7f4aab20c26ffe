-- ===== src/Sink/Transact/Tests.antt =====
-- A message that fails in the sink of the orders, and whose copy the broker takes.
use fluent_amqp.Base.{◌≡◌, refl, true, [], ◌∷◌, none, some, gather, ℕ}
use fluent_amqp.Base.Int.{pos}
use fluent_amqp.Amqp.{Delivery, Publishing}
use fluent_amqp.Requeue
use fluent_amqp.Requeue.{ReQueueConfig, Ends, new_requeue, marked, answered, requeue}
use fluent_amqp.Requeue.Calls.{
  System, start, offering, awaiting, finished, Request, waiting, set_call, connect, call_inside,
  send, receive, publish, hear, Reach, here, next,
}
use fluent_amqp.Requeue.Calls.Trail.{own_log}
use fluent_amqp.Sink.{SinkConfig, SinkDefaults, new_sink, requeue_after}
use fluent_amqp.Sink.Transact.{transact, settlement, nacked}
use fluent_amqp.Sink.Transact.AtLeastOnce.{IsKept, no_failure_lost}

abbrev defaults : SinkDefaults
defaults = record {
  retries = pos 10;
  expired = none;
  too_much = none;
  threshold = pos 0;
  verbose_logging = true;
}

abbrev orders : SinkConfig
orders = requeue_after (pos 5000000000) (new_sink defaults "orders")

abbrev requeuer : ReQueueConfig
requeuer = record (new_requeue "orders") { timeout = pos 5000000000 }

abbrev order : Delivery
order = record {
  headers = none;
  content_type = "";
  content_encoding = "";
  correlation_id = "";
  reply_to = "";
  message_id = "7";
  timestamp = pos 0;
  type = "order";
  routing_key = "orders";
  body = 1 ∷ [];
}

abbrev copy : Publishing
copy = Requeue.publishing requeuer (marked order (some "late"))

abbrev request : Request
request = record { call = 3; msg = copy }

abbrev heard : System
heard = record start {
  calls =
      set_call 3 (finished copy none)
        (set_call 3 (awaiting copy) (set_call 3 (offering copy) start.calls));
  loop = waiting;
  session = true;
  inside = 3 ∷ [];
  log = record { request = request; answer = none } ∷ [];
}

heard_reached : Reach start heard
heard_reached =
    next
      (next
        (next
          (next (next (next here (connect refl)) (call_inside 3 copy refl refl))
            (send 3 copy refl refl))
          (receive request refl refl))
        (publish request none refl))
      (hear 3 copy none refl refl)

no_failure_lost_example :
    IsKept copy
      (gather settlement (transact orders order (some "late") (answered none)))
      (own_log 3 heard.log)
    × ((t : System) × (j : ℕ) × (late : Ends) × Reach start t
        × (t.calls j ≡ finished copy (requeue late))
        × (gather settlement (transact orders order (some "late") late) ≡ nacked ∷ [])
        × (own_log j t.log ≡ (copy, none) ∷ []))
unfolding requeue_after new_sink requeue
no_failure_lost_example =
    no_failure_lost orders requeuer order "late" heard 3 (answered none) refl heard_reached refl
