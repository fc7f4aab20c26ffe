-- ===== src/Server/Register/Tests.antt =====
-- A sink with a requeuer, and one message that fails after HandlerFunc has returned.
use fluent_amqp.Base.{◌≡◌, refl, [], ◌∷◌, true, none, some, All}
use fluent_amqp.Base.Int.{pos}
use fluent_amqp.Requeue.{answered}
use fluent_amqp.Sink.{SinkConfig, new_sink, requeue_after}
use fluent_amqp.Config.{broker}
use fluent_amqp.Config.Redelivery.{fresh}
use fluent_amqp.Server.Register.{
  System, start, register, set_requeue, deliver, registered, returned, Reach, here, next,
  handle_with, IsFair, given_back, requeuer_comes_late,
}

abbrev orders : SinkConfig
orders = requeue_after (pos 1000000) (new_sink (broker []).sinks "orders")

abbrev registering : System
registering = record start { stage = registered }

abbrev complete : System
complete = record registering { stage = returned; requeue = orders.rq_config }

-- The message has been handled.
abbrev served : System
served = record complete {
  log =
      record {
        after_return = true;
        msg = fresh;
        result = some "late";
        ends = answered none;
        effects = handle_with orders orders.rq_config fresh (some "late") (answered none);
      }
      ∷ [];
}

requeuer_comes_late_example :
    All (IsFair orders) served.log
    × ((t : System) × Reach orders t
        × (t.stage ≡ returned)
        × (t.requeue ≡ orders.rq_config)
        × (t.log ≡ given_back orders fresh "late" (answered none)))
requeuer_comes_late_example = requeuer_comes_late orders served fresh "late" (answered none) (
    next (next (next here (register start refl)) (set_requeue registering refl))
      (deliver complete fresh (some "late") (answered none) (λ e. cc)))
