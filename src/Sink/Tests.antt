-- ===== src/Sink/Tests.antt =====
-- The theorems of the sink at a small configuration: its middleware passes messages of one type, and a
-- message may be retried twice.
use fluent_amqp.Base.{◌≢◌, eq_iff, arith}
use fluent_amqp.Sink.Transact.{publications, route_expired}
use fluent_amqp.Base.{
  ◌≡◌, refl, ◌⊎◌, ◌↔◌, true, false, [], ◌∷◌, ◌++◌, Option, none, some, ◌==◌, if◌then◌else◌, gather,
  map, All,
}
use fluent_amqp.Base.Int.{pos}
use fluent_amqp.Amqp.{
  Error, Delivery, Table, empty, entry, integer, int64, text, array, table, nil, cons, lookup,
  lookup?,
}
use fluent_amqp.Amqp.{Publishing}
use fluent_amqp.Writer.{millis}
use fluent_amqp.Sink.{requeue_after, manual_ack, retry_limit}
use fluent_amqp.Requeue.{serve, declaration, last_error_header, ReQueueConfig, answered}
use fluent_amqp.Sink.{SinkConfig, SinkDefaults, own, keep_dead, new_sink, dead_letter_queue}
use fluent_amqp.Sink.Death.{get_redelivery, restore_routing_key}
use fluent_amqp.Sink.Consume.{
  check_retries, deliver, consume, handled, dropped, waiting, run_middleware,
}
use fluent_amqp.Sink.Consume.Verdict.{check_retries_iff, Keeps, Objects, IsTooOften, IsExpired}
use fluent_amqp.Sink.Consume.Chain.{IsAccepted, deliver_cases, settled_by, fate, taken}
use fluent_amqp.Sink.Transact.{transact, failed_comes_back, copy_of}
use fluent_amqp.Sink.Endless.{turns, repeat, limit_not_reached}
use fluent_amqp.Sink.Consume.Chain.{done}
use fluent_amqp.Sink.Protocol.{
  track, traffic, in_transaction, transactions_keep_rule, auto_ack_keeps_rule_iff,
}
use fluent_amqp.Sink.Topology.{own_queue, Call, bind_queue, answer_to, set_up}
use fluent_amqp.Sink.Topology.Plan.{plan, StopsAt, set_up_follows_plan}
use fluent_amqp.Sink.DeadLetter.{Agrees, created, keeps_dead, to_queue, dead_letter-Agrees}

abbrev death : Table
death =
    entry "count" (integer int64 (pos 3))
      (entry "routing-keys" (array (cons (text "orders") nil)) empty)

abbrev old_message : Delivery
old_message = record {
  headers = some (entry "x-death" (array (cons (table death) nil)) empty);
  content_type = "";
  content_encoding = "";
  correlation_id = "";
  reply_to = "";
  message_id = "7";
  timestamp = pos 0;
  type = "order";
  routing_key = "dead";
  body = 1 ∷ [];
}

abbrev new_message : Delivery
new_message = record old_message { headers = none }

abbrev orders : SinkConfig
orders = record {
  name = "orders";
  queue_name = "orders";
  bindings = record { name = "shop"; kind = "topic"; binding = "a" ∷ "b" ∷ []; attrs = none } ∷ [];
  middleware = (λ msg. (msg.type == "order", msg)) ∷ [];
  ready = [];
  auto_ack = false;
  verbose_logging = false;
  dead_queue = "dead";
  dead_exchange = "dead.messages";
  attrs = none;
  retries = pos 2;
  expired = some (own (λ msg n. false));
  too_much = none;
  threshold = pos 0;
  rq_config =
      some (record {
        queue_name = "orders/requeue";
        target_queue = "orders";
        timeout = pos 5000000000;
      });
}

abbrev defaults : SinkDefaults
defaults = record {
  retries = pos 2;
  expired = none;
  too_much = none;
  threshold = pos 0;
  verbose_logging = false;
}

check_retries_iff_example : ((check_retries orders old_message).0 ≡ true) ↔ (
    (IsTooOften orders old_message → ¬ Objects orders old_message orders.too_much)
    × (IsExpired orders old_message → Keeps orders old_message orders.expired))
check_retries_iff_example = check_retries_iff orders old_message

deliver_cases_example :
    let asked = (check_retries orders new_message).1 in
    ((out : Delivery) × IsAccepted orders new_message out
      × (deliver orders (some "closed") new_message ≡ (asked ++ handled out ∷ [], none)))
    ⊎ (((out : Delivery) → ¬ IsAccepted orders new_message out)
        × (deliver orders (some "closed") new_message ≡ (asked ++ dropped ∷ [], some "closed")))
deliver_cases_example = deliver_cases orders (some "closed") new_message

fates : map (fate orders) (old_message ∷ new_message ∷ []) ≡ dropped ∷ handled new_message ∷ []
unfolding fate check_retries get_redelivery restore_routing_key run_middleware lookup
fates = refl

abbrev failure : Option Error
failure = some "late"

is_named : orders.queue_name ≢ ""
is_named = λ e. ground (arith, eq_iff orders.queue_name "")

failed_comes_back_example :
    let requeued_orders = requeue_after (pos 5000000000) orders in
    (rq : ReQueueConfig) × (copy : Publishing) × (requeued_orders.rq_config ≡ some rq)
    × (gather copy_of (transact requeued_orders new_message failure (answered none)) ≡ copy ∷ [])
    × (gather publications (serve rq.queue_name copy none) ≡ ("", (declaration rq).name, copy) ∷ [])
    × (route_expired (declaration rq) ≡ some (own_queue requeued_orders).name)
    × (copy.message_id ≡ "7")
    × (copy.body ≡ 1 ∷ [])
    × (copy.expiration ≡ millis (pos 5000000000))
    × (lookup? last_error_header copy.headers ≡ some (text "late"))
    × (copy.delivery_mode ≡ 0)
failed_comes_back_example =
    failed_comes_back orders (pos 5000000000) new_message "late" (answered none) none is_named

-- The broker refuses one binding.
refuses : Call → Option Error
refuses (bind_queue q key e) = if key == "b" then some "no such queue" else none
refuses call = none

set_up_follows_plan_example :
    (All (λ c. answer_to refuses c ≡ none) (plan orders "orders")
      × (set_up refuses orders "orders" ≡ (plan orders "orders", none)))
    ⊎ StopsAt refuses (plan orders "orders") (set_up refuses orders "orders")
set_up_follows_plan_example = set_up_follows_plan refuses orders "orders"

dead_letter-Agrees_example : Agrees (dead_letter_queue "" (keep_dead (new_sink defaults "orders")))
dead_letter-Agrees_example =
    dead_letter-Agrees (to_queue (keeps_dead (created defaults "orders")) "")

transactions_keep_rule_example :
    (gather settled_by
        (consume (manual_ack orders) (taken (new_message ∷ old_message ∷ new_message ∷ []))).0
      ≡ map (fate (manual_ack orders)) (new_message ∷ old_message ∷ new_message ∷ []))
    × ((consume (manual_ack orders) (taken (new_message ∷ old_message ∷ new_message ∷ []))).1
        ≡ waiting)
    × (track (manual_ack orders).auto_ack [] (
          traffic
            (manual_ack orders)
            (in_transaction (manual_ack orders) (λ msg. some "late") (λ msg. answered none))
            1
            (new_message ∷ old_message ∷ new_message ∷ []))
        ≡ some [])
transactions_keep_rule_example =
    transactions_keep_rule orders (λ msg. some "late") (λ msg. answered none) 1
      (new_message ∷ old_message ∷ new_message ∷ [])

by_itself : (new_sink defaults "orders").auto_ack ≡ true
unfolding new_sink
by_itself = refl

auto_ack_keeps_rule_iff_example :
    (track
        (new_sink defaults "orders").auto_ack
        []
        (traffic (new_sink defaults "orders") (λ msg. []) 1 (new_message ∷ old_message ∷ []))
      ≡ some [])
    ↔ All
        (λ msg. (out : Delivery) × IsAccepted (new_sink defaults "orders") msg out)
        (new_message ∷ old_message ∷ [])
auto_ack_keeps_rule_iff_example =
    auto_ack_keeps_rule_iff (new_sink defaults "orders") 1 (new_message ∷ old_message ∷ [])
      by_itself

-- The old message is dropped, and the channel closed.
old_message_closes :
    track true []
      (traffic (new_sink defaults "orders") (λ msg. []) 1 (new_message ∷ old_message ∷ []))
    ≡ none
unfolding track traffic new_sink deliver check_retries get_redelivery lookup run_middleware
old_message_closes = refl

-- A sink without a requeuer, whose limit is no retry at all.
abbrev stubborn : SinkConfig
unfolding retry_limit new_sink manual_ack
stubborn = manual_ack (retry_limit (pos 0) (new_sink defaults "orders"))

stubborn-IsAccepted : IsAccepted stubborn new_message new_message
unfolding check_retries get_redelivery restore_routing_key lookup stubborn
stubborn-IsAccepted = (refl, done)

limit_not_reached_example :
    turns stubborn (λ d. some "late") (answered none) (λ d. d) 5 new_message ≡ repeat 5 new_message
unfolding stubborn
limit_not_reached_example =
    limit_not_reached stubborn (λ d. some "late") (answered none) (λ d. d) 5 new_message new_message
      refl (λ d. ("late", refl)) (λ d. refl) stubborn-IsAccepted
