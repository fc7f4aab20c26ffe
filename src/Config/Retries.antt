-- ===== src/Config/Retries.antt =====
-- sink.go, requeuer.go and the broker together: how often a message is tried.
use fluent_amqp.Base.{
  ℕ, zero, suc, ◌+◌, ◌≤◌, ◌<◌, String, ◌≡◌, refl, ◌∙◌, ap, List, [], ◌∷◌, Option, none, some, head?,
  gather, length, true, false, arith, eq_iff, inl, inr, Bool-cases, if◌then◌else◌, ◌&&◌,
}
use fluent_amqp.Base.Int.{ℤ, pos}
use fluent_amqp.Amqp.{
  Error, Value, text, Table, empty, Delivery, Publishing, lookup, lookup?, insert, made,
}
use fluent_amqp.Amqp.Laws.{lookup-insert_ne}
use fluent_amqp.Requeue.{answered, new_requeue, timeout, publishing, marked, last_error_header}
use fluent_amqp.Sink.{SinkConfig, new_sink, requeue_after, retry_limit}
use fluent_amqp.Sink.Death.{get_redelivery, count_in, first_death}
use fluent_amqp.Sink.Consume.{handled, dropped, check_retries, run_middleware}
use fluent_amqp.Sink.Consume.Verdict.{check_retries_iff}
use fluent_amqp.Sink.Consume.Chain.{fate, restored}
use fluent_amqp.Sink.Transact.{transact, copy_of, transact-copies}
use fluent_amqp.Config.{broker}

-- How the life of a message ends: it is acknowledged with no copy left, or dropped by the sink; `running`
-- means that the fuel ran out.
pub data Outcome : Type 0 where
  settled rejected running : Outcome

-- The broker, which returns an expired copy to the sink's queue.
module _ (redeliver : Publishing → Delivery) where
  -- The deliveries of one message that the handler `fn` of a transaction gets, and the end, while the broker
  -- takes every copy.
  unfoldable pub life :
      SinkConfig → (Delivery → Option Error) → ℕ → Delivery → List Delivery × Outcome
  life cfg fn zero msg = ([], running)
  life cfg fn (suc fuel) msg = elim (fate cfg msg) [
    | handled out ↦ elim (head? (gather copy_of (transact cfg out (fn out) (answered none)))) [
      | none ↦ (out ∷ [], settled)
      | some copy ↦ let (later, end) = life cfg fn fuel (redeliver copy) in (out ∷ later, end)
    ]
    | _ ↦ ([], rejected)
  ]

  -- The broker counts in the header `x-death` how often it has returned a message.
  abbrev pub Counts : Type 0
  Counts =
      (p : Publishing) (k : ℕ)
      → get_redelivery p.headers ≡ pos k
      → get_redelivery (redeliver p).headers ≡ pos (suc k)

-- A sink with `Retries(n)` and `Requeue(interval)`, of a broker without default handlers.
abbrev pub retrying : List String → String → ℕ → ℤ → SinkConfig
retrying urls queue n interval =
    requeue_after interval (retry_limit (pos n) (new_sink (broker urls).sinks queue))

-- Two sinks that decide alike and settle alike.
pub record Alike (a b : SinkConfig) : Type 0 where
  pub decide : (msg : Delivery) → fate a msg ≡ fate b msg
  pub settle :
      (msg : Delivery) (r : Option Error)
      → transact a msg r (answered none) ≡ transact b msg r (answered none)

lookup-marked :
    (headers : Option Table) (v : Value)
    → lookup? "x-death" (some (insert last_error_header v (made headers)))
      ≡ lookup? "x-death" headers
unfolding lookup
lookup-marked none v =
    lookup-insert_ne last_error_header "x-death" v empty
      (ground (arith, eq_iff last_error_header "x-death"))
lookup-marked (some t) v =
    lookup-insert_ne last_error_header "x-death" v t
      (ground (arith, eq_iff last_error_header "x-death"))

-- The mark of the error leaves the count alone.
marked-get_redelivery :
    (msg : Delivery) (err : Error)
    → get_redelivery (marked msg (some err)).headers ≡ get_redelivery msg.headers
unfolding marked get_redelivery
marked-get_redelivery msg err =
    ap (λ v. count_in (first_death v)) (lookup-marked msg.headers (text err))

module _ (urls : List String) (queue : String) (n : ℕ) (interval : ℤ) where
  keeps :
      (msg : Delivery) (k : ℕ)
      → get_redelivery msg.headers ≡ pos k
      → k ≤ n
      → (check_retries (retrying urls queue n interval) msg).0 ≡ true
  unfolding requeue_after retry_limit new_sink broker
  keeps msg k e l =
      (check_retries_iff (retrying urls queue n interval) msg).1
        (λ often objects. objects, λ (limit, beyond). ground arith)

  drops :
      (msg : Delivery) (k : ℕ)
      → get_redelivery msg.headers ≡ pos k
      → n < k
      → (check_retries (retrying urls queue n interval) msg).0 ≡ false
  unfolding requeue_after retry_limit new_sink broker
  drops msg k e l = elim (Bool-cases (check_retries (retrying urls queue n interval) msg).0) [
    | inl kept ↦ absurd (
        ((check_retries_iff (retrying urls queue n interval) msg).0 kept).1
          (ground arith, ground arith))
    | inr old ↦ old
  ]

  kept-fate :
      (msg : Delivery) (k : ℕ)
      → get_redelivery msg.headers ≡ pos k
      → k ≤ n
      → fate (retrying urls queue n interval) msg
        ≡ handled (restored (retrying urls queue n interval) msg)
  unfolding fate run_middleware requeue_after retry_limit new_sink
  kept-fate msg k e l =
      ap
        (λ b.
          if b && true then handled (restored (retrying urls queue n interval) msg) else dropped)
        (keeps msg k e l)

  beyond-fate :
      (msg : Delivery) (k : ℕ)
      → get_redelivery msg.headers ≡ pos k
      → n < k
      → fate (retrying urls queue n interval) msg ≡ dropped
  unfolding fate run_middleware requeue_after retry_limit new_sink
  beyond-fate msg k e l =
      ap
        (λ b.
          if b && true then handled (restored (retrying urls queue n interval) msg) else dropped)
        (drops msg k e l)

  -- A message that is always failed is handled until the count is beyond the limit, and then dropped.
  module _ (cfg : SinkConfig) (same : Alike cfg (retrying urls queue n interval))
      (redeliver : Publishing → Delivery) (counts : Counts redeliver) (fn : Delivery → Option Error)
      (fails : (d : Delivery) → (err : Error) × (fn d ≡ some err)) where
    life_step :
        (fuel : ℕ) (msg : Delivery) (k : ℕ)
        → get_redelivery msg.headers ≡ pos k
        → k ≤ n
        → (msg' : Delivery) × (get_redelivery msg'.headers ≡ pos (suc k))
          × (let (later, end) = life redeliver cfg fn fuel msg' in
              life redeliver cfg fn (suc fuel) msg
              ≡ (restored (retrying urls queue n interval) msg ∷ later, end))
    unfolding life publishing
    life_step fuel msg k e l =
        let snk = retry_limit (pos n) (new_sink (broker urls).sinks queue) in
        let out = restored (retrying urls queue n interval) msg in
        let (err, f) = fails out in
        let copy =
          publishing (timeout interval (new_requeue snk.queue_name)) (marked out (some err)) in
        let handed : gather copy_of (transact cfg out (fn out) (answered none)) ≡ copy ∷ [] =
          ap (λ r. gather copy_of (transact cfg out r (answered none))) f
          ∙ ap (gather copy_of) (same.settle out (some err))
          ∙ transact-copies snk interval out err (answered none) in
        (
          redeliver copy,
          counts copy k (marked-get_redelivery out err ∙ e),
          ground (arith, same.decide msg ∙ kept-fate msg k e l, handed),
        )

    life_end :
        (fuel : ℕ) (msg : Delivery) (k : ℕ)
        → get_redelivery msg.headers ≡ pos k
        → n < k
        → life redeliver cfg fn (suc fuel) msg ≡ ([], rejected)
    unfolding life
    life_end fuel msg k e l = ground (arith, same.decide msg ∙ beyond-fate msg k e l)

    -- A message that has come back `k` times, with `left` more to go.
    life_lem :
        (left fuel k : ℕ) (msg : Delivery)
        → get_redelivery msg.headers ≡ pos k
        → k + left ≡ n
        → suc left < fuel
        → let (tries, end) = life redeliver cfg fn fuel msg in
          (length tries ≡ suc left) × (end ≡ rejected)
    life_lem left zero k msg e sum l = absurd (omega arith)
    life_lem left (suc zero) k msg e sum l = absurd (omega arith)
    life_lem zero (suc (suc fuel)) k msg e sum l =
        let (msg', e', step) = life_step (suc fuel) msg k e (omega arith) in
        let over = life_end fuel msg' (suc k) e' (omega arith) in
        (
          ap (λ r. length r.0) step ∙ ap (λ r. suc (length r.0)) over,
          ap (λ r. r.1) step ∙ ap (λ r. r.1) over,
        )
    life_lem (suc left) (suc (suc fuel)) k msg e sum l =
        let (msg', e', step) = life_step (suc fuel) msg k e (omega arith) in
        let (many, end) = life_lem left (suc fuel) (suc k) msg' e' (omega arith) (omega arith) in
        (ap (λ r. length r.0) step ∙ ap suc many, ap (λ r. r.1) step ∙ end)

    pub always_failed :
        (fuel : ℕ) (msg : Delivery)
        → get_redelivery msg.headers ≡ pos 0
        → suc n < fuel
        → let (tries, end) = life redeliver cfg fn fuel msg in
          (length tries ≡ suc n) × (end ≡ rejected)
    always_failed fuel msg e l = life_lem n fuel 0 msg e (omega arith) l

-- A sink with `Retries(n)` and `Requeue(interval)`, of a broker without default handlers, whose handler
-- always fails, while the broker takes and counts every copy: a new message is handled exactly `n + 1`
-- times, and then dropped by the sink. A fuel above `n + 1` is enough.
tried_then_dropped :
    (urls : List String) (queue : String) (n : ℕ) (interval : ℤ) (redeliver : Publishing → Delivery)
    (fn : Delivery → Option Error) (fuel : ℕ) (msg : Delivery)
    → Counts redeliver
    → ((d : Delivery) → (err : Error) × (fn d ≡ some err))
    → get_redelivery msg.headers ≡ pos 0
    → suc n < fuel
    → let (tries, end) = life redeliver (retrying urls queue n interval) fn fuel msg in
      (length tries ≡ suc n) × (end ≡ rejected)
tried_then_dropped urls queue n interval redeliver fn fuel msg counts fails e l =
    always_failed urls queue n interval (retrying urls queue n interval)
      (record { decide = λ m. refl; settle = λ m r. refl }) redeliver counts fn fails fuel msg e l
