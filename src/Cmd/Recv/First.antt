-- ===== src/Cmd/Recv/First.antt =====
-- `limited` lets the first message through that the sink accepts.
use fluent_amqp.Base.{
  ◌≤◌, ◌≡◌, refl, ap, ◌∙◌, ◌⊎◌, inl, inr, ◌&&◌, List, [], ◌∷◌, ◌++◌, map, none, some, arith, gather,
  All, Bool-cases,
}
use mathlib.Core.List.{map-append}
use fluent_amqp.Amqp.{Delivery}
use fluent_amqp.Requeue.{Ends}
use fluent_amqp.Sink.{SinkConfig}
use fluent_amqp.Sink.Consume
use fluent_amqp.Sink.Consume.{
  dropped, handled, asked_too_much, asked_expired, consume, check_retries, run_middleware,
}
use fluent_amqp.Sink.Consume.Chain.{fate, settled_by, taken, restored, consume_settles_each}
use fluent_amqp.Sink.Transact.{acked, nacked, transact}
use fluent_amqp.Cmd.Recv.{
  Limited, limited_handle, limit_reached, Outcome, rejected, settled, serve, receive,
}

-- How a delivery is settled after the first: dropped by the loop, or returned by `limited`.
abbrev pub outcome : Consume.Effect → Outcome
outcome (handled out) = settled (nacked ∷ [])
outcome _ = rejected

module _ (snk : SinkConfig) (ends : Ends) (no_requeue : snk.rq_config ≡ none) where
  refused : (msg : Delivery) → transact snk msg (some limit_reached) ends ≡ nacked ∷ []
  unfolding transact
  refused msg = rw no_requeue refl

  -- Questions do not count.
  serve-settled :
      (dh : Limited) (effects : List Consume.Effect)
      → serve snk ends dh effects ≡ serve snk ends dh (gather settled_by effects)
  unfolding serve
  serve-settled dh [] = refl
  serve-settled dh (asked_too_much n ∷ es) = serve-settled dh es
  serve-settled dh (asked_expired n ∷ es) = serve-settled dh es
  serve-settled dh (dropped ∷ es) = ap (λ r. (r.0, rejected ∷ r.1, r.2)) (serve-settled dh es)
  serve-settled dh (handled out ∷ es) =
      let (now, result, dh') = limited_handle dh out in
      ap (λ r. (now ++ r.0, settled (transact snk out result ends) ∷ r.1, r.2))
        (serve-settled dh' es)

  fate_cases :
      (msg : Delivery)
      → (fate snk msg ≡ dropped) ⊎ ((out : Delivery) × (fate snk msg ≡ handled out))
  unfolding fate
  fate_cases msg =
      elim (Bool-cases
        ((check_retries snk msg).0 && (run_middleware snk.middleware (restored snk msg)).0)) [
          | inl accepted ↦ inr ((run_middleware snk.middleware (restored snk msg)).1, ground arith)
          | inr left ↦ inl (ground arith)
        ]

  serve_over :
      (dh : Limited) (msgs : List Delivery)
      → dh.num ≤ dh.idx
      → serve snk ends dh (map (fate snk) msgs) ≡ ([], map (λ m. outcome (fate snk m)) msgs, dh)
  unfolding serve limited_handle
  serve_over dh [] l = refl
  serve_over dh (msg ∷ msgs) l = elim (fate_cases msg) [
    | inl left ↦ rw left (ap (λ r. (r.0, rejected ∷ r.1, r.2)) (serve_over dh msgs l))
    | inr (out, accepted) ↦ ground (arith, accepted, serve_over dh msgs l, refused out)
  ]

  serve_dropped :
      (dh : Limited) (before : List Delivery) (effects : List Consume.Effect)
      → All (λ m. fate snk m ≡ dropped) before
      → serve snk ends dh (map (fate snk) before ++ effects) ≡ (
          let (written, outcomes, end) = serve snk ends dh effects in
          (written, map (λ _. rejected) before ++ outcomes, end))
  unfolding serve
  serve_dropped dh [] effects h = refl
  serve_dropped dh (msg ∷ before) effects (left, h) =
      rw left (ap (λ r. (r.0, rejected ∷ r.1, r.2)) (serve_dropped dh before effects h))

  serve_first :
      (msg out : Delivery) (later : List Delivery)
      → fate snk msg ≡ handled out
      → serve snk ends (record { num = 1; idx = 0 }) (map (fate snk) (msg ∷ later)) ≡ (
        out ∷ [],
        settled (acked ∷ []) ∷ map (λ m. outcome (fate snk m)) later,
        record { num = 1; idx = 1 },
      )
  unfolding serve limited_handle transact
  serve_first msg out later accepted = rw accepted (
      ap (λ r. (out ∷ r.0, settled (acked ∷ []) ∷ r.1, r.2))
        (serve_over (record { num = 1; idx = 1 }) later (omega arith)))

  -- In a sink that does not requeue, with `limited` for one message: of the deliveries, those before the
  -- first that the sink accepts are dropped; this one is written, as the middleware leaves it, and
  -- acknowledged; and each later one is dropped, or returned to the broker if the sink accepts it.
  pub first_is_written :
      (before later : List Delivery) (msg out : Delivery)
      → All (λ m. fate snk m ≡ dropped) before
      → fate snk msg ≡ handled out
      → receive snk ends (record { num = 1; idx = 0 }) (before ++ msg ∷ later) ≡ (
        out ∷ [],
        map (λ _. rejected) before ++ settled (acked ∷ []) ∷ map (λ m. outcome (fate snk m)) later,
      )
  unfolding receive
  first_is_written before later msg out h accepted =
      let dh : Limited = record { num = 1; idx = 0 } in
      let all = before ++ msg ∷ later in
      ap (λ r. (r.0, r.1))
        (serve-settled dh (consume snk (taken all)).0
          ∙ ap (serve snk ends dh)
              ((consume_settles_each snk all).0 ∙ map-append (fate snk) before (msg ∷ later))
          ∙ serve_dropped dh before (map (fate snk) (msg ∷ later)) h
          ∙ ap (λ r. (r.0, map (λ _. rejected) before ++ r.1, r.2))
              (serve_first msg out later accepted))
