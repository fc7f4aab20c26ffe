-- ===== src/Sink/Consume/Chain.antt =====
-- Every delivery is handled once or dropped once.
use fluent_amqp.Base.{
  ◌≡◌, refl, ◌∙◌, ap, ap₂, ◌⊎◌, inl, inr, ◌&&◌, if◌then◌else◌, map, true, List, [], ◌∷◌, ◌++◌,
  Option, none, arith, subst, gather, gather-append, Bool-cases,
}
use fluent_amqp.Amqp.{Error, Delivery}
use fluent_amqp.Sink.{ReceiverHandler, SinkConfig}
use fluent_amqp.Sink.Death.{restore_routing_key}
use fluent_amqp.Sink.Consume.{
  Effect, dropped, handled, check_retries, run_middleware, deliver, Input, arrives, waiting, go_on,
  consume,
}

-- Every handler, called on the delivery that the one before it left, answers true.
pub data Lets : List ReceiverHandler → Delivery → Delivery → Type 0 where
  done : {msg : Delivery} → Lets [] msg msg
  next :
      {handle : ReceiverHandler} {rest : List ReceiverHandler} {msg out : Delivery}
      → (handle msg).0 ≡ true
      → Lets rest (handle msg).1 out
      → Lets (handle ∷ rest) msg out

run-Lets :
    (hs : List ReceiverHandler) (msg out : Delivery)
    → run_middleware hs msg ≡ (true, out)
    → Lets hs msg out
unfolding run_middleware
run-Lets [] msg out h = subst (Lets [] msg) (ap (λ p. p.1) h) done
run-Lets (handle ∷ hs) msg out h = elim (Bool-cases (handle msg).0) [
  | inl ok ↦ next ok (run-Lets hs (handle msg).1 out (ground arith))
  | inr stops ↦ absurd (ground arith)
]

pub Lets-run :
    {hs : List ReceiverHandler} {msg out : Delivery}
    → Lets hs msg out
    → run_middleware hs msg ≡ (true, out)
unfolding run_middleware
Lets-run done = refl
Lets-run (next {handle} {rest} {msg} {out} e l) = rw e (Lets-run l)

module _ (cfg : SinkConfig) where
  abbrev pub restored : Delivery → Delivery
  restored msg = record msg { routing_key = restore_routing_key msg.headers msg.routing_key }

  -- The message is kept, and the middleware lets it through as `out`, from the message with its routing
  -- key restored.
  abbrev pub IsAccepted : Delivery → Delivery → Type 0
  IsAccepted msg out = ((check_retries cfg msg).0 ≡ true) × Lets cfg.middleware (restored msg) out

  -- A delivery that is accepted as `out` is handled, as `out`, and the loop goes on. Any other is dropped,
  -- and the loop returns if the drop fails. Nothing else happens to it but the questions asked before.
  pub deliver_cases :
      (nack : Option Error) (msg : Delivery)
      → let asked = (check_retries cfg msg).1 in
        ((out : Delivery) × IsAccepted msg out
          × (deliver cfg nack msg ≡ (asked ++ handled out ∷ [], none)))
        ⊎ (((out : Delivery) → ¬ IsAccepted msg out)
            × (deliver cfg nack msg ≡ (asked ++ dropped ∷ [], nack)))
  unfolding deliver
  deliver_cases nack msg = elim (Bool-cases (check_retries cfg msg).0) [
    | inl kept ↦ elim (Bool-cases (run_middleware cfg.middleware (restored msg)).0) [
      | inl passed ↦ inl (
        (run_middleware cfg.middleware (restored msg)).1,
        (kept, run-Lets cfg.middleware (restored msg) _ (ground arith)),
        ground arith,
      )
      | inr stopped ↦ inr (λ out (k, l). ground (arith, Lets-run l), ground arith)
    ]
    | inr old ↦ inr (λ out (k, l). ground arith, ground arith)
  ]

abbrev pub taken : List Delivery → List Input
taken = map (λ msg. arrives msg none)

-- What a delivery ends with.
abbrev pub settled_by : Effect → List Effect
settled_by (handled out) = handled out ∷ []
settled_by dropped = dropped ∷ []
settled_by _ = []

module _ (cfg : SinkConfig) where
  -- What happens to a delivery: handled, as the middleware leaves it, or dropped.
  unfoldable pub fate : Delivery → Effect
  fate msg =
      if (check_retries cfg msg).0 && (run_middleware cfg.middleware (restored cfg msg)).0
      then handled (run_middleware cfg.middleware (restored cfg msg)).1
      else dropped

  pub asks_settle_nothing : (msg : Delivery) → gather settled_by (check_retries cfg msg).1 ≡ []
  unfolding check_retries
  asks_settle_nothing msg = ground arith

  pub deliver-fate :
      (msg : Delivery)
      → (gather settled_by (deliver cfg none msg).0 ≡ fate msg ∷ [])
        × ((deliver cfg none msg).1 ≡ none)
  unfolding deliver fate
  deliver-fate msg = ground (
    arith,
    asks_settle_nothing msg,
    gather-append settled_by (check_retries cfg msg).1 (dropped ∷ []),
    gather-append settled_by (check_retries cfg msg).1
        (handled (run_middleware cfg.middleware (restored cfg msg)).1 ∷ []),
  )

  -- While no `Nack` fails, the loop goes on through all deliveries, and handles or drops each of them
  -- once, in the order of their arrival.
  pub consume_settles_each :
      (msgs : List Delivery)
      → (gather settled_by (consume cfg (taken msgs)).0 ≡ map fate msgs)
        × ((consume cfg (taken msgs)).1 ≡ waiting)
  unfolding consume
  consume_settles_each [] = (refl, refl)
  consume_settles_each (msg ∷ msgs) =
      let (mine, on) = deliver-fate msg in
      let rest = consume cfg (taken msgs) in
      let (others, end) = consume_settles_each msgs in
      (
        ap (λ err. gather settled_by (go_on (deliver cfg none msg).0 err rest).0) on
            ∙ gather-append settled_by (deliver cfg none msg).0 rest.0
            ∙ ap₂ ◌++◌ mine others,
        ap (λ err. (go_on (deliver cfg none msg).0 err rest).1) on ∙ end,
      )
