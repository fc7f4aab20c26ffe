-- ===== src/Sink/Transact/AtLeastOnce.antt =====
-- sink.go and requeuer.go together: a message that fails in a transaction, and the call of `Requeue` that
-- the handler of `TransactFunc` makes for it.
use fluent_amqp.Base.{
  ℕ, true, ◌≡◌, refl, sym, subst, ap, ◌⊎◌, inl, inr, List, [], ◌∷◌, Option, none, some, gather,
}
use fluent_amqp.Amqp.{Error, Delivery, Publishing}
use fluent_amqp.Requeue.{
  ReQueueConfig, Ends, never_taken, abandoned, answered, marked, publishing, requeue,
}
use fluent_amqp.Requeue.Promise.{Told, Requeuer}
use fluent_amqp.Requeue.Calls.{
  System, start, offering, awaiting, finished, waiting, set_call, Request, connect, call_inside,
  send, receive, publish, close, stop_awaiting, Reach, here, next,
}
use fluent_amqp.Requeue.Calls.Trail.{own_log}
use fluent_amqp.Requeue.Calls.Own.{each_hears_its_own}
use fluent_amqp.Sink.{SinkConfig}
use fluent_amqp.Sink.Transact.{Effect, acked, nacked, settlement, on_failure, transact}

-- The message is acknowledged, and the broker took its one copy; or it is returned to the broker, and a
-- copy has been published once at most.
abbrev pub IsKept : Publishing → List Effect → List (Publishing × Option Error) → Type 0
IsKept copy settled log =
    ((settled ≡ acked ∷ []) × (log ≡ (copy, none) ∷ []))
    ⊎ ((settled ≡ nacked ∷ []) × ((log ≡ []) ⊎ ((a : Option Error) × (log ≡ (copy, a) ∷ []))))

kept :
    (rq : ReQueueConfig) (msg : Delivery) (err : Error) (ends : Ends)
    (log : List (Publishing × Option Error))
    → Told (publishing rq (marked msg (some err))) (requeue ends) log
    → IsKept
        (publishing rq (marked msg (some err)))
        (gather settlement (on_failure (some rq) msg err ends))
        log
unfolding on_failure requeue
kept rq msg err (never_taken e) log h = inr (refl, h)
kept rq msg err (abandoned e) log h = inr (refl, h)
kept rq msg err (answered none) log h = inl (refl, h)
kept rq msg err (answered (some e)) log h = inr (refl, h)

-- What a sink has of any requeuer that keeps its promise.
module _ (r : Requeuer) where
  failure-IsKept :
      (snk : SinkConfig) (rq : ReQueueConfig) (msg : Delivery) (err : Error) (ends : Ends)
      (call : r.Call (publishing rq (marked msg (some err))))
      → snk.rq_config ≡ some rq
      → r.result call ≡ requeue ends
      → IsKept
          (publishing rq (marked msg (some err)))
          (gather settlement (transact snk msg (some err) ends))
          (r.publications call)
  unfolding transact
  failure-IsKept snk rq msg err ends call c e =
      let copy = publishing rq (marked msg (some err)) in
      let log = r.publications call in
      subst (λ q. IsKept copy (gather settlement (on_failure q msg err ends)) log) (sym c)
        (kept rq msg err ends log (subst (λ x. Told copy x log) e (r.promise call)))

-- The requeuer of the program, under all of its callers.
abbrev requeuer : Requeuer
requeuer = record {
  Call = λ p.
      (s : System) × (i : ℕ) × (result : Option Error) × Reach start s
      × (s.calls i ≡ finished p result);
  result = λ (s, i, result, reach, e). result;
  publications = λ (s, i, result, reach, e). own_log i s.log;
  promise = λ (s, i, result, reach, e). each_hears_its_own s i _ result reach e;
}

-- A call that the end of the context ends after the broker has taken the copy.
module _ (copy : Publishing) (e : Error) where
  abbrev taken : System
  taken = record start {
    calls = set_call 0 (awaiting copy) (set_call 0 (offering copy) start.calls);
    loop = waiting;
    session = true;
    inside = 0 ∷ [];
    log = record { request = record { call = 0; msg = copy }; answer = none } ∷ [];
  }

  abbrev ended : System
  ended = record taken { closed = some e; calls = set_call 0 (finished copy (some e)) taken.calls }

  ended_reached : Reach start ended
  ended_reached =
      let r : Request = record { call = 0; msg = copy } in
      next
        (next
          (next
            (next
              (next (next (next here (connect refl)) (call_inside 0 copy refl refl))
                (send 0 copy refl refl))
              (receive r refl refl))
            (publish r none refl))
          (close e refl))
        (stop_awaiting 0 copy e refl refl)

-- Whatever calls, connections and answers of the broker come together: when the call of `Requeue` for a
-- message that failed in a sink with a requeuer has returned, the sink acknowledges the message if the
-- broker took a copy with the error in its header, which was published once; else it returns the message
-- itself to the broker, and a copy has been published once at most. So it is acknowledged only when the
-- broker has a copy. But there is an order of events in which a message is returned although the broker
-- took its copy.
pub no_failure_lost :
    (snk : SinkConfig) (rq : ReQueueConfig) (msg : Delivery) (err : Error) (s : System) (i : ℕ)
    (ends : Ends)
    → snk.rq_config ≡ some rq
    → Reach start s
    → s.calls i ≡ finished (publishing rq (marked msg (some err))) (requeue ends)
    → let copy = publishing rq (marked msg (some err)) in
      IsKept copy (gather settlement (transact snk msg (some err) ends)) (own_log i s.log)
      × ((t : System) × (j : ℕ) × (late : Ends) × Reach start t
          × (t.calls j ≡ finished copy (requeue late))
          × (gather settlement (transact snk msg (some err) late) ≡ nacked ∷ [])
          × (own_log j t.log ≡ (copy, none) ∷ []))
unfolding transact on_failure requeue
no_failure_lost snk rq msg err s i ends c reach e =
    let copy = publishing rq (marked msg (some err)) in
    (
      failure-IsKept requeuer snk rq msg err ends (s, i, requeue ends, reach, e) c refl,
      (
        ended copy err,
        0,
        abandoned err,
        ended_reached copy err,
        refl,
        ap (λ q. gather settlement (on_failure q msg err (abandoned err))) c,
        refl,
      ),
    )
