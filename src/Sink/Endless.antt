-- ===== src/Sink/Endless.antt =====
-- sink.go, a transaction without a requeuer, and the broker, which returns what `msg.Nack(false, true)` gives
-- back.
use fluent_amqp.Base.{
  ℕ, zero, suc, ◌≡◌, refl, if◌then◌else◌, Bool, true, false, List, [], ◌∷◌, Option, none, some,
  arith,
}
use fluent_amqp.Amqp.{Error, Delivery}
use fluent_amqp.Requeue.{Ends}
use fluent_amqp.Sink.{SinkConfig}
use fluent_amqp.Sink.Consume.{handled}
use fluent_amqp.Sink.Consume.Chain.{IsAccepted, fate, Lets-run}
use fluent_amqp.Sink.Transact.{Effect, nacked, transact}

abbrev given_back : List Effect → Bool
given_back [] = false
given_back (nacked ∷ effects) = true
given_back (_ ∷ effects) = given_back effects

abbrev pub repeat : ℕ → Delivery → List Delivery
repeat zero msg = []
repeat (suc n) msg = msg ∷ repeat n msg

module _ (cfg : SinkConfig) (fn : Delivery → Option Error) (ends : Ends)
    (back : Delivery → Delivery) where
  -- The deliveries of one message that `fn` gets, in so many turns of the message between sink and broker.
  unfoldable pub turns : ℕ → Delivery → List Delivery
  turns zero msg = []
  turns (suc n) msg =
      let later = turns n (back msg) in
      elim (fate cfg msg) [
        | handled out ↦
            if given_back (transact cfg out (fn out) ends) then out ∷ later else out ∷ []
        | _ ↦ []
      ]

  accepted-fate : (msg out : Delivery) → IsAccepted cfg msg out → fate cfg msg ≡ handled out
  unfolding fate
  accepted-fate msg out (kept, passes) = ground (arith, kept, Lets-run passes)

  fails_back :
      (out : Delivery) (err : Error)
      → cfg.rq_config ≡ none
      → fn out ≡ some err
      → given_back (transact cfg out (fn out) ends) ≡ true
  unfolding transact
  fails_back out err none_set failed = ground (arith, none_set, failed)

-- A sink with `TransactFunc` and no requeuer, whose handler always fails, while the broker gives back each
-- message as it was: a message that is accepted once is handled on every turn, however many there are, and
-- never dropped. So its limit on retries never takes effect.
pub limit_not_reached :
    (cfg : SinkConfig) (fn : Delivery → Option Error) (ends : Ends) (back : Delivery → Delivery)
    (rounds : ℕ) (msg out : Delivery)
    → cfg.rq_config ≡ none
    → ((d : Delivery) → (err : Error) × (fn d ≡ some err))
    → ((d : Delivery) → back d ≡ d)
    → IsAccepted cfg msg out
    → turns cfg fn ends back rounds msg ≡ repeat rounds out
unfolding turns
limit_not_reached cfg fn ends back zero msg out no_requeuer fails same ok = refl
limit_not_reached cfg fn ends back (suc rounds) msg out no_requeuer fails same ok =
    let (err, failed) = fails out in
    let others = limit_not_reached cfg fn ends back rounds msg out no_requeuer fails same ok in
    ground (
      arith,
      accepted-fate cfg fn ends back msg out ok,
      fails_back cfg fn ends back out err no_requeuer failed,
      same msg,
      others,
    )
