-- ===== src/Cmd/Recv/Setup.antt =====
-- What `run` of amqp-recv asks of the broker, and what it writes.
use fluent_amqp.Base.{
  sym, All, ℕ, String, ◌≡◌, ◌≢◌, refl, ap, Bool, true, false, List, [], ◌∷◌, ◌++◌, map, Option,
  none, some, ◌==◌, if◌then◌else◌, eq_iff, arith, ◌∙◌, append-nil,
}
use fluent_amqp.Amqp.{Error, insert, Delivery}
use fluent_amqp.Requeue.{Ends}
use fluent_amqp.Sink.{
  ReceiverHandler, SinkDefaults, SinkConfig, new_sink, exchange, key, lazy, attr, add_handler,
  manual_ack,
}
use fluent_amqp.Sink.Transact.{acked}
use fluent_amqp.Sink.Topology.{declare_exchange, declare_queue, bind_queue, open_stream}
use fluent_amqp.Sink.Topology.Plan.{plan}
use fluent_amqp.Cmd.{exchange_kind, bind_exchange, bind, with_validator, with_lazy}
use fluent_amqp.Cmd.Queues.{queue_of, joined}
use fluent_amqp.Certs.{Found}
use fluent_amqp.Server.Handlers.{consumes, handler_func}
use fluent_amqp.Cmd.Recv.{
  Options, configure, receive, rejected, settled, OutType, out_type, render, write, output, choose,
  chosen, waits, run, main, body, dump, json, template,
}
use fluent_amqp.Sink.Consume.{dropped, handled}
use fluent_amqp.Sink.Consume.Chain.{fate}
use fluent_amqp.Cmd.Recv.First.{first_is_written, outcome}

-- The sink before its exchange.
abbrev plain_sink : SinkDefaults → Options → SinkConfig
plain_sink def o = with_lazy o.lazy (with_validator o.verify (new_sink def o.queue))

-- The routing keys, none for an empty option.
abbrev pub keys : String → List String
keys routing_key = if routing_key == "" then [] else routing_key ∷ []

-- The sink with its exchange, of a known kind.
abbrev bound_sink : SinkDefaults → Options → String → SinkConfig
bound_sink def o kind =
    manual_ack (bind_exchange o.exchange (keys o.routing_key) (plain_sink def o) kind)

configure_bound :
    (def : SinkDefaults) (o : Options) (kind : String)
    → o.exchange ≢ ""
    → exchange_kind o.exchange_type ≡ some kind
    → configure def o ≡ some (bound_sink def o kind)
unfolding configure bind
configure_bound def o kind n k = ground (arith, eq_iff o.exchange "")

bound_plan :
    (def : SinkDefaults) (verify : Option ReceiverHandler) (on : Bool)
    (queue exc kind name : String) (ks : List String)
    → plan
        (manual_ack
          (bind_exchange exc ks (with_lazy on (with_validator verify (new_sink def queue))) kind))
        name
      ≡ declare_queue (queue_of queue on)
        ∷ declare_exchange exc kind none
        ∷ (map (λ k. bind_queue name k exc) ks ++ open_stream name false ∷ [])
unfolding bind_exchange with_lazy with_validator new_sink exchange key lazy attr insert manual_ack
    add_handler
bound_plan def none true queue exc kind name ks = joined queue true exc kind name ks
bound_plan def none false queue exc kind name ks = joined queue false exc kind name ks
bound_plan def (some mv) true queue exc kind name ks = joined queue true exc kind name ks
bound_plan def (some mv) false queue exc kind name ks = joined queue false exc kind name ks

bound_requeue :
    (def : SinkDefaults) (verify : Option ReceiverHandler) (on : Bool) (queue exc kind : String)
    (ks : List String)
    → (manual_ack (
        bind_exchange exc ks
          (with_lazy on (with_validator verify (new_sink def queue)))
          kind)).rq_config
      ≡ none
unfolding bind_exchange with_lazy with_validator new_sink exchange key lazy attr manual_ack
    add_handler
bound_requeue def none true queue exc kind ks = refl
bound_requeue def none false queue exc kind ks = refl
bound_requeue def (some mv) true queue exc kind ks = refl
bound_requeue def (some mv) false queue exc kind ks = refl

run_lem :
    (stdin : Found (List ℕ)) (parse : List ℕ → Option Error) (t : OutType) (def : SinkDefaults)
    (o : Options) (snk : SinkConfig)
    → choose stdin parse (out_type o.out_type) ≡ chosen t
    → configure def o ≡ some snk
    → snk.rq_config ≡ none
    → run stdin parse def o ≡ waits t (consumes snk ∷ [])
unfolding run handler_func
run_lem stdin parse t def o snk c e r = ground (arith, c, e, r)

write_lem :
    (library : OutType → Delivery → List ℕ) (t : OutType) (msg : Delivery)
    → write library t none msg ≡ some (render library t msg)
unfolding write render
write_lem library body msg = refl
write_lem library dump msg = refl
write_lem library json msg = refl
write_lem library template msg = refl

output_first :
    (library : OutType → Delivery → List ℕ) (write_error : Delivery → Option Error) (t : OutType)
    (msg : Delivery)
    → write_error msg ≡ none
    → output library t write_error (msg ∷ []) ≡ some (render library t msg)
unfolding output
output_first library write_error t msg e =
    ground (arith, e, write_lem library t msg, append-nil (render library t msg))

-- The validator of the certificate that the options name, if they name one.
abbrev pub validators : Option ReceiverHandler → List ReceiverHandler
validators none = []
validators (some mv) = mv ∷ []

bound_middleware :
    (def : SinkDefaults) (verify : Option ReceiverHandler) (on : Bool) (queue exc kind : String)
    (ks : List String)
    → (manual_ack (
        bind_exchange exc ks
          (with_lazy on (with_validator verify (new_sink def queue)))
          kind)).middleware
      ≡ validators verify
unfolding bind_exchange with_lazy with_validator new_sink exchange key lazy attr manual_ack
    add_handler
bound_middleware def none true queue exc kind ks = refl
bound_middleware def none false queue exc kind ks = refl
bound_middleware def (some mv) true queue exc kind ks = refl
bound_middleware def (some mv) false queue exc kind ks = refl

-- amqp-recv with an exchange of a known kind, and a known format whose template, if it takes one, is read
-- and parsed, registers one sink, waits, and ends with the status 0. Its middleware is the validator of the
-- certificate, if the options name one. It asks the broker for its queue, lazy if the option says so, the
-- exchange and, if a routing key is given, its binding, and consumes with acknowledgements. Of the messages
-- that then come, while no `Nack` fails, it drops those that the validator or the check of the retries
-- refuses; the first other one it takes and acknowledges; and it returns every later one that passes the
-- checks to the broker. It writes the message taken in its format and nothing else, if this write succeeds.
pub recv_takes_first :
    (library : OutType → Delivery → List ℕ) (write_error : Delivery → Option Error)
    (stdin : Found (List ℕ)) (parse : List ℕ → Option Error) (t : OutType) (def : SinkDefaults)
    (o : Options) (snk : SinkConfig) (kind name : String) (ends : Ends)
    (before later : List Delivery) (msg out : Delivery)
    → choose stdin parse (out_type o.out_type) ≡ chosen t
    → o.exchange ≢ ""
    → exchange_kind o.exchange_type ≡ some kind
    → configure def o ≡ some snk
    → All (λ m. fate snk m ≡ dropped) before
    → fate snk msg ≡ handled out
    → write_error out ≡ none
    → let taken = receive snk ends (record { num = 1; idx = 0 }) (before ++ msg ∷ later) in
      (run stdin parse def o ≡ waits t (consumes snk ∷ []))
      × (main false none (run stdin parse def o) ≡ some 0)
      × (snk.middleware ≡ validators o.verify)
      × (plan snk name
          ≡ declare_queue (queue_of o.queue o.lazy)
            ∷ declare_exchange o.exchange kind none
            ∷ (map (λ k. bind_queue name k o.exchange) (keys o.routing_key)
                ++ open_stream name false ∷ []))
      × (taken ≡ (
        out ∷ [],
        map (λ _. rejected) before ++ settled (acked ∷ []) ∷ map (λ m. outcome (fate snk m)) later,
      ))
      × (output library t write_error taken.0 ≡ some (render library t out))
unfolding main
recv_takes_first library write_error stdin parse t def o snk kind name ends before later msg out c n
      k set refused accepted e =
    let same : bound_sink def o kind ≡ snk = ground (arith, configure_bound def o kind n k, set) in
    let no_requeuer =
      ap (λ s. s.rq_config) (sym same)
      ∙ bound_requeue def o.verify o.lazy o.queue o.exchange kind (keys o.routing_key) in
    let started = run_lem stdin parse t def o snk c set no_requeuer in
    let taken = first_is_written snk ends no_requeuer before later msg out refused accepted in
    (
      started,
      ap (main false none) started,
      ap (λ s. s.middleware) (sym same)
          ∙ bound_middleware def o.verify o.lazy o.queue o.exchange kind (keys o.routing_key),
      ap (λ s. plan s name) (sym same)
          ∙ bound_plan def o.verify o.lazy o.queue o.exchange kind name (keys o.routing_key),
      taken,
      ap (λ r. output library t write_error r.0) taken ∙ output_first library write_error t out e,
    )
