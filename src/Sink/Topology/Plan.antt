-- ===== src/Sink/Topology/Plan.antt =====
-- The calls of `sink.ChannelReady` before its loop are those of the configuration, up to the first failure.
use fluent_amqp.Base.{
  option_cases, String, ◌≡◌, refl, ◌∙◌, ap, sym, ◌⊎◌, inl, inr, true, false, List, [], ◌∷◌, ◌++◌,
  Option, none, some, ◌==◌, arith, if◌then◌else◌, map, ◌||◌, gather, All,
}
use fluent_amqp.Amqp.{Error}
use fluent_amqp.Sink.{Exchange, SinkConfig}
use fluent_amqp.Sink.Topology.{
  Call, declare_exchange, declare_queue, bind_queue, open_stream, ready, answer_to, Run, own_queue,
  then_do, declare_dead, bind_keys, bind_exchanges, call_ready, set_up,
}

-- The calls that a configuration stands for, as one list.
abbrev dead_calls : SinkConfig → List Call
dead_calls cfg =
    (if cfg.dead_exchange == "" then [] else declare_exchange cfg.dead_exchange "direct" none ∷ [])
    ++ (if cfg.dead_queue == ""
        then []
        else declare_queue
            (record { name = cfg.dead_queue; durable = true; auto_delete = false; args = none })
          ∷ [])
    ++ (if cfg.dead_exchange == "" || cfg.dead_queue == ""
        then []
        else bind_queue cfg.dead_queue cfg.dead_queue cfg.dead_exchange ∷ [])

abbrev exchange_calls : String → Exchange → List Call
exchange_calls name exc =
    declare_exchange exc.name exc.kind exc.attrs
    ∷ map (λ key. bind_queue name key exc.name) exc.binding

abbrev pub plan : SinkConfig → String → List Call
plan cfg name =
    dead_calls cfg
    ++ (declare_queue (own_queue cfg)
        ∷ (gather (exchange_calls name) cfg.bindings
            ++ (open_stream name cfg.auto_ack ∷ map ready cfg.ready)))

module _ (broker : Call → Option Error) where
  -- The calls in turn, as the source makes them one by one.
  in_turn : List Call → Run → Run
  unfolding then_do
  in_turn [] later = later
  in_turn (call ∷ calls) later = then_do broker call (in_turn calls later)

  in_turn-append :
      (xs ys : List Call) (later : Run) → in_turn (xs ++ ys) later ≡ in_turn xs (in_turn ys later)
  unfolding in_turn
  in_turn-append [] ys later = refl
  in_turn-append (x ∷ xs) ys later = ap (then_do broker x) (in_turn-append xs ys later)

  bind_keys_lem :
      (name exchange : String) (keys : List String) (later : Run)
      → bind_keys broker name exchange keys later
        ≡ in_turn (map (λ key. bind_queue name key exchange) keys) later
  unfolding bind_keys in_turn
  bind_keys_lem name exchange [] later = refl
  bind_keys_lem name exchange (key ∷ keys) later =
      ap (then_do broker (bind_queue name key exchange)) (bind_keys_lem name exchange keys later)

  bind_exchanges_lem :
      (name : String) (excs : List Exchange) (later : Run)
      → bind_exchanges broker name excs later ≡ in_turn (gather (exchange_calls name) excs) later
  unfolding bind_exchanges in_turn
  bind_exchanges_lem name [] later = refl
  bind_exchanges_lem name (exc ∷ excs) later =
      ap (then_do broker (declare_exchange exc.name exc.kind exc.attrs)) (
        bind_keys_lem name exc.name exc.binding (bind_exchanges broker name excs later)
        ∙ ap (in_turn (map (λ key. bind_queue name key exc.name) exc.binding))
            (bind_exchanges_lem name excs later)
        ∙ sym (
            in_turn-append (map (λ key. bind_queue name key exc.name) exc.binding)
              (gather (exchange_calls name) excs) later))

  call_ready_lem :
      (handlers : List (Option Error))
      → call_ready broker handlers ≡ in_turn (map ready handlers) ([], none)
  unfolding call_ready in_turn
  call_ready_lem [] = refl
  call_ready_lem (h ∷ hs) = ap (then_do broker (ready h)) (call_ready_lem hs)

  declare_dead_lem :
      (cfg : SinkConfig) (later : Run)
      → declare_dead broker cfg later ≡ in_turn (dead_calls cfg) later
  unfolding declare_dead in_turn
  declare_dead_lem cfg later = ground arith

  set_up-in_turn :
      (cfg : SinkConfig) (name : String)
      → set_up broker cfg name ≡ in_turn (plan cfg name) ([], none)
  unfolding set_up in_turn
  set_up-in_turn cfg name =
      let bound = gather (exchange_calls name) cfg.bindings in
      let tail = open_stream name cfg.auto_ack ∷ map ready cfg.ready in
      let main =
        bind_exchanges_lem name cfg.bindings
          (then_do broker (open_stream name cfg.auto_ack) (call_ready broker cfg.ready))
        ∙ ap (λ r. in_turn bound (then_do broker (open_stream name cfg.auto_ack) r))
            (call_ready_lem cfg.ready)
        ∙ sym (in_turn-append bound tail ([], none)) in
      declare_dead_lem cfg _
      ∙ ap (λ r. in_turn (dead_calls cfg) (then_do broker (declare_queue (own_queue cfg)) r)) main
      ∙ sym (
          in_turn-append (dead_calls cfg) (declare_queue (own_queue cfg) ∷ (bound ++ tail))
            ([], none))

  -- The calls were made in order up to `call`, which answered with `err`.
  abbrev pub StopsAt : List Call → Run → Type 0
  StopsAt calls run =
      (before : List Call) × (call : Call) × (after : List Call) × (err : Error) × (calls
        ≡ before ++ call ∷ after)
      × All (λ c. answer_to broker c ≡ none) before
      × (answer_to broker call ≡ some err)
      × (run ≡ (before ++ call ∷ [], some err))

  in_turn_cases :
      (calls : List Call)
      → (All (λ c. answer_to broker c ≡ none) calls × (in_turn calls ([], none) ≡ (calls, none)))
        ⊎ StopsAt calls (in_turn calls ([], none))
  unfolding in_turn then_do
  in_turn_cases [] = inl (tt, refl)
  in_turn_cases (call ∷ calls) = elim (option_cases (answer_to broker call)) [
    | inr (err, e) ↦ inr ([], call, calls, err, refl, tt, e, ground arith)
    | inl e ↦ elim (in_turn_cases calls) [
      | inl (fine, run) ↦ inl ((e, fine), ground arith)
      | inr (before, c, after, err, split, fine, a, run) ↦
          inr (call ∷ before, c, after, err, ap (λ cs. call ∷ cs) split, (e, fine), a, ground arith)
    ]
  ]

  -- Either every call of the plan is made, in order and with success, and the consumer goes on to its
  -- loop; or the calls are made up to the first that fails, no more, and its error is returned.
  pub set_up_follows_plan :
      (cfg : SinkConfig) (name : String)
      → (All (λ c. answer_to broker c ≡ none) (plan cfg name)
          × (set_up broker cfg name ≡ (plan cfg name, none)))
        ⊎ StopsAt (plan cfg name) (set_up broker cfg name)
  set_up_follows_plan cfg name = rw (set_up-in_turn cfg name) (in_turn_cases (plan cfg name))
