-- ===== src/Cmd/Replier/Tries.antt =====
-- amqp-exec with an application that always fails.
use fluent_amqp.Base.{
  ℕ, suc, ◌<◌, String, ◌≡◌, refl, sym, subst, ap₂, Bool, true, false, not, List, Option, none, some,
  length, ◌==◌, if◌then◌else◌, arith,
}
use fluent_amqp.Base.Int.{ℤ, pos}
use fluent_amqp.Amqp.{Value, Error, Delivery, Publishing}
use fluent_amqp.Queue.{MessageQueue}
use fluent_amqp.Sink.{
  SinkConfig, new_sink, exchange, key, lazy, attr, manual_ack, retry_limit, requeue_after,
}
use fluent_amqp.Sink.Death.{get_redelivery}
use fluent_amqp.Sink.Consume.{check_retries}
use fluent_amqp.Sink.Consume.Chain.{fate}
use fluent_amqp.Sink.Transact.{transact}
use fluent_amqp.Writer.{WriterConfig, Outgoing}
use fluent_amqp.Config.{broker}
use fluent_amqp.Config.Retries.{life, rejected, Counts, Alike, retrying, always_failed}
use fluent_amqp.Exec.{Handler, Attempt, handle}
use fluent_amqp.Exec.Process.{
  Command, Process, unstarted, exited, make_cmd, run_application, handle_process,
}
use fluent_amqp.Cmd.{exchange_kind, bind_exchange, with_validator, with_lazy}
use fluent_amqp.Cmd.Replier.{Options, prepared, consumer, publisher, configure}
use fluent_amqp.Cmd.Replier.Setup.{parts, configure_lem, bound_sink}

-- What the options add to a sink for transactions, but for a validator.
abbrev dressed : Bool → Bool → String → String → List String → SinkConfig → SinkConfig
dressed on without exc kind ks snk =
    manual_ack (if without then with_lazy on snk else bind_exchange exc ks (with_lazy on snk) kind)

dressed-Alike :
    (urls : List String) (queue : String) (n : ℕ) (interval : ℤ) (on without : Bool)
    (exc kind : String) (ks : List String)
    → Alike
        (dressed on without exc kind ks (retrying urls queue n interval))
        (retrying urls queue n interval)
unfolding manual_ack with_lazy bind_exchange exchange key lazy attr requeue_after retry_limit
    new_sink fate transact check_retries
dressed-Alike urls queue n interval true true exc kind ks = record {
  decide = λ m. refl;
  settle = λ m r. refl;
}
dressed-Alike urls queue n interval true false exc kind ks = record {
  decide = λ m. refl;
  settle = λ m r. refl;
}
dressed-Alike urls queue n interval false true exc kind ks = record {
  decide = λ m. refl;
  settle = λ m r. refl;
}
dressed-Alike urls queue n interval false false exc kind ks = record {
  decide = λ m. refl;
  settle = λ m r. refl;
}

-- The result of `Handle`.
abbrev pub result_of : Option (Option Error × MessageQueue Outgoing) → Option Error
result_of none = none
result_of (some (r, q)) = r

-- The application does not start, or ends with an error status.
abbrev pub Fails : Process → Type 0
Fails (unstarted e) = Unit
Fails (exited (some e) out) = Unit
Fails (exited none out) = ⊥

module _ (attempt : ℕ → List ℕ → Attempt) (scan : List ℕ → List (List ℕ)) (env : String → String)
    (string_of : List ℕ → String) (environ : List String) (sprint : Value → String)
    (unix : ℤ → ℤ) where
  broken :
      (h : Handler) (wc : WriterConfig) (d : Delivery) (proc : Process) (q : MessageQueue Outgoing)
      → h.multi_line ≡ false
      → Fails proc
      → (e : Error) × (result_of (handle_process attempt scan env string_of h wc d proc q) ≡ some e)
  unfolding handle_process handle run_application
  broken h wc d (unstarted e) q one f = (e, ground (arith, one))
  broken h wc d (exited (some e) out) q one f = (e, ground (arith, one))
  broken h wc d (exited none out) q one f = absurd f

  -- `Handle` for a delivery, whose command becomes the process that `runs` says: its result.
  abbrev pub handle_delivery :
      String
      → List String
      → (Command → Process)
      → Handler
      → WriterConfig
      → MessageQueue Outgoing
      → Delivery
      → Option Error
  handle_delivery app params runs h wc q d = result_of (
      handle_process attempt scan env string_of h wc d
        (runs (make_cmd environ sprint unix app params d)) q)

  -- amqp-exec with a retry limit of `n`, without a certificate and not in multiline mode, with exchanges of
  -- known kinds, whose application fails for every message, while the broker takes, counts and returns
  -- every copy: `run` prepares a sink that gives a new message to the application exactly `n + 1` times,
  -- and then drops it. A fuel above `n + 1` is enough.
  pub command_tries :
      (redeliver : Publishing → Delivery) (urls : List String) (o : Options) (kind : String) (n : ℕ)
      (wc : WriterConfig) (h : Handler) (app : String) (params : List String)
      (runs : Command → Process) (q : MessageQueue Outgoing) (fuel : ℕ) (msg : Delivery)
      → Counts redeliver
      → o.retry_limit ≡ pos n
      → o.verify ≡ none
      → exchange_kind o.exchange_type ≡ some kind
      → publisher o ≡ some wc
      → h.multi_line ≡ false
      → ((c : Command) → Fails (runs c))
      → get_redelivery msg.headers ≡ pos 0
      → suc n < fuel
      → (snk : SinkConfig) × (configure (broker urls).sinks o
          ≡ prepared (parts o wc snk) (not (o.pub_key == "")))
        × (let (tries, end) =
              life redeliver snk (handle_delivery app params runs h wc q) fuel msg in
            (length tries ≡ suc n) × (end ≡ rejected))
  unfolding consumer with_validator
  command_tries redeliver urls o kind n wc h app params runs q fuel msg counts limit plain k p one
        fails new enough =
      let snk = manual_ack (bound_sink (broker urls).sinks o kind) in
      let same : dressed o.lazy (o.exchange == "") o.exchange kind o.routing_key
            (retrying urls o.queue n o.retry_interval)
          ≡ snk =
        ap₂
          (λ v l.
            let inner = with_lazy o.lazy (
              with_validator v (
                requeue_after o.retry_interval
                  (retry_limit l (new_sink (broker urls).sinks o.queue)))) in
            manual_ack (
              if o.exchange == ""
              then inner
              else bind_exchange o.exchange o.routing_key inner kind))
          (sym plain) (sym limit) in
      (
        snk,
        configure_lem (broker urls).sinks o kind wc k p,
        always_failed urls o.queue n o.retry_interval snk
            (subst (λ s. Alike s (retrying urls o.queue n o.retry_interval)) same
              (dressed-Alike urls o.queue n o.retry_interval o.lazy (o.exchange == "") o.exchange
                kind o.routing_key))
            redeliver counts _
            (λ d.
              let c = make_cmd environ sprint unix app params d in
              broken h wc d (runs c) q one (fails c))
            fuel msg new enough,
      )
