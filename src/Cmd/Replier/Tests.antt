-- ===== src/Cmd/Replier/Tests.antt =====
-- amqp-exec on a topic exchange, with an answering publisher.
use fluent_amqp.Base.{ℕ, List, length, arith, ◌≡◌, refl, true, false, [], ◌∷◌, none, some}
use fluent_amqp.Base.Int.{pos}
use fluent_amqp.Base.Text.{bytes_of}
use fluent_amqp.Sink.{SinkConfig, SinkDefaults}
use fluent_amqp.Writer.{WriterConfig}
use fluent_amqp.Cmd.{exchange_kind}
use fluent_amqp.Cmd.Replier.{Options, prepared, publisher, configure}
use fluent_amqp.Queue.{zero_queue}
use fluent_amqp.Writer.Publish.{arrives}
use fluent_amqp.Config.{broker}
use fluent_amqp.Config.Retries.{life, rejected}
use fluent_amqp.Config.Redelivery.{fresh, fresh_count, redeliver, redeliver-Counts}
use fluent_amqp.Exec.{Handler, Attempt}
use fluent_amqp.Exec.Process.{Command, Process, exited}
use fluent_amqp.Cmd.Replier.Tries.{Fails, handle_delivery, command_tries}
use fluent_amqp.Cmd.Replier.Setup.{parts}

abbrev defaults : SinkDefaults
defaults = record {
  retries = pos 10;
  expired = none;
  too_much = none;
  threshold = pos 0;
  verbose_logging = true;
}

abbrev options : Options
options = record {
  queue = "orders";
  retry_limit = pos 3;
  retry_interval = pos 5;
  verify = none;
  lazy = true;
  exchange = "shop";
  exchange_type = "topic";
  routing_key = "orders.*" ∷ "returns.*" ∷ [];
  pub_key = "done";
  pub_exchange = "results";
  pub_exchange_type = "fanout";
}

abbrev writer : WriterConfig
writer = record {
  exchange = "results";
  kind = "fanout";
  middleware = [];
  topic = "done";
  max_size = pos 0;
  has_handler = false;
}

topic : exchange_kind "topic" ≡ some "topic"
unfolding exchange_kind
topic = refl

writer_lem : publisher options ≡ some writer
unfolding publisher
writer_lem = refl

abbrev handler : Handler
handler = record {
  auto_reply = true;
  empty_publish = false;
  multi_line = false;
  copy_text = "";
  export_env = [];
  headers = [];
}

abbrev attempt : ℕ → List ℕ → Attempt
attempt n content = record { data_sent = content; now = pos 1; channel = n; wait = arrives tt }

abbrev whole : List ℕ → List (List ℕ)
whole content = content ∷ []

-- An application that writes its name and fails.
failing : Command → Process
failing c = exited (some "exit status 1") (bytes_of c.app)

failing-Fails : (c : Command) → Fails (failing c)
unfolding failing
failing-Fails c = tt

command_tries_example :
    (snk : SinkConfig) × (configure (broker ("amqp://localhost" ∷ [])).sinks options
      ≡ prepared (parts options writer snk) true)
    × (let (tries, end) =
          life redeliver snk
            (handle_delivery attempt whole
              (λ n. n)
              (λ b. "")
              ("HOME=/" ∷ [])
              (λ v. "")
              (λ t. t)
              "billing"
              []
              failing
              handler
              writer
              zero_queue)
            9
            fresh in
        (length tries ≡ 4) × (end ≡ rejected))
command_tries_example =
    command_tries attempt whole (λ n. n) (λ b. "") ("HOME=/" ∷ []) (λ v. "") (λ t. t) redeliver
      ("amqp://localhost" ∷ []) options "topic" 3 writer handler "billing" [] failing zero_queue 9
      fresh redeliver-Counts refl refl topic writer_lem refl failing-Fails fresh_count (omega arith)
