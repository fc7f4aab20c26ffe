-- ===== src/Config.antt =====
-- config.go: the configuration of the connection.
pub mod Retries
pub mod Redelivery
use fluent_amqp.Base.{ℕ, String, Bool, true, List, Option, none, some}
use fluent_amqp.Base.Int.{ℤ, pos}
use fluent_amqp.Amqp.{Delivery}
use fluent_amqp.Sink.{SinkDefaults}

-- `Logger`: `log.New` on `ioutil.Discard` or on `os.Stderr` with a prefix, or the program's own, by a number.
pub data Logger : Type 0 where
  discards : Logger
  to_stderr : String → Logger
  own : ℕ → Logger

-- A `context.Context`: the background, or one of the program's, by a number.
pub data Context : Type 0 where
  background : Context
  given : ℕ → Context

-- `BrokerConfig`; durations are in nanoseconds. `sinks` holds `defaultSink` and `verboseLogging`, which the
-- sinks read.
pub record BrokerConfig : Type 0 where
  pub urls : List String
  pub reconnect_interval : ℤ
  pub connect_timeout : ℤ
  pub ctx : Context
  pub log_to : Logger
  pub sinks : SinkDefaults

-- `Broker`
unfoldable pub broker : List String → BrokerConfig
broker urls = record {
  urls = urls;
  reconnect_interval = pos 5000000000;
  connect_timeout = pos 20000000000;
  ctx = background;
  log_to = discards;
  sinks = record {
    retries = pos 10;
    expired = none;
    too_much = none;
    threshold = pos 0;
    verbose_logging = true;
  };
}

unfoldable pub interval : ℤ → BrokerConfig → BrokerConfig
interval tm bc = record bc { reconnect_interval = tm }

-- `Timeout`
unfoldable pub dial_timeout : ℤ → BrokerConfig → BrokerConfig
dial_timeout tm bc = record bc { connect_timeout = tm }

unfoldable pub logger : Logger → BrokerConfig → BrokerConfig
logger to bc = record bc { log_to = to }

unfoldable pub std_logger : String → BrokerConfig → BrokerConfig
unfolding logger
std_logger prefix bc = logger (to_stderr prefix) bc

unfoldable pub context : Context → BrokerConfig → BrokerConfig
context c bc = record bc { ctx = c }

-- `Verbose`
unfoldable pub verbose_all : Bool → BrokerConfig → BrokerConfig
verbose_all on bc = record bc { sinks = record (bc.sinks) { verbose_logging = on } }

-- `Retries`
unfoldable pub default_retries : ℤ → BrokerConfig → BrokerConfig
default_retries num bc = record bc { sinks = record (bc.sinks) { retries = num } }

-- `OnExpired`
unfoldable pub default_expired : (String → Delivery → ℤ → Bool) → BrokerConfig → BrokerConfig
default_expired handler bc = record bc { sinks = record (bc.sinks) { expired = some handler } }

-- `OnTooMuchRetries`
unfoldable pub default_too_much : ℤ → (String → Delivery → ℤ → Bool) → BrokerConfig → BrokerConfig
default_too_much threshold handler bc = record bc {
  sinks = record (bc.sinks) { too_much = some handler; threshold = threshold };
}
