-- ===== src/Sink/Consume/Verdict.antt =====
-- Which messages a sink keeps, and whom it asks.
use fluent_amqp.Base.{◌≡◌, ◌↔◌, true, false, Option, none, some, arith}
use fluent_amqp.Base.Int.{ℤ, pos, ◌≤ℤ◌, ◌<ℤ◌}
use fluent_amqp.Amqp.{Delivery}
use fluent_amqp.Sink.{ExpiredHandler, SinkConfig}
use fluent_amqp.Sink.Death.{get_redelivery}
use fluent_amqp.Sink.Consume.{ask, check_retries}

module _ (cfg : SinkConfig) (msg : Delivery) where
  abbrev pub retries : ℤ
  retries = get_redelivery msg.headers

  -- The message has reached the threshold of `OnTooMuchRetries`, or the limit on retries.
  abbrev pub IsTooOften : Type 0
  IsTooOften = cfg.threshold ≤ℤ retries

  abbrev pub IsExpired : Type 0
  IsExpired = (pos 0 ≤ℤ cfg.retries) × (cfg.retries <ℤ retries)

  -- A handler keeps the message.
  abbrev pub Keeps : Option ExpiredHandler → Type 0
  Keeps none = ⊥
  Keeps (some h) = ask h cfg.name msg retries ≡ true

  abbrev pub Objects : Option ExpiredHandler → Type 0
  Objects none = ⊥
  Objects (some h) = ask h cfg.name msg retries ≡ false

  -- A message is kept exactly when the handler of `OnTooMuchRetries`, if there is one, does not object at
  -- or above its threshold, and beyond a limit that is not negative there is a handler of `OnExpired`
  -- that keeps it. So one objection is enough to drop a message that both are asked about.
  pub check_retries_iff :
      ((check_retries cfg msg).0 ≡ true)
      ↔ ((IsTooOften → ¬ Objects cfg.too_much) × (IsExpired → Keeps cfg.expired))
  unfolding check_retries
  check_retries_iff = (
    λ kept. (λ often objects. ground arith, λ expired. ground arith),
    λ (fine, wanted). ground arith,
  )
