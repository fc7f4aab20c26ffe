-- ===== src/Sink/Consume.antt =====
-- sink.go, the loop of `sink.ChannelReady`: what happens to one delivery.
pub mod Verdict
pub mod Chain
use fluent_amqp.Base.{
  String, Bool, true, false, not, ◌&&◌, List, [], ◌∷◌, ◌++◌, Option, none, some, if◌then◌else◌,
}
use fluent_amqp.Base.Int.{ℤ, pos, leb_ℤ, ltb_ℤ}
use fluent_amqp.Amqp.{Error, Delivery}
use fluent_amqp.Sink.{ReceiverHandler, ExpiredHandler, own, of_broker, SinkConfig}
use fluent_amqp.Sink.Death.{get_redelivery, restore_routing_key}

-- What a sink does with a delivery, in order: it asks the two handlers of old messages, drops the
-- delivery (`msg.Nack(false, false)`), or calls the sink's handler.
pub data Effect : Type 0 where
  asked_too_much asked_expired : ℤ → Effect
  dropped : Effect
  handled : Delivery → Effect

unfoldable pub ask : ExpiredHandler → String → Delivery → ℤ → Bool
ask (own handler) name msg retries = handler msg retries
ask (of_broker handler) name msg retries = handler name msg retries

-- the loop over the middleware: whether the message passed, and the message
unfoldable pub run_middleware : List ReceiverHandler → Delivery → Bool × Delivery
run_middleware [] msg = (true, msg)
run_middleware (handle ∷ rest) msg =
    let (ok, msg') = handle msg in
    elim ok [ true ↦ run_middleware rest msg' | false ↦ (false, msg') ]

module _ (cfg : SinkConfig) where
  -- the `if` of `tooMuchRetries`: `keepMessage` and the calls made
  check_too_much : Option ExpiredHandler → Delivery → ℤ → Bool × List Effect
  unfolding ask
  check_too_much none msg retries = (true, [])
  check_too_much (some handler) msg retries =
      if leb_ℤ cfg.threshold retries
      then (ask handler cfg.name msg retries, asked_too_much retries ∷ [])
      else (true, [])

  -- the handler of expired messages, which `&&` calls only for a message that is still kept
  check_expired : Option ExpiredHandler → Bool → Delivery → ℤ → Bool × List Effect
  unfolding ask
  check_expired none keep msg retries = (false, [])
  check_expired (some handler) false msg retries = (false, [])
  check_expired (some handler) true msg retries =
      (ask handler cfg.name msg retries, asked_expired retries ∷ [])

  is_expired : ℤ → Bool
  is_expired retries = leb_ℤ (pos 0) cfg.retries && ltb_ℤ cfg.retries retries

  -- up to `if !keepMessage`
  unfoldable pub check_retries : Delivery → Bool × List Effect
  unfolding check_too_much check_expired is_expired
  check_retries msg =
      let retries = get_redelivery msg.headers in
      let (keep, asked) = check_too_much cfg.too_much msg retries in
      let (keep', asked') = check_expired cfg.expired keep msg retries in
      if is_expired retries then (keep', asked ++ asked') else (keep, asked)

  -- One delivery: the effects, and the error with which `ChannelReady` returns. `nack` is the answer to
  -- `msg.Nack`, if it is called.
  unfoldable pub deliver : Option Error → Delivery → List Effect × Option Error
  deliver nack msg =
      let (keep, asked) = check_retries msg in
      let restored : Delivery = record msg {
        routing_key = restore_routing_key msg.headers msg.routing_key;
      } in
      let (passed, msg') = run_middleware cfg.middleware restored in
      elim keep [
        | false ↦ (asked ++ dropped ∷ [], nack)
        | true ↦ elim passed [
          | false ↦ (asked ++ dropped ∷ [], nack)
          | true ↦ (asked ++ handled msg' ∷ [], none)
        ]
      ]

-- What the `select` of the loop meets: a delivery, with the answer to a `Nack` of it; the end of the
-- stream; the end of the context.
pub data Input : Type 0 where
  arrives : Delivery → Option Error → Input
  closes : Input
  cancels : Error → Input

-- The loop: it still waits, or `ChannelReady` has returned.
pub data Loop : Type 0 where
  waiting : Loop
  returned : Option Error → Loop

-- The rest of the loop, unless it returns with an error.
pub go_on : List Effect → Option Error → List Effect × Loop → List Effect × Loop
go_on effects none (later, end) = (effects ++ later, end)
go_on effects (some e) later = (effects, returned (some e))

module _ (cfg : SinkConfig) where
  pub consume : List Input → List Effect × Loop
  unfolding go_on
  consume [] = ([], waiting)
  consume (closes ∷ inputs) = ([], returned none)
  consume (cancels e ∷ inputs) = ([], returned (some e))
  consume (arrives msg nack ∷ inputs) =
      let now = deliver cfg nack msg in let later = consume inputs in go_on now.0 now.1 later
