-- ===== src/Rpc/RoundTrip.antt =====
-- rpc.go on one side, and on the other a sink that answers with `Writer.Reply` (writer.go), over a broker
-- that carries messages.
use fluent_amqp.Base.{
  ℕ, String, ◌≡◌, ◌≢◌, refl, ◌∙◌, ap, List, [], ◌∷◌, ◌++◌, some, eq_iff, gather, arith, All,
  All-append,
}
use fluent_amqp.Base.Int.{ℤ}
use fluent_amqp.Amqp.{Delivery, Publishing}
use fluent_amqp.Writer.{WriterConfig, Message, reply_to_delivery, bytes, prepare}
use fluent_amqp.Rpc.{
  Effect, delivered, closed, Event, calls, arrives, run, new_rpc, request, reply_bytes,
}
use fluent_amqp.Rpc.Channels.{on_channel, first_reply, IsOther}
use fluent_amqp.Rpc.Replies.{reply_is_first}

-- What comes out of the channel with this number.
abbrev pub received_by : Effect → List Delivery
received_by (delivered ch msg) = msg ∷ []
received_by _ = []

-- A broker carries the fields that the two sides read.
abbrev pub Carries : (Message → Delivery) → Type 0
Carries carry =
    (ms : Message)
    → ((carry ms).correlation_id ≡ ms.msg.correlation_id)
      × ((carry ms).reply_to ≡ ms.msg.reply_to)
      × ((carry ms).body ≡ ms.msg.body)

-- No reply to this request, and no other request with its id.
abbrev pub IsUnrelated : String → Event → Type 0
IsUnrelated id (calls j now msg) = j ≢ id
IsUnrelated id (arrives msg) = msg.correlation_id ≢ id

IsUnrelated-IsOther :
    (id : String) (es : List Event) → All (IsUnrelated id) es → All (IsOther id) es
IsUnrelated-IsOther id [] u = tt
IsUnrelated-IsOther id (calls j now msg ∷ es) (n, u) = (n, IsUnrelated-IsOther id es u)
IsUnrelated-IsOther id (arrives msg ∷ es) (n, u) = (tt, IsUnrelated-IsOther id es u)

first_reply-here :
    (id : String) (ch : ℕ) (between after : List Event) (msg : Delivery)
    → All (IsUnrelated id) between
    → msg.correlation_id ≡ id
    → first_reply id ch (between ++ arrives msg ∷ after) ≡ delivered ch msg ∷ closed ch ∷ []
first_reply-here id ch [] after msg u e = ground (arith, eq_iff msg.correlation_id id)
first_reply-here id ch (calls j now m ∷ es) after msg (n, u) e =
    first_reply-here id ch es after msg u e
first_reply-here id ch (arrives m ∷ es) after msg (n, u) e =
    ground (arith, eq_iff m.correlation_id id, first_reply-here id ch es after msg u e)

-- The answer of the other side to the request: `Reply(&msg)` with this body.
unfoldable pub answer_of : WriterConfig → ℤ → List ℕ → Delivery → Message
unfolding bytes reply_to_delivery prepare
answer_of wc now body asked = bytes body (reply_to_delivery wc now asked)

module _ (carry : Message → Delivery) (carries : Carries carry) (wc server : WriterConfig)
    (queue : String) where
  -- A request of the RPC that is answered with `Reply` on the delivery that it became, while the broker
  -- carries messages: the answer goes by the default exchange to the queue of the replies; and whatever
  -- requests and deliveries come before, between and after, if none of the deliveries between has the id of
  -- the request and no later request has it, the caller gets this answer and nothing else, its channel is
  -- closed, and `Bytes` returns the body of the answer.
  pub round_trip :
      (before between after : List Event) (id : String) (now then_now : ℤ) (msg : Publishing)
      (body : List ℕ)
      → All (IsUnrelated id) between
      → All (IsOther id) after
      → let answer = answer_of server then_now body (carry (request wc queue id now msg)) in
        let ch = (run wc queue before new_rpc).channels in
        let seen =
          gather
            (on_channel ch)
            (run wc queue
              (before ++ calls id now msg ∷ (between ++ arrives (carry answer) ∷ after))
              new_rpc).log in
        (answer.exchange ≡ "")
        × (answer.key ≡ queue)
        × (seen ≡ delivered ch (carry answer) ∷ closed ch ∷ [])
        × (reply_bytes (gather received_by seen) ≡ some body)
  unfolding request answer_of reply_bytes
  round_trip before between after id now then_now msg body u o =
      let asked = request wc queue id now msg in
      let answer = answer_of server then_now body (carry asked) in
      let (c, r, b) = carries asked in
      let (c', r', b') = carries answer in
      let others =
        All-append (IsOther id) between (arrives (carry answer) ∷ after)
          (IsUnrelated-IsOther id between u) (tt, o) in
      let seen =
        reply_is_first wc queue before (between ++ arrives (carry answer) ∷ after) id now msg others
        ∙ first_reply-here id (run wc queue before new_rpc).channels between after (carry answer) u
            (c' ∙ c) in
      (refl, r, seen, ap (λ es. reply_bytes (gather received_by es)) seen ∙ ap some b')
