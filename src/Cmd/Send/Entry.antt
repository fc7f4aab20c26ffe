-- ===== src/Cmd/Send/Entry.antt =====
-- What amqp-send puts in the queue of its publisher, and what it reports.
use fluent_amqp.Base.{
  ℕ, zero, suc, String, ◌≡◌, refl, sym, ◌∙◌, ap, Bool, true, false, List, [], ◌∷◌, ◌++◌, append-nil,
  Option, none, some, ◌==◌, if◌then◌else◌, eq_iff, Bool-cases, inl, inr, arith,
}
use fluent_amqp.Base.Int.{ℤ, pos, negsuc}
use fluent_amqp.Amqp.{Error, Value, text, lookup?, Publishing}
use fluent_amqp.Queue.{MessageQueue}
use fluent_amqp.Queue.Refine.{IsValid, contents}
use fluent_amqp.Writer.{
  WriterConfig, new_writer, default_topic, default_direct, default_fanout, default_key,
  with_exchange, add_handler, Outgoing, Message, persistent, prepare, bytes, id, ttl, type,
  reply_to, header, millis,
}
use fluent_amqp.Writer.Building.{lookup?-header}
use fluent_amqp.Writer.Publish.{Wait, arrives, cancelled, rejected, process_message, publish_wait}
use fluent_amqp.Writer.Sending.{entry, publish_accepted, refused_lem}
use fluent_amqp.Exec.{add_headers}
use fluent_amqp.Cmd.{publish_to}
use fluent_amqp.Cmd.Send.{Options, content, configure, with_signer, message, run, main}

-- A message without its headers and its expiration.
abbrev bare : Message → Message
bare ms = record ms { msg = record (ms.msg) { headers = none; expiration = "" } }

add_headers-bare : (hs : List (String × String)) (ms : Message) → bare (add_headers hs ms) ≡ bare ms
unfolding add_headers header
add_headers-bare [] ms = refl
add_headers-bare ((k, v) ∷ hs) ms = add_headers-bare hs (header k (text v) ms)

ttl-bare : (tm : ℤ) (ms : Message) → bare (ttl tm ms) ≡ bare ms
unfolding ttl
ttl-bare (pos zero) ms = refl
ttl-bare (pos (suc n)) ms = refl
ttl-bare (negsuc n) ms = refl

publish_to_fields :
    (name kind : String) (wc : WriterConfig)
    → publish_to name kind new_writer ≡ some wc
    → wc.exchange ≡ name
unfolding publish_to default_topic default_direct default_fanout with_exchange new_writer
publish_to_fields name kind wc e = ground arith

with_signer_fields :
    (o : Options) (wc : WriterConfig)
    → ((with_signer o.sign (default_key o.routing_key wc)).exchange ≡ wc.exchange)
      × ((with_signer o.sign (default_key o.routing_key wc)).topic ≡ o.routing_key)
unfolding with_signer default_key add_handler
with_signer_fields o wc = ground arith

configured :
    (o : Options) (found : Option WriterConfig) (wc : WriterConfig)
    → ((w : WriterConfig) → found ≡ some w → w.exchange ≡ o.exchange)
    → ◌≡◌ {A = Option WriterConfig}
        (elim found [
          | none ↦ none
          | some w ↦ some (with_signer o.sign (default_key o.routing_key w))
        ])
        (some wc)
    → (wc.exchange ≡ o.exchange) × (wc.topic ≡ o.routing_key)
configured o none wc from e = absurd (ground arith)
configured o (some w) wc from e =
    let (x, k) = with_signer_fields o w in
    let same : with_signer o.sign (default_key o.routing_key w) ≡ wc = ground arith in
    (sym (ap (λ c. c.exchange) same) ∙ x ∙ from w refl, sym (ap (λ c. c.topic) same) ∙ k)

found_exchange :
    (o : Options) (w : WriterConfig)
    → (if o.exchange == ""
        then some new_writer
        else publish_to o.exchange o.exchange_type new_writer)
      ≡ some w
    → w.exchange ≡ o.exchange
unfolding new_writer
found_exchange o w e = elim (Bool-cases (o.exchange == "")) [
  | inl plain ↦ ground (arith, eq_iff o.exchange "")
  | inr named ↦ publish_to_fields o.exchange o.exchange_type w (
      sym (
        ap (λ b. if b then some new_writer else publish_to o.exchange o.exchange_type new_writer)
          named)
      ∙ e)
]

configure_fields :
    (o : Options) (wc : WriterConfig)
    → configure o ≡ some wc
    → (wc.exchange ≡ o.exchange) × (wc.topic ≡ o.routing_key)
unfolding configure
configure_fields o wc e = configured o _ wc (found_exchange o) e

-- The value that a list of headers has for a name: that of its last entry with this name.
abbrev pub last_value : String → List (String × String) → Option Value → Option Value
last_value name [] before = before
last_value name ((k, v) ∷ hs) before =
    last_value name hs (if k == name then some (text v) else before)

-- The time to live as the broker reads it: milliseconds, and nothing for zero.
abbrev pub expiry : ℤ → String
expiry (pos zero) = ""
expiry tm = millis tm

-- The options stand in the message.
abbrev pub Carries : Options → String → ℤ → List ℕ → WriterConfig → Message → Type 0
Carries o uuid now read wc ms =
    (ms.exchange ≡ wc.exchange)
    × (ms.key ≡ wc.topic)
    × (ms.msg.body ≡ read)
    × (ms.msg.message_id ≡ (if o.message_id == "" then uuid else o.message_id))
    × (ms.msg.correlation_id ≡ o.correlation_id)
    × (ms.msg.reply_to ≡ o.reply_to)
    × (ms.msg.content_type ≡ o.content_type)
    × (ms.msg.timestamp ≡ now)
    × (ms.msg.delivery_mode ≡ persistent)
    × (ms.msg.expiration ≡ expiry o.ttl)
    × ((name : String) → lookup? name ms.msg.headers ≡ last_value name o.headers none)

-- The headers that the loop leaves, and the field that it does not touch.
add_headers-last :
    (hs : List (String × String)) (ms : Message) (name : String)
    → lookup? name (add_headers hs ms).msg.headers
      ≡ last_value name hs (lookup? name ms.msg.headers)
unfolding add_headers header
add_headers-last [] ms name = refl
add_headers-last ((k, v) ∷ hs) ms name =
    add_headers-last hs (header k (text v) ms) name
    ∙ ap (last_value name hs) (lookup?-header k name (text v) ms)

add_headers-expiration :
    (hs : List (String × String)) (ms : Message)
    → (add_headers hs ms).msg.expiration ≡ ms.msg.expiration
unfolding add_headers header
add_headers-expiration [] ms = refl
add_headers-expiration ((k, v) ∷ hs) ms = add_headers-expiration hs (header k (text v) ms)

ttl-expiry :
    (tm : ℤ) (ms : Message)
    → ms.msg.expiration ≡ ""
    → ((ttl tm ms).msg.expiration ≡ expiry tm) × ((ttl tm ms).msg.headers ≡ ms.msg.headers)
unfolding ttl
ttl-expiry (pos zero) ms e = (e, refl)
ttl-expiry (pos (suc n)) ms e = (refl, refl)
ttl-expiry (negsuc n) ms e = (refl, refl)

message-Carries :
    (o : Options) (uuid : String) (now : ℤ) (read : List ℕ) (wc : WriterConfig)
    → Carries o uuid now read wc (message o uuid now read wc)
unfolding message type reply_to id bytes prepare
message-Carries o uuid now read wc =
    let name = if o.message_id == "" then uuid else o.message_id in
    let base = id name (bytes read (prepare wc now)) in
    let same = add_headers-bare o.headers (ttl o.ttl base) ∙ ttl-bare o.ttl base in
    (
      ap (λ m. m.exchange) same,
      ap (λ m. m.key) same,
      ap (λ m. m.msg.body) same,
      ap (λ m. m.msg.message_id) same,
      refl,
      refl,
      refl,
      ap (λ m. m.msg.timestamp) same,
      ap (λ m. m.msg.delivery_mode) same,
      add_headers-expiration o.headers (ttl o.ttl base) ∙ (ttl-expiry o.ttl base refl).0,
      λ header.
          add_headers-last o.headers (ttl o.ttl base) header
          ∙ ap (λ t. last_value header o.headers (lookup? header t)) (ttl-expiry o.ttl base refl).1,
    )

-- What `PublishWait` does to the queue, whatever its wait brings.
publish_wait_queue :
    (wc : WriterConfig) (ch : ℕ) (ms : Message) (q : MessageQueue Outgoing) (m : Publishing)
    (wait : Wait (Unit {0})) (passed : Bool)
    → process_message wc.middleware ms.msg ≡ some (passed, m)
    → IsValid q
    → (err : Option Error) × (q' : MessageQueue Outgoing) × (publish_wait wc ch ms wait q
        ≡ some (err, q'))
      × (contents q' ≡ contents q ++ (if passed then entry ms ch m ∷ [] else []))
unfolding publish_wait
publish_wait_queue wc ch ms q m wait true e v =
    let (q', ran, valid, same) = publish_accepted wc ch ms q m e v in
    (elim wait [ arrives u ↦ none | cancelled x ↦ some x ], q', ground (arith, ran), same)
publish_wait_queue wc ch ms q m wait false e v =
    let refused = refused_lem wc ch ms q m (arrives none) wait e in
    (some rejected, q, refused.1, sym (append-nil (contents q)))

-- When the options name a known kind of exchange, standard input has been read, the middlewares return and
-- the queue is well-formed, `run` builds a message with the options in it, for the exchange and the routing key of the
-- options. It leaves the queue as it was but for the message of the middlewares at its end, if they
-- let it pass. Its result is success, and the exit status 0, whatever became of the message: refused by a middleware, still in
-- the queue when the context ended, or taken by the loop of the publisher.
pub sends_and_succeeds :
    (o : Options) (wc : WriterConfig) (uuid : String) (now : ℤ) (ch : ℕ) (wait : Wait (Unit {0}))
    (read : List ℕ) (q : MessageQueue Outgoing) (m : Publishing) (passed : Bool)
    → configure o ≡ some wc
    → process_message wc.middleware (message o uuid now read wc).msg ≡ some (passed, m)
    → IsValid q
    → (wc.exchange ≡ o.exchange)
      × (wc.topic ≡ o.routing_key)
      × Carries o uuid now read wc (message o uuid now read wc)
      × ((q' : MessageQueue Outgoing) × (run o uuid now ch wait (content read) q ≡ some (none, q'))
          × (main false none o uuid now ch wait (content read) q ≡ some (0, q'))
          × (contents q'
              ≡ contents q
                ++ (if passed then entry (message o uuid now read wc) ch m ∷ [] else [])))
unfolding main run
sends_and_succeeds o wc uuid now ch wait read q m passed set e v =
    let ms = message o uuid now read wc in
    let (x, k) = configure_fields o wc set in
    let (err, q', waited, same) = publish_wait_queue wc ch ms q m wait passed e v in
    (
      x,
      k,
      message-Carries o uuid now read wc,
      (q', ground (arith, set, waited), ground (arith, set, waited), same),
    )
