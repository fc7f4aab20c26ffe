-- ===== src/Pipeline/Delivered.antt =====
-- A writer that signs, the loop of its publisher, a broker, and a sink that validates.
use fluent_amqp.Base.{
  ℕ, String, ◌≡◌, refl, sym, subst, ◌∙◌, ap, ap₂, ◌&&◌, if◌then◌else◌, List, [], ◌∷◌, map, length,
  gather, none, some, true, false, arith, All, All-append, All-split,
}
use fluent_amqp.Base.Int.{pos}
use fluent_amqp.Amqp.{Error, Delivery, Publishing, lookup?}
use fluent_amqp.Queue.{zero_queue}
use fluent_amqp.Queue.Refine.{contents}
use fluent_amqp.Writer.{WriterConfig, Outgoing, Message}
use fluent_amqp.Writer.Sending.{entry}
use fluent_amqp.Writer.Publish.{process_message}
use fluent_amqp.Publisher.{connects, Publisher, fresh, run}
use fluent_amqp.Publisher.Drain.{rounds, sent}
use fluent_amqp.Publisher.EndToEnd.{connects_drains}
use fluent_amqp.Sink.{SinkConfig, new_sink}
use fluent_amqp.Sink as S
use fluent_amqp.Sink.Death.{get_redelivery, no_death}
use fluent_amqp.Sink.Consume.{handled, dropped, waiting, check_retries, run_middleware, consume}
use fluent_amqp.Sink.Consume.Verdict.{check_retries_iff}
use fluent_amqp.Sink.Consume.Chain.{settled_by, taken, fate, restored, consume_settles_each}
use fluent_amqp.Config.{broker}
use fluent_amqp.Certs.{Crypto, Found, validator_handle}
use fluent_amqp.Certs.Validate.{Matches}
use fluent_amqp.Certs.Files as F
use fluent_amqp.Certs.Files.{default_signature_header, validating, sign, validate}
use fluent_amqp.Certs.Trust.{HoldsKey, HoldsCert, validate_lem, signed_files_pass}
use fluent_amqp.Pipeline.Publishing.{
  Post, Maps, Call, State, read, as_seen, AreApart, publish_all, publish_all_lem, entry_of,
  accepted, Answers,
}

-- A broker hands a message on with its headers, id and body.
abbrev pub Carries : (Outgoing → Delivery) → Type 0
Carries carry =
    (o : Outgoing)
    → ((carry o).headers ≡ o.msg.headers)
      × ((carry o).message_id ≡ o.msg.message_id)
      × ((carry o).body ≡ o.msg.body)

-- It was never dead-lettered.
abbrev pub IsNew : Outgoing → Type 0
IsNew o = lookup? "x-death" o.msg.headers ≡ none

module _ (c : Crypto) (read_file : String → Found (List ℕ)) (wrap : Error → String → Error) where
  open c use {Key, Cert}

  -- A sink with nothing but its validator.
  abbrev pub Validates : String → List String → String → SinkConfig → Type 0
  Validates cert_file urls queue snk =
      validate c read_file wrap cert_file (new_sink (broker urls).sinks queue)
      ≡ some (F.returned snk)

  Validates-eq :
      (cert_file : String) (cert : Cert) (urls : List String) (queue : String) (snk : SinkConfig)
      → HoldsCert c read_file wrap cert_file cert
      → Validates cert_file urls queue snk
      → S.add_handler
          (validating (validator_handle c default_signature_header cert))
          (new_sink (broker urls).sinks queue)
        ≡ snk
  Validates-eq cert_file cert urls queue snk hc v = ground (
    arith,
    validate_lem c read_file wrap cert_file cert (new_sink (broker urls).sinks queue) hc,
    v,
  )

  -- It keeps a message that was never dead-lettered.
  new_is_kept :
      (cert_file : String) (cert : Cert) (urls : List String) (queue : String) (snk : SinkConfig)
      (d : Delivery)
      → HoldsCert c read_file wrap cert_file cert
      → Validates cert_file urls queue snk
      → get_redelivery d.headers ≡ pos 0
      → (check_retries snk d).0 ≡ true
  unfolding S.add_handler new_sink broker
  new_is_kept cert_file cert urls queue snk d hc v e =
      let checks = Validates-eq cert_file cert urls queue snk hc v in
      let plain =
        S.add_handler (validating (validator_handle c default_signature_header cert))
          (new_sink (broker urls).sinks queue) in
      sym (ap (λ k. (check_retries k d).0) checks)
      ∙ (check_retries_iff plain d).1
          (λ often objects. objects, λ (limit, beyond). ground (arith, e))

  module _ (key_file cert_file queue : String) (urls : List String) (key : Key) (cert : Cert)
      (wc signing : WriterConfig) (snk : SinkConfig) (carry : Outgoing → Delivery)
      (hk : HoldsKey c read_file wrap key_file key) (hc : HoldsCert c read_file wrap cert_file cert)
      (match : Matches c key cert)
      (signs : sign c read_file wrap key_file wc ≡ some (F.returned signing))
      (validates : Validates cert_file urls queue snk) (carries : Carries carry) where
    -- The handler gets the message as it was handed over.
    abbrev Arrives : Outgoing → Type 0
    Arrives o = fate snk (carry o) ≡ handled (carry o)

    entry-Arrives :
        (ch : ℕ) (ms : Message) (m : Publishing)
        → process_message signing.middleware ms.msg ≡ some (true, m)
        → IsNew (entry ms ch m)
        → Arrives (entry ms ch m)
    unfolding fate
    entry-Arrives ch ms m p new =
        let d = carry (entry ms ch m) in
        let (h, i, b) = carries (entry ms ch m) in
        let (count, routing) = no_death d.headers d.routing_key (ap (lookup? "x-death") h ∙ new) in
        let same : restored snk d ≡ d = ap (λ rk. record d { routing_key = rk }) routing in
        let passes =
          signed_files_pass c read_file wrap key_file cert_file queue key cert wc signing
            (broker urls).sinks snk ms.msg m d hk hc match signs validates p h i b in
        let kept = new_is_kept cert_file cert urls queue snk d hc validates count in
        ap
          (λ r.
            if (check_retries snk d).0 && (run_middleware snk.middleware r).0
            then handled (run_middleware snk.middleware r).1
            else dropped)
          same
        ∙ ground (arith, kept, passes)

    All-Arrives :
        (posts : List Post)
        → All (Answers signing) posts
        → All IsNew (gather (accepted signing) posts)
        → All Arrives (gather (accepted signing) posts)
    All-Arrives [] a new = tt
    All-Arrives ((ch, ms) ∷ posts) ((true, m, p), a) new =
        let (first, rest) =
          All-split IsNew (accepted signing (ch, ms)) (gather (accepted signing) posts) new in
        let mine = subst (λ r. All IsNew (entry_of signing (ch, ms) r)) p first in
        All-append Arrives (accepted signing (ch, ms)) (gather (accepted signing) posts)
          (subst (λ r. All Arrives (entry_of signing (ch, ms) r)) (sym p)
            (entry-Arrives ch ms m p mine.0, tt))
          (All-Arrives posts a rest)
    All-Arrives ((ch, ms) ∷ posts) ((false, m, p), a) new =
        let (first, rest) =
          All-split IsNew (accepted signing (ch, ms)) (gather (accepted signing) posts) new in
        All-append Arrives (accepted signing (ch, ms)) (gather (accepted signing) posts)
          (subst (λ r. All Arrives (entry_of signing (ch, ms) r)) (sym p) tt)
          (All-Arrives posts a rest)

    fates :
        (os : List Outgoing)
        → All Arrives os
        → map (fate snk) (map carry os) ≡ map (λ o. handled (carry o)) os
    fates [] a = refl
    fates (o ∷ os) (here, a) = ap₂ ◌∷◌ here (fates os a)

    -- A writer with `Sign` and a sink with `Validate`, on a key file and a certificate file that match, and a
    -- broker that hands messages on with their headers, id and body. Whatever is published before the server
    -- has connected, while no middleware panics, no two of the messages have the same map of headers, and no
    -- message has the header of a dead letter: once the connection is there, as many rounds as there are
    -- accepted messages, in each of which the broker takes one message, empty the queue, and the loop has
    -- handed the broker the messages that the middleware accepted, in their order, each as the middleware
    -- left it, also where it has written into the map of the message. When these come to the sink, its
    -- handler gets every one of them, as it was handed over, in the same order, and the loop waits for the
    -- next.
    pub published_are_handled :
        (calls : List Call) (maps : Maps)
        → All (Answers signing) (map (read maps) calls)
        → AreApart calls
        → All IsNew (gather (accepted signing) (map (read maps) calls))
        → let out = gather (accepted signing) (map (read maps) calls) in
          (st : State) × (p : Publisher) × (publish_all signing calls maps zero_queue ≡ some st)
          × (run signing
                (connects none ∷ rounds (length out))
                (record fresh { stream = as_seen st })
              ≡ some p)
          × (contents p.stream ≡ [])
          × (sent p.log ≡ out)
          × (gather settled_by (consume snk (taken (map carry (sent p.log)))).0
              ≡ map (λ o. handled (carry o)) out)
          × ((consume snk (taken (map carry (sent p.log)))).1 ≡ waiting)
    published_are_handled calls maps a apart new =
        let out = gather (accepted signing) (map (read maps) calls) in
        let (st, ran, valid, queued) =
          publish_all_lem signing calls maps zero_queue a apart tt refl in
        let (p, drained, stands) =
          connects_drains signing none out [] (record fresh { stream = as_seen st })
            (record { where_at = refl; valid = valid; queued = queued; taken = refl }) in
        let (each, end) = consume_settles_each snk (map carry (sent p.log)) in
        (
          st,
          p,
          ran,
          drained,
          stands.queued,
          stands.taken,
          each
              ∙ ap (λ os. map (fate snk) (map carry os)) stands.taken
              ∙ fates out (All-Arrives (map (read maps) calls) a new),
          end,
        )
