-- ===== src/Exec/Replies.antt =====
-- What the replies of amqp-exec are, and where they go.
use fluent_amqp.Base.{
  ℕ, String, ◌≡◌, ◌≢◌, refl, sym, ap, ◌∙◌, Bool, true, false, not, ◌&&◌, List, [], ◌∷◌, ◌++◌,
  append_assoc, append-nil, Option, none, some, ◌==◌, if◌then◌else◌, arith, All, gather, eq_iff,
  Bool-cases, subst, ap₂, All-append, gather-append, inl, inr,
}
use fluent_amqp.Amqp.{Error, Value, text, Delivery}
use fluent_amqp.Queue.{MessageQueue}
use fluent_amqp.Queue.Refine.{IsValid, contents}
use fluent_amqp.Writer.{WriterConfig, Outgoing, Message, prepare, reply_to_delivery, bytes, header}
use fluent_amqp.Writer.Publish.{arrives, publish_wait, process_message}
use fluent_amqp.Writer.Sending.{entry, publish_accepted}
use fluent_amqp.Exec.{
  Handler, Attempt, is_empty, add_headers, add_env, decorate, outgoing, send, send_lines,
}

-- The fields that headers leave alone.
abbrev pub Same : Message → Message → Type 0
Same a b =
    (a.key ≡ b.key)
    × (a.exchange ≡ b.exchange)
    × (a.msg.body ≡ b.msg.body)
    × (a.msg.correlation_id ≡ b.msg.correlation_id)
    × (a.msg.delivery_mode ≡ b.msg.delivery_mode)

Same-trans : (a b c : Message) → Same a b → Same b c → Same a c
Same-trans x y z (k, e, b, c, d) (k', e', b', c', d') = (k ∙ k', e ∙ e', b ∙ b', c ∙ c', d ∙ d')

copied-Same :
    (absent : Bool) (v : Value) (name : String) (ms : Message)
    → Same (if absent then ms else header name v ms) ms
unfolding header
copied-Same true v name ms = (refl, refl, refl, refl, refl)
copied-Same false v name ms = (refl, refl, refl, refl, refl)

module _ (env : String → String) (string_of : List ℕ → String) where
  add_headers-Same : (hs : List (String × String)) (ms : Message) → Same (add_headers hs ms) ms
  unfolding add_headers header
  add_headers-Same [] ms = (refl, refl, refl, refl, refl)
  add_headers-Same ((k, v) ∷ hs) ms = add_headers-Same hs (header k (text v) ms)

  add_env-Same : (names : List String) (ms : Message) → Same (add_env env string_of names ms) ms
  unfolding add_env header
  add_env-Same [] ms = (refl, refl, refl, refl, refl)
  add_env-Same (n ∷ ns) ms = add_env-Same ns (header n (text (env n)) ms)

  decorate-Same :
      (h : Handler) (msg : Delivery) (ms : Message) → Same (decorate env string_of h msg ms) ms
  unfolding decorate header
  decorate-Same h msg ms =
      let copied =
        if h.copy_text == "" then ms else header h.copy_text (text (string_of msg.body)) ms in
      let with_headers = add_headers h.headers copied in
      Same-trans (decorate env string_of h msg ms) with_headers ms
        (add_env-Same h.export_env with_headers)
        (Same-trans with_headers copied ms (add_headers-Same h.headers copied)
          (copied-Same (h.copy_text == "") (text (string_of msg.body)) h.copy_text ms))

  -- the message of an attempt that answers to a queue
  abbrev answer : Handler → WriterConfig → Delivery → Attempt → Message
  answer h wc msg a =
      decorate env string_of h msg (bytes a.data_sent (reply_to_delivery wc a.now msg))

  answer_fields :
      (h : Handler) (wc : WriterConfig) (msg : Delivery) (a : Attempt)
      → let ms = answer h wc msg a in
        (ms.key ≡ msg.reply_to)
        × (ms.exchange ≡ "")
        × (ms.msg.body ≡ a.data_sent)
        × (ms.msg.correlation_id ≡ msg.correlation_id)
  unfolding bytes reply_to_delivery prepare
  answer_fields h wc msg a =
      let (k, e, b, c, d) =
        decorate-Same h msg (bytes a.data_sent (reply_to_delivery wc a.now msg)) in
      (k, e, b, c)

-- The data is not sent at all.
abbrev pub is_skipped : Handler → Attempt → Bool
is_skipped h a = is_empty a.data_sent && not h.empty_publish

-- The bodies to send: those of all lines, but for empty ones where these are not to be published.
abbrev pub bodies : Handler → Attempt → List (List ℕ)
bodies h a = if is_skipped h a then [] else a.data_sent ∷ []

-- An entry of the queue that answers to the message.
abbrev pub IsAnswer : Delivery → Outgoing → Type 0
IsAnswer msg o =
    (o.key ≡ msg.reply_to) × (o.exchange ≡ "") × (o.msg.correlation_id ≡ msg.correlation_id)

-- The queue has got the answers `out`, and nothing else has changed in it.
abbrev pub Answered :
    Delivery
    → MessageQueue Outgoing
    → List (List ℕ)
    → Option (Option Error × MessageQueue Outgoing)
    → Type 0
Answered msg q data_sent r =
    (q' : MessageQueue Outgoing) × (out : List Outgoing) × (r ≡ some (none, q'))
    × IsValid q'
    × (contents q' ≡ contents q ++ out)
    × All (IsAnswer msg) out
    × (gather (λ o. o.msg.body ∷ []) out ≡ data_sent)

publish_wait_arrives :
    (wc : WriterConfig) (ch : ℕ) (ms : Message) (q : MessageQueue Outgoing)
    → wc.middleware ≡ []
    → IsValid q
    → (q' : MessageQueue Outgoing) × (publish_wait wc ch ms (arrives tt) q ≡ some (none, q'))
      × IsValid q'
      × (contents q' ≡ contents q ++ entry ms ch ms.msg ∷ [])
unfolding publish_wait process_message
publish_wait_arrives wc ch ms q plain v =
    let (q', ran, valid, same) =
      publish_accepted wc ch ms q ms.msg (ap (λ hs. process_message hs ms.msg) plain) v in
    (q', rw (ran, publish_wait) refl, valid, same)

eq_differs : (a b : String) → a ≢ b → (a == b) ≡ false
eq_differs a b h = ground (arith, eq_iff a b)

module _ (env : String → String) (string_of : List ℕ → String) (h : Handler) (wc : WriterConfig)
    (msg : Delivery) (plain : wc.middleware ≡ []) (to_queue : msg.reply_to ≢ "") where
  outgoing_skipped :
      (a : Attempt) → is_skipped h a ≡ true → outgoing env string_of h wc msg a ≡ none
  unfolding outgoing
  outgoing_skipped a e = rw e refl

  outgoing_kept :
      (a : Attempt)
      → is_skipped h a ≡ false
      → outgoing env string_of h wc msg a ≡ some (answer env string_of h wc msg a)
  unfolding outgoing
  outgoing_kept a e = rw (e, eq_differs msg.reply_to "" to_queue) refl

  -- the queue after an attempt that is not skipped
  kept-Answered :
      (a : Attempt) (q : MessageQueue Outgoing)
      → IsValid q
      → Answered msg q
          (a.data_sent ∷ [])
          (publish_wait wc a.channel (answer env string_of h wc msg a) (arrives tt) q)
  kept-Answered a q v =
      let ms = answer env string_of h wc msg a in
      let (q', ran, valid, same) = publish_wait_arrives wc a.channel ms q plain v in
      let (k, e, b, c) = answer_fields env string_of h wc msg a in
      (q', entry ms a.channel ms.msg ∷ [], ran, valid, same, ((k, e, c), tt), ap (λ d. d ∷ []) b)

  send_skipped :
      (a : Attempt) (q : MessageQueue Outgoing)
      → is_skipped h a ≡ true
      → send env string_of h wc msg a q ≡ some (none, q)
  unfolding send
  send_skipped a q e = ground (arith, outgoing_skipped a e)

  send_kept :
      (a : Attempt) (q : MessageQueue Outgoing)
      → is_skipped h a ≡ false
      → send env string_of h wc msg a q
        ≡ publish_wait wc a.channel (answer env string_of h wc msg a) a.wait q
  unfolding send
  send_kept a q e = ground (arith, outgoing_kept a e)

  bodies_of : Bool → Attempt → List (List ℕ)
  bodies_of skipped a = if skipped then [] else a.data_sent ∷ []

  send-Answered :
      (a : Attempt) (q : MessageQueue Outgoing)
      → a.wait ≡ arrives tt
      → IsValid q
      → Answered msg q (bodies h a) (send env string_of h wc msg a q)
  unfolding bodies_of
  send-Answered a q w v = elim (Bool-cases (is_skipped h a)) [
    | inl skipped ↦
        subst (λ r. Answered msg q (bodies h a) r) (sym (send_skipped a q skipped))
          (q, [], refl, v, sym (append-nil (contents q)), tt, sym (ap (λ b. bodies_of b a) skipped))
    | inr kept ↦
        subst (λ r. Answered msg q (bodies h a) r)
          (ap (λ x. publish_wait wc a.channel (answer env string_of h wc msg a) x q) (sym w)
            ∙ sym (send_kept a q kept))
          (subst
            (λ b.
              Answered msg q (bodies_of b a)
                (publish_wait wc a.channel (answer env string_of h wc msg a) (arrives tt) q))
            (sym kept) (kept-Answered a q v))
  ]

  send_then :
      (a : Attempt) (lines : List Attempt) (q q' : MessageQueue Outgoing)
      → send env string_of h wc msg a q ≡ some (none, q')
      → send_lines env string_of h wc msg (a ∷ lines) q ≡ send_lines env string_of h wc msg lines q'
  unfolding send_lines
  send_then a lines q q' e = ground (arith, e)

  -- For a message that names a queue for replies, a writer without middleware and publications that are
  -- not cut off: the attempts all succeed, and the queue gets one message for each line, in their order, but
  -- for empty lines where these are not to be published; each goes through the default exchange to the named
  -- queue with the correlation id of the message, whatever headers are added.
  pub send_lines_answers :
      (lines : List Attempt) (q : MessageQueue Outgoing)
      → All (λ a. a.wait ≡ arrives tt) lines
      → IsValid q
      → Answered msg q (gather (bodies h) lines) (send_lines env string_of h wc msg lines q)
  unfolding send_lines
  send_lines_answers [] q w v = (q, [], refl, v, sym (append-nil (contents q)), tt, refl)
  send_lines_answers (a ∷ lines) q (w, ws) v =
      let (q', out, ran, valid, same, answers, sent) = send-Answered a q w v in
      let (q'', out', ran', valid', same', answers', sent') =
        send_lines_answers lines q' ws valid in
      (
        q'',
        out ++ out',
        send_then a lines q q' ran ∙ ran',
        valid',
        same' ∙ ap (λ c. c ++ out') same ∙ append_assoc (contents q) out out',
        All-append (IsAnswer msg) out out' answers answers',
        gather-append (λ o. o.msg.body ∷ []) out out' ∙ ap₂ ◌++◌ sent sent',
      )
