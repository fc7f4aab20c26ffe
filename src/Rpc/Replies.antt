-- ===== src/Rpc/Replies.antt =====
-- Which reply a request gets.
use fluent_amqp.Base.{
  String, ◌≡◌, refl, sym, subst, ◌∙◌, ap, inl, inr, List, [], ◌∷◌, ◌++◌, eq_iff, eq_refl, gather,
  gather-append, arith, All, option_cases,
}
use fluent_amqp.Base.Int.{ℤ}
use fluent_amqp.Amqp.{Delivery, Publishing}
use fluent_amqp.Writer.{WriterConfig}
use fluent_amqp.Rpc.{
  waiting_for, delivered, closed, Rpc, Event, calls, arrives, on_message, raw, handle, run, new_rpc,
}
use fluent_amqp.Rpc.Channels.{
  waiting_for-register, waiting_for-forget, on_message-none, on_message-some, on_channel,
  first_reply, IsOther, IsMade, Waits,
}
use fluent_amqp.Rpc.Waiting.{raw-seen, gets_first_reply, other_channel}

module _ (wc : WriterConfig) (queue : String) where
  raw-IsMade :
      (j : String) (now : ℤ) (msg : Publishing) (rpc : Rpc)
      → IsMade rpc
      → IsMade (raw wc queue j now msg rpc)
  unfolding raw
  raw-IsMade j now msg rpc (made, new) = (
    λ i c e. ground (arith, waiting_for-register j i rpc.channels rpc.correlation, made i c),
    λ c l. raw-seen wc queue c j now msg rpc ∙ new c (omega arith),
  )

  on_message-IsMade : (msg : Delivery) (rpc : Rpc) → IsMade rpc → IsMade (on_message msg rpc)
  on_message-IsMade msg rpc (made, new) =
      elim (option_cases (waiting_for msg.correlation_id rpc.correlation)) [
        | inl e ↦ subst IsMade (sym (on_message-none msg rpc e)) (made, new)
        | inr (c, e) ↦ subst IsMade (sym (on_message-some msg rpc c e)) (
          λ i d f.
              made i d (ground (arith, waiting_for-forget msg.correlation_id i rpc.correlation)),
          λ d l.
              gather-append (on_channel d) rpc.log (delivered c msg ∷ closed c ∷ [])
              ∙ ap (λ es. es ++ gather (on_channel d) (delivered c msg ∷ closed c ∷ [])) (new d l)
              ∙ other_channel wc queue d msg c
                  (λ same. ground (arith, made msg.correlation_id c e)),
        )
      ]

  pub run-IsMade : (es : List Event) (rpc : Rpc) → IsMade rpc → IsMade (run wc queue es rpc)
  unfolding run
  run-IsMade [] rpc made = made
  run-IsMade (calls j now msg ∷ es) rpc made =
      run-IsMade es (raw wc queue j now msg rpc) (raw-IsMade j now msg rpc made)
  run-IsMade (arrives msg ∷ es) rpc made =
      run-IsMade es (on_message msg rpc) (on_message-IsMade msg rpc made)

  pub run-append :
      (xs ys : List Event) (rpc : Rpc)
      → run wc queue (xs ++ ys) rpc ≡ run wc queue ys (run wc queue xs rpc)
  unfolding run
  run-append [] ys rpc = refl
  run-append (x ∷ xs) ys rpc = run-append xs ys (handle wc queue x rpc)

  pub raw-starts :
      (id : String) (now : ℤ) (msg : Publishing) (rpc : Rpc)
      → IsMade rpc
      → Waits id rpc.channels (raw wc queue id now msg rpc)
  unfolding raw
  raw-starts id now msg rpc (made, new) = (
    ground
        (arith, waiting_for-register id id rpc.channels rpc.correlation, eq_iff id id, eq_refl id),
    λ j e. ground (
      arith,
      waiting_for-register id j rpc.channels rpc.correlation,
      eq_iff id j,
      made j rpc.channels,
    ),
    omega arith,
  )

  -- Whatever requests and deliveries came before: the channel of a request gets, if no later request has
  -- the same id, the first delivery after the request that has its id, and is then closed; and nothing
  -- else ever, so no other delivery reaches it and nothing is sent after the close.
  pub reply_is_first :
      (before after : List Event) (id : String) (now : ℤ) (msg : Publishing)
      → All (IsOther id) after
      → let ch = (run wc queue before new_rpc).channels in
        gather (on_channel ch) (run wc queue (before ++ calls id now msg ∷ after) new_rpc).log
        ≡ first_reply id ch after
  unfolding run waiting_for
  reply_is_first before after id now msg others =
      let rpc = run wc queue before new_rpc in
      let made = run-IsMade before new_rpc (λ j c e. absurd (ground arith), λ c l. refl) in
      ap (λ r. gather (on_channel rpc.channels) r.log)
        (run-append before (calls id now msg ∷ after) new_rpc)
      ∙ gets_first_reply wc queue rpc.channels id after (raw wc queue id now msg rpc) others
          (raw-starts id now msg rpc made)
      ∙ ap (λ l. l ++ first_reply id rpc.channels after)
          (raw-seen wc queue rpc.channels id now msg rpc ∙ made.1 rpc.channels (omega arith))
