-- ===== src/Rpc/Waiting.antt =====
-- What happens to one reply channel: while it waits, and after its reply.
use fluent_amqp.Base.{
  ℕ, String, ◌≡◌, ◌≢◌, refl, sym, subst, ◌∙◌, ap, inl, inr, List, [], ◌∷◌, ◌++◌, some, ◌==◌,
  if◌then◌else◌, eq_iff, gather, gather-append, append-nil, arith, All, option_cases, Bool-cases,
}
use fluent_amqp.Base.Int.{ℤ}
use fluent_amqp.Amqp.{Delivery, Publishing}
use fluent_amqp.Writer.{WriterConfig}
use fluent_amqp.Rpc.{
  waiting_for, Effect, sent, delivered, closed, Rpc, Event, calls, arrives, on_message, raw, run,
  request,
}
use fluent_amqp.Rpc.Channels.{
  waiting_for-register, waiting_for-forget, on_message-none, on_message-some, on_channel,
  first_reply, IsOther, Waits, IsOver, handed,
}

module _ (wc : WriterConfig) (queue : String) (ch : ℕ) where
  abbrev pub seen : Rpc → List Effect
  seen rpc = gather (on_channel ch) rpc.log

  pub raw-seen :
      (j : String) (now : ℤ) (msg : Publishing) (rpc : Rpc)
      → seen (raw wc queue j now msg rpc) ≡ seen rpc
  unfolding raw
  raw-seen j now msg rpc =
      gather-append (on_channel ch) rpc.log (sent (request wc queue j now msg) ∷ [])
      ∙ append-nil (seen rpc)

  pub other_channel :
      (msg : Delivery) (c : ℕ)
      → c ≢ ch
      → gather (on_channel ch) (delivered c msg ∷ closed c ∷ []) ≡ []
  other_channel msg c h = ground arith

  this_channel :
      (msg : Delivery)
      → gather (on_channel ch) (delivered ch msg ∷ closed ch ∷ [])
        ≡ delivered ch msg ∷ closed ch ∷ []
  this_channel msg = ground arith

  -- a delivery for another channel, or for none
  on_message-seen :
      (msg : Delivery) (rpc : Rpc)
      → waiting_for msg.correlation_id rpc.correlation ≢ some ch
      → seen (on_message msg rpc) ≡ seen rpc
  on_message-seen msg rpc h = elim (option_cases (waiting_for msg.correlation_id rpc.correlation)) [
    | inl e ↦ ap seen (on_message-none msg rpc e)
    | inr (c, e) ↦
        ap seen (on_message-some msg rpc c e)
        ∙ gather-append (on_channel ch) rpc.log (delivered c msg ∷ closed c ∷ [])
        ∙ ap (λ l. seen rpc ++ l) (other_channel msg c (λ same. h (e ∙ ap some same)))
        ∙ append-nil (seen rpc)
  ]

  pub raw-IsOver :
      (j : String) (now : ℤ) (msg : Publishing) (rpc : Rpc)
      → IsOver ch rpc
      → IsOver ch (raw wc queue j now msg rpc)
  unfolding raw
  raw-IsOver j now msg rpc (h, l) = (
    λ i e. h i (ground (arith, waiting_for-register j i rpc.channels rpc.correlation)),
    omega arith,
  )

  pub on_message-IsOver :
      (msg : Delivery) (rpc : Rpc) → IsOver ch rpc → IsOver ch (on_message msg rpc)
  on_message-IsOver msg rpc (h, l) =
      elim (option_cases (waiting_for msg.correlation_id rpc.correlation)) [
        | inl e ↦ subst (IsOver ch) (sym (on_message-none msg rpc e)) (h, l)
        | inr (c, e) ↦ subst (IsOver ch) (sym (on_message-some msg rpc c e)) (
          λ j w. h j (ground (arith, waiting_for-forget msg.correlation_id j rpc.correlation)),
          l,
        )
      ]

  over_stays : (es : List Event) (rpc : Rpc) → IsOver ch rpc → seen (run wc queue es rpc) ≡ seen rpc
  unfolding run
  over_stays [] rpc over = refl
  over_stays (calls j now msg ∷ es) rpc over =
      over_stays es (raw wc queue j now msg rpc) (raw-IsOver j now msg rpc over)
      ∙ raw-seen j now msg rpc
  over_stays (arrives msg ∷ es) rpc over =
      over_stays es (on_message msg rpc) (on_message-IsOver msg rpc over)
      ∙ on_message-seen msg rpc (over.0 msg.correlation_id)

  pub raw-Waits :
      (id j : String) (now : ℤ) (msg : Publishing) (rpc : Rpc)
      → j ≢ id
      → Waits id ch rpc
      → Waits id ch (raw wc queue j now msg rpc)
  unfolding raw
  raw-Waits id j now msg rpc other (w, only, l) = (
    ground (arith, waiting_for-register j id rpc.channels rpc.correlation, eq_iff j id),
    λ i e. only i (ground (arith, waiting_for-register j i rpc.channels rpc.correlation)),
    omega arith,
  )

  -- a delivery with another id
  pub on_message-Waits :
      (id : String) (msg : Delivery) (rpc : Rpc)
      → msg.correlation_id ≢ id
      → Waits id ch rpc
      → Waits id ch (on_message msg rpc)
  on_message-Waits id msg rpc other (w, only, l) =
      elim (option_cases (waiting_for msg.correlation_id rpc.correlation)) [
        | inl e ↦ subst (Waits id ch) (sym (on_message-none msg rpc e)) (w, only, l)
        | inr (c, e) ↦ subst (Waits id ch) (sym (on_message-some msg rpc c e)) (
          ground (
            arith,
            waiting_for-forget msg.correlation_id id rpc.correlation,
            eq_iff msg.correlation_id id,
          ),
          λ j v. only j (ground (arith, waiting_for-forget msg.correlation_id j rpc.correlation)),
          l,
        )
      ]

  -- the delivery with this id
  pub handed-IsOver :
      (msg : Delivery) (rpc : Rpc) → Waits msg.correlation_id ch rpc → IsOver ch (handed msg ch rpc)
  handed-IsOver msg rpc (w, only, l) = (
    λ j v. ground (
      arith,
      only j (ground (arith, waiting_for-forget msg.correlation_id j rpc.correlation)),
      waiting_for-forget msg.correlation_id j rpc.correlation,
      eq_iff msg.correlation_id j,
    ),
    l,
  )

  gets_reply :
      (msg : Delivery) (es : List Event) (rpc : Rpc)
      → Waits msg.correlation_id ch rpc
      → seen (run wc queue es (on_message msg rpc)) ≡ seen rpc ++ delivered ch msg ∷ closed ch ∷ []
  gets_reply msg es rpc w =
      let now = on_message-some msg rpc ch w.0 in
      over_stays es (on_message msg rpc) (subst (IsOver ch) (sym now) (handed-IsOver msg rpc w))
      ∙ ap seen now
      ∙ gather-append (on_channel ch) rpc.log (delivered ch msg ∷ closed ch ∷ [])
      ∙ ap (λ l. seen rpc ++ l) (this_channel msg)

  pub gets_first_reply :
      (id : String) (es : List Event) (rpc : Rpc)
      → All (IsOther id) es
      → Waits id ch rpc
      → seen (run wc queue es rpc) ≡ seen rpc ++ first_reply id ch es
  unfolding run
  gets_first_reply id [] rpc others w = sym (append-nil (seen rpc))
  gets_first_reply id (calls j now msg ∷ es) rpc (other, others) w =
      gets_first_reply id es (raw wc queue j now msg rpc) others
        (raw-Waits id j now msg rpc other w)
      ∙ ap (λ l. l ++ first_reply id ch es) (raw-seen j now msg rpc)
  gets_first_reply id (arrives msg ∷ es) rpc (other, others) w =
      elim (Bool-cases (msg.correlation_id == id)) [
        | inl same ↦
            let k = (eq_iff msg.correlation_id id).0 same in
            gets_reply msg es rpc (subst (λ i. Waits i ch rpc) (sym k) w)
            ∙ sym (
                ap
                  (λ b.
                    seen rpc
                    ++ (if b then delivered ch msg ∷ closed ch ∷ [] else first_reply id ch es))
                  same)
        | inr differs ↦
            let unlike : msg.correlation_id ≢ id = ground (arith, eq_iff msg.correlation_id id) in
            gets_first_reply id es (on_message msg rpc) others
              (on_message-Waits id msg rpc unlike w)
            ∙ ap (λ l. l ++ first_reply id ch es)
                (on_message-seen msg rpc (λ e. unlike (w.1 msg.correlation_id e)))
            ∙ sym (
                ap
                  (λ b.
                    seen rpc
                    ++ (if b then delivered ch msg ∷ closed ch ∷ [] else first_reply id ch es))
                  differs)
      ]
