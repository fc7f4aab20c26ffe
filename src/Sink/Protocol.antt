-- ===== src/Sink/Protocol.antt =====
-- sink.go against AMQP's rule for acknowledgements: on one channel each delivery has a tag of its own, and
-- `Ack` or `Nack` of a tag that is not outstanding is an error, on which the broker closes the channel. A
-- delivery of a stream with automatic acknowledgement is never outstanding.
use fluent_amqp.Base.{
  ℕ, suc, eqb, append-nil, ◌≡◌, refl, ◌∙◌, ap, ◌↔◌, ◌⊎◌, inl, inr, if◌then◌else◌, Bool, true, false,
  List, [], ◌∷◌, ◌++◌, map, All, Option, none, some, arith, gather, gather-append,
}
use fluent_amqp.Amqp.{Error, Delivery}
use fluent_amqp.Requeue.{Ends}
use fluent_amqp.Sink.{SinkConfig, manual_ack}
use fluent_amqp.Sink.Consume.{
  Effect, check_retries, asked_too_much, asked_expired, dropped, handled, waiting, deliver, consume,
}
use fluent_amqp.Sink.Consume.Chain.{
  IsAccepted, settled_by, taken, fate, consume_settles_each, deliver-fate, deliver_cases,
  asks_settle_nothing,
}
use fluent_amqp.Sink.Transact
use fluent_amqp.Sink.Transact.{transact, settlement, acked, nacked, transact_settles_once}

-- What passes on the channel: a delivery, or an `Ack` or `Nack`, each with its tag.
pub data Entry : Type 0 where
  delivered settled : ℕ → Entry

-- `none`: the tag is not outstanding.
unfoldable pub settle : ℕ → List ℕ → Option (List ℕ)
settle tag [] = none
settle tag (t ∷ tags) =
    if eqb tag t
    then some tags
    else elim (settle tag tags) [ none ↦ none | some left ↦ some (t ∷ left) ]

-- The outstanding tags after these entries; `none`: the broker has closed the channel.
unfoldable pub track : Bool → List ℕ → List Entry → Option (List ℕ)
unfolding settle
track auto tags [] = some tags
track auto tags (delivered tag ∷ entries) = track auto (if auto then tags else tag ∷ tags) entries
track auto tags (settled tag ∷ entries) = elim (settle tag tags) [
  | none ↦ none
  | some left ↦ track auto left entries
]

-- A sink whose handler settles a delivery as `on_handled` says.
module _ (cfg : SinkConfig) (on_handled : Delivery → List Transact.Effect) where
  -- The calls of `Ack` and `Nack` that are made for a delivery with this tag.
  abbrev pub calls_of : ℕ → Effect → List Entry
  calls_of tag dropped = settled tag ∷ []
  calls_of tag (handled out) = map (λ e. settled tag) (gather settlement (on_handled out))
  calls_of tag _ = []

  -- What passes on the channel, with the deliveries numbered from `tag`, while no `Nack` fails.
  unfoldable pub traffic : ℕ → List Delivery → List Entry
  traffic tag [] = []
  traffic tag (msg ∷ msgs) =
      delivered tag ∷ (gather (calls_of tag) (deliver cfg none msg).0 ++ traffic (suc tag) msgs)

  calls_of-settled :
      (tag : ℕ) (effects : List Effect)
      → gather (calls_of tag) effects ≡ gather (calls_of tag) (gather settled_by effects)
  calls_of-settled tag [] = refl
  calls_of-settled tag (asked_too_much n ∷ effects) = calls_of-settled tag effects
  calls_of-settled tag (asked_expired n ∷ effects) = calls_of-settled tag effects
  calls_of-settled tag (dropped ∷ effects) =
      ap (λ es. settled tag ∷ es) (calls_of-settled tag effects)
  calls_of-settled tag (handled out ∷ effects) =
      ap (λ es. calls_of tag (handled out) ++ es) (calls_of-settled tag effects)

  -- A delivery costs the calls of its fate.
  calls_of-fate :
      (tag : ℕ) (msg : Delivery)
      → gather (calls_of tag) (deliver cfg none msg).0 ≡ calls_of tag (fate cfg msg)
  calls_of-fate tag msg =
      calls_of-settled tag (deliver cfg none msg).0
      ∙ ap (gather (calls_of tag)) (deliver-fate cfg msg).0
      ∙ append-nil (calls_of tag (fate cfg msg))

track-pair :
    (tag : ℕ) (entries : List Entry)
    → track false [] (delivered tag ∷ settled tag ∷ entries) ≡ track false [] entries
unfolding track settle
track-pair tag entries = ground arith

fate-cases :
    (cfg : SinkConfig) (msg : Delivery)
    → ((out : Delivery) × (fate cfg msg ≡ handled out) × IsAccepted cfg msg out)
      ⊎ ((fate cfg msg ≡ dropped) × ((out : Delivery) → ¬ IsAccepted cfg msg out))
fate-cases cfg msg =
    let asked = (check_retries cfg msg).1 in
    let once : (e : Effect) → gather settled_by (asked ++ e ∷ []) ≡ gather settled_by (e ∷ []) =
      λ e.
        gather-append settled_by asked (e ∷ [])
        ∙ ap (λ es. es ++ gather settled_by (e ∷ [])) (asks_settle_nothing cfg msg) in
    let mine = (deliver-fate cfg msg).0 in
    elim (deliver_cases cfg none msg) [
      | inl (out, ok, e) ↦
          inl (out, ground (arith, mine, once (handled out), ap (λ r. gather settled_by r.0) e), ok)
      | inr (stops, e) ↦
          inr (ground (arith, mine, once dropped, ap (λ r. gather settled_by r.0) e), stops)
    ]

-- The handler of `TransactFunc`: its `fn` returns an error or none, and a requeue ends in some way.
abbrev pub in_transaction :
    SinkConfig → (Delivery → Option Error) → (Delivery → Ends) → Delivery → List Transact.Effect
in_transaction cfg fn ends msg = transact cfg msg (fn msg) (ends msg)

module _ (cfg : SinkConfig) (fn : Delivery → Option Error) (ends : Delivery → Ends) where
  once :
      (tag : ℕ) (msg : Delivery)
      → calls_of cfg (in_transaction cfg fn ends) tag (fate cfg msg) ≡ settled tag ∷ []
  once tag msg = elim (fate-cases cfg msg) [
    | inl (out, e, ok) ↦ elim (transact_settles_once cfg out (fn out) (ends out)) [
      | inl (h, s) ↦ rw e (ap (map (λ x. settled tag)) s)
      | inr (h, k, s) ↦ rw e (ap (map (λ x. settled tag)) s)
    ]
    | inr (e, stops) ↦ rw e refl
  ]

  settled_each :
      (tag : ℕ) (msgs : List Delivery)
      → track false [] (traffic cfg (in_transaction cfg fn ends) tag msgs) ≡ some []
  unfolding track traffic
  settled_each tag [] = refl
  settled_each tag (msg ∷ msgs) =
      let now = calls_of-fate cfg (in_transaction cfg fn ends) tag msg ∙ once tag msg in
      ap
        (λ es.
          track false []
            (delivered tag ∷ (es ++ traffic cfg (in_transaction cfg fn ends) (suc tag) msgs)))
        now
      ∙ track-pair tag (traffic cfg (in_transaction cfg fn ends) (suc tag) msgs)
      ∙ settled_each (suc tag) msgs

-- Whatever messages come to a sink that `TransactFunc` has configured, whatever its handler returns and
-- however its requeues end: while no `Nack` fails, the loop handles or drops each message once, in their
-- order, and waits for the next; each `Ack` and `Nack` is for a tag that is outstanding, and when the
-- messages have passed no tag is left outstanding.
pub transactions_keep_rule :
    (cfg : SinkConfig) (fn : Delivery → Option Error) (ends : Delivery → Ends) (tag : ℕ)
    (msgs : List Delivery)
    → let snk = manual_ack cfg in
      (gather settled_by (consume snk (taken msgs)).0 ≡ map (fate snk) msgs)
      × ((consume snk (taken msgs)).1 ≡ waiting)
      × (track snk.auto_ack [] (traffic snk (in_transaction snk fn ends) tag msgs) ≡ some [])
unfolding manual_ack
transactions_keep_rule cfg fn ends tag msgs =
    let snk = manual_ack cfg in
    let (each, end) = consume_settles_each snk msgs in
    (each, end, settled_each snk fn ends tag msgs)

-- The same while the broker acknowledges by itself.
settled_never :
    (cfg : SinkConfig) (tag : ℕ) (msgs : List Delivery)
    → (track true [] (traffic cfg (λ msg. []) tag msgs) ≡ some [])
      ↔ All (λ msg. (out : Delivery) × IsAccepted cfg msg out) msgs
unfolding track traffic settle
settled_never cfg tag [] = (λ e. tt, λ a. refl)
settled_never cfg tag (msg ∷ msgs) =
    let now = calls_of-fate cfg (λ d. []) tag msg in
    let (sound, complete) = settled_never cfg (suc tag) msgs in
    elim (fate-cases cfg msg) [
      | inl (out, e, ok) ↦
          (λ h. ((out, ok), sound (rw (now, e) at h)), λ (a, others). rw (now, e) (complete others))
      | inr (e, stops) ↦
          (λ h. absurd (ground (arith, now, e)), λ ((out, ok), others). absurd (stops out ok))
    ]

-- A sink with automatic acknowledgements, whose handler calls neither `Ack` nor `Nack`, while no `Nack`
-- fails: each `Ack` and `Nack` of the loop is for an outstanding tag exactly if every message is accepted. So
-- the `Nack` with which it drops a message is for a tag that is not outstanding.
pub auto_ack_keeps_rule_iff :
    (cfg : SinkConfig) (tag : ℕ) (msgs : List Delivery)
    → cfg.auto_ack ≡ true
    → (track cfg.auto_ack [] (traffic cfg (λ msg. []) tag msgs) ≡ some [])
      ↔ All (λ msg. (out : Delivery) × IsAccepted cfg msg out) msgs
auto_ack_keeps_rule_iff cfg tag msgs auto = simp auto (settled_never cfg tag msgs)
