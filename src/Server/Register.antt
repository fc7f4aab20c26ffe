-- ===== src/Server/Register.antt =====
-- sink.go, HandlerFunc and the handler of TransactFunc in two goroutines: the first registers the sink and then
-- sets `snk.requeue`; the second reads it for each delivery, from the registration on.
mod Tests
use fluent_amqp.Base.{
  ◌≡◌, ◌≢◌, refl, sym, ap, ◌∙◌, ◌⊎◌, inl, inr, Bool, true, false, List, [], ◌∷◌, ◌++◌, Option, none,
  some, arith, All, All-append,
}
use fluent_amqp.Amqp.{Error, Delivery}
use fluent_amqp.Requeue.{ReQueueConfig, Ends}
use fluent_amqp.Sink.{SinkConfig, manual_ack}
use fluent_amqp.Sink.Transact.{Effect, nacked, transact}

-- How far `HandlerFunc` is: not called, after `broker.handle`, returned.
pub data Stage : Type 0 where
  uncalled registered returned : Stage

-- A delivery to the handler: whether `HandlerFunc` had returned, the result of `fn`, how the waits of a
-- requeue end, and what the handler did.
pub record Handled : Type 0 where
  pub after_return : Bool
  pub msg : Delivery
  pub result : Option Error
  pub ends : Ends
  pub effects : List Effect

-- The field `requeue` of the sink that both share, and the deliveries so far.
pub record System : Type 0 where
  pub stage : Stage
  pub requeue : Option ReQueueConfig
  pub log : List Handled

abbrev pub start : System
start = record { stage = uncalled; requeue = none; log = [] }

abbrev pub has_returned : Stage → Bool
has_returned returned = true
has_returned _ = false

module _ (cfg : SinkConfig) where
  -- The handler, while the field holds this.
  unfoldable pub handle_with : Option ReQueueConfig → Delivery → Option Error → Ends → List Effect
  unfolding manual_ack transact
  handle_with requeue msg result ends =
      transact (record (manual_ack cfg) { rq_config = requeue }) msg result ends

  pub data Step : System → System → Type 0 where
    register : (s : System) → s.stage ≡ uncalled → Step s (record s { stage = registered })
    set_requeue :
        (s : System)
        → s.stage ≡ registered
        → Step s (record s { stage = returned; requeue = cfg.rq_config })
    deliver :
        (s : System) (msg : Delivery) (result : Option Error) (ends : Ends)
        → s.stage ≢ uncalled
        → Step s (record s {
          log =
              s.log
              ++ record {
                after_return = has_returned s.stage;
                msg = msg;
                result = result;
                ends = ends;
                effects = handle_with s.requeue msg result ends;
              }
                ∷ [];
        })

  pub data Reach : System → Type 0 where
    here : Reach start
    next : {s t : System} → Reach s → Step s t → Reach t

  -- A delivery got the handler with the configured requeuer.
  abbrev pub IsConfigured : Handled → Type 0
  IsConfigured h = h.effects ≡ handle_with cfg.rq_config h.msg h.result h.ends

  abbrev pub IsFair : Handled → Type 0
  IsFair h = (h.after_return ≡ false) ⊎ IsConfigured h

  record Sound (s : System) : Type 0 where
    set : (s.stage ≢ returned) ⊎ (s.requeue ≡ cfg.rq_config)
    fair : All IsFair s.log

  Step-Sound : {s t : System} → Step s t → Sound s → Sound t
  Step-Sound (register s e) h = record { set = inl (λ same. cc); fair = h.fair }
  Step-Sound (set_requeue s e) h = record { set = inr refl; fair = h.fair }
  Step-Sound (deliver s msg result ends called) h =
      let now : Handled = record {
        after_return = has_returned s.stage;
        msg = msg;
        result = result;
        ends = ends;
        effects = handle_with s.requeue msg result ends;
      } in
      record {
        set = h.set;
        fair = All-append IsFair s.log (now ∷ []) h.fair (
          elim h.set [
            | inl early ↦ inl (ground (arith, early))
            | inr same ↦ inr (ap (λ rq. handle_with rq msg result ends) same)
          ],
          tt,
        );
      }

  Reach-Sound : {s : System} → Reach s → Sound s
  Reach-Sound here = record { set = inl (λ e. cc); fair = tt }
  Reach-Sound (next r st) = Step-Sound st (Reach-Sound r)

  -- The log of one failed message that was given back before `HandlerFunc` returned.
  abbrev pub given_back : Delivery → Error → Ends → List Handled
  given_back msg err ends =
      record {
        after_return = false;
        msg = msg;
        result = some err;
        ends = ends;
        effects = nacked ∷ [];
      }
      ∷ []

  -- After any interleaving of `HandlerFunc` with the deliveries that its registration brings: each delivery
  -- since its return got the handler with the requeuer of the configuration. But there is an interleaving in
  -- which a message that fails before the return is given back without a copy, whatever requeuer is
  -- configured.
  pub requeuer_comes_late :
      (s : System) (msg : Delivery) (err : Error) (ends : Ends)
      → Reach s
      → All IsFair s.log
        × ((t : System) × Reach t
            × (t.stage ≡ returned)
            × (t.requeue ≡ cfg.rq_config)
            × (t.log ≡ given_back msg err ends))
  unfolding handle_with
  requeuer_comes_late s msg err ends r =
      let registering : System = record start { stage = registered } in
      let early : System = record registering { log = given_back msg err ends } in
      (
        (Reach-Sound r).fair,
        (
          record early { stage = returned; requeue = cfg.rq_config },
          next
              (next (next here (register start refl))
                (deliver registering msg (some err) ends (λ e. cc)))
              (set_requeue early refl),
          refl,
          refl,
          refl,
        ),
      )
