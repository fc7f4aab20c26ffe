-- ===== src/Signals.antt =====
-- utils.go, SignalContext: the goroutine that waits for a signal, and Go's delivery of signals to a channel.
use fluent_amqp.Base.{
  ℕ, zero, suc, ◌≤◌, ◌≡◌, refl, sym, subst, Bool, true, false, List, [], ◌∷◌, ltb, if◌then◌else◌,
  All, arith,
}

-- Whether `signal.Notify` was called, the signals in the channel, whether the goroutine has ended, whether the
-- context is done, and whether an interrupt has killed the process, as it does without `Notify`.
pub record Signals : Type 0 where
  pub notified : Bool
  pub buffered : ℕ
  pub ended : Bool
  pub done : Bool
  pub killed : Bool

-- `SignalContext` has returned, for a parent that is not done
abbrev pub signal_context : Signals
signal_context = record {
  notified = false;
  buffered = 0;
  ended = false;
  done = false;
  killed = false;
}

-- The steps of the goroutine, an interrupt, and the end of the parent.
pub data Event : Type 0 where
  notifies takes interrupts parent_ends : Event

-- The channel holds two signals; a send to a full one is dropped.
abbrev received : ℕ → ℕ
received buffered = if ltb buffered 2 then suc buffered else buffered

-- `for range c`, which its body leaves
take : ℕ → Signals → Signals
take zero s = s
take (suc n) s = if s.ended then s else record s { buffered = n; ended = true; done = true }

step : Event → Signals → Signals
unfolding take
step notifies s = record s { notified = true }
step takes s = take s.buffered s
step interrupts s =
    if s.notified then record s { buffered = received s.buffered } else record s { killed = true }
step parent_ends s = record s { done = true }

pub run : List Event → Signals → Signals
unfolding step
run [] s = s
run (e ∷ es) s = let later = run es (step e s) in if s.killed then s else later

record Listens (s : Signals) : Type 0 where
  notified : s.notified ≡ true
  killed : s.killed ≡ false
  buffered : s.buffered ≤ 2

take-Listens : (n : ℕ) (s : Signals) → n ≤ 2 → Listens s → Listens (take n s)
unfolding take
take-Listens zero s l h = h
take-Listens (suc n) s l h = ground (arith, h.notified, h.killed, h.buffered)

step-Listens : (e : Event) (s : Signals) → Listens s → Listens (step e s)
unfolding step
step-Listens notifies s h = ground (arith, h.notified, h.killed, h.buffered)
step-Listens takes s h = take-Listens s.buffered s h.buffered h
step-Listens interrupts s h = ground (arith, h.notified, h.killed, h.buffered)
step-Listens parent_ends s h = ground (arith, h.notified, h.killed, h.buffered)

-- Once the goroutine has called `Notify`, no interrupt kills the process, also after it has ended, and at most
-- two lie in the channel.
run-Listens : (es : List Event) (s : Signals) → Listens s → Listens (run es s)
unfolding run
run-Listens [] s h = h
run-Listens (e ∷ es) s h =
    subst (λ b. Listens (if b then s else run es (step e s))) (sym h.killed)
      (run-Listens es (step e s) (step-Listens e s h))

abbrev IsQuiet : Event → Type 0
IsQuiet interrupts = ⊥
IsQuiet parent_ends = ⊥
IsQuiet _ = Unit

-- Without an interrupt and the end of the parent the context is not done.
run-quiet :
    (es : List Event) (s : Signals) → All IsQuiet es → s.buffered ≡ 0 → (run es s).done ≡ s.done
unfolding run step take
run-quiet [] s q e = refl
run-quiet (notifies ∷ es) s (h, q) e =
    ground (arith, run-quiet es (record s { notified = true }) q e)
run-quiet (takes ∷ es) s (h, q) e = ground (arith, run-quiet es s q e)
run-quiet (interrupts ∷ es) s (h, q) e = absurd h
run-quiet (parent_ends ∷ es) s (h, q) e = absurd h
