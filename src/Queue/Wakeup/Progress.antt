-- ===== src/Queue/Wakeup/Progress.antt =====
-- A reader that waits while there are messages gets the first of them.
use fluent_amqp.Base.{◌-◌, ◌<◌, ◌≡◌, refl, ◌∙◌, inl, inr, Bool, true, false, List, ◌∷◌, some, arith}
use fluent_amqp.Queue.{MessageQueue, signal, front, receive}
use fluent_amqp.Queue.Wakeup.{
  looking, waiting, holding, System, start, Step, notify, hit, wake, Reach, Owed, stay, then,
  IsOwed,
}
use fluent_amqp.Queue.Wakeup.Invariant.{no_lost_wakeup}

module _ {ℓ} {A : Type ℓ} where
  -- The queue with the given token.
  abbrev with_token : List A → Bool → MessageQueue A
  with_token xs token = record { messages = some xs; notify = some token }

  woken :
      (s : System A) (a : A) (xs : List A)
      → s.reader ≡ waiting
      → s.queue ≡ with_token (a ∷ xs) true
      → (t : System A) × Owed s t × (t.reader ≡ holding a) × (t.pushed ≡ s.pushed)
  unfolding receive front
  woken s a xs r e = (t, then (then stay awake tt) found tt, refl, refl)
    where
      m : System A
      m = record s { queue = with_token (a ∷ xs) false; reader = looking }

      t : System A
      t = record m { reader = holding a }

      awake : Step s m
      awake = wake r (ground arith) refl

      found : Step m t
      found = hit a refl refl refl

  signalled :
      (s : System A) (a : A) (xs : List A) (token : Bool)
      → s.reader ≡ waiting
      → s.queue ≡ with_token (a ∷ xs) token
      → 0 < s.pending
      → (t : System A) × (st : Step s t) × IsOwed st
        × (t.reader ≡ waiting)
        × (t.queue ≡ with_token (a ∷ xs) true)
        × (t.pushed ≡ s.pushed)
  unfolding signal
  signalled s a xs token r e h =
      (t, notify (s.pending - 1) (omega arith) (ground arith) refl, tt, r, refl, refl)
    where
      t : System A
      t = record s { queue = with_token (a ∷ xs) true; pending = s.pending - 1 }

  Owed-cons : {s t u : System A} (st : Step s t) → IsOwed st → Owed t u → Owed s u
  Owed-cons st o stay = then stay st o
  Owed-cons st o (then r last l) = then (Owed-cons st o r) last l

  then_wake :
      {s : System A} (a : A) (xs : List A)
      → (t : System A) × (st : Step s t) × IsOwed st
        × (t.reader ≡ waiting)
        × (t.queue ≡ with_token (a ∷ xs) true)
        × (t.pushed ≡ s.pushed)
      → (t : System A) × Owed s t × (t.reader ≡ holding a) × (t.pushed ≡ s.pushed)
  then_wake a xs (t, st, o, w, q, p) =
      let (u, r, h, same) = woken t a xs w q in (u, Owed-cons st o r, h, same ∙ p)

  -- Wherever an interleaving leaves the reader waiting in `Peek` with a message in the queue, that same
  -- call of `Peek` returns the first message after steps of three kinds only: signals of calls of `Put`
  -- already made, the wake-up of the reader and its look at the queue. So it takes no new `Put`, no end of
  -- a context and no new `Peek`.
  pub peek_returns :
      (s : System A) (a : A) (xs : List A)
      → Reach start s
      → s.reader ≡ waiting
      → s.queue.messages ≡ some (a ∷ xs)
      → (t : System A) × Owed s t × (t.reader ≡ holding a) × (t.pushed ≡ s.pushed)
  peek_returns s a xs r w e =
      let (ys, token, shape, logs, awake, held) = no_lost_wakeup s r in
      let full : s.queue ≡ with_token (a ∷ xs) token = ground arith in
      elim (awake w (ground arith)) [
        | inl now ↦ woken s a xs w (ground arith)
        | inr soon ↦ then_wake a xs (signalled s a xs token w full soon)
      ]
