-- ===== src/Queue/Wakeup.antt =====
-- The message queue under its callers: any number of goroutines in `Put`, and the one reader that
-- `publisher.ChannelReady` is. A step is a locked part of an operation or one channel operation; the
-- steps of the callers may come in any order.
pub mod Invariant
pub mod Progress
use fluent_amqp.Base.{ℕ, suc, ◌≡◌, Bool, true, false, List, [], ◌∷◌, ◌++◌, Option, none, some}
use fluent_amqp.Queue.{MessageQueue, push_back, signal, front, receive, remove_front}

-- Where the reader stands: outside `Peek`, at the top of its loop, in its `select`, or with the
-- message that `Peek` returned.
pub data Reader {ℓ} (A : Type ℓ) : Type ℓ where
  idle looking waiting : Reader A
  holding : A → Reader A

-- `pending` counts the calls of `Put` that have pushed their message and not yet signalled. The two
-- logs record the messages pushed and the messages committed.
pub record System {ℓ} (A : Type ℓ) : Type ℓ where
  pub queue : MessageQueue A
  pub pending : ℕ
  pub reader : Reader A
  pub pushed : List A
  pub committed : List A

module _ {ℓ} {A : Type ℓ} where
  -- The queue once `initOnce` has run, with nobody in it.
  abbrev pub start : System A
  start = record {
    queue = record { messages = some []; notify = some false };
    pending = 0;
    reader = idle;
    pushed = [];
    committed = [];
  }

  pub data Step (s t : System A) : Type ℓ where
    push :
        (a : A)
        → push_back a s.queue ≡ some (tt, t.queue)
        → t ≡ record s { queue = t.queue; pending = suc s.pending; pushed = s.pushed ++ a ∷ [] }
        → Step s t
    notify :
        (n : ℕ)
        → s.pending ≡ suc n
        → signal s.queue ≡ some (tt, t.queue)
        → t ≡ record s { queue = t.queue; pending = n }
        → Step s t
    call : s.reader ≡ idle → t ≡ record s { reader = looking } → Step s t
    hit :
        (a : A)
        → s.reader ≡ looking
        → front s.queue ≡ some (some a, t.queue)
        → t ≡ record s { queue = t.queue; reader = holding a }
        → Step s t
    miss :
        s.reader ≡ looking
        → front s.queue ≡ some (none, t.queue)
        → t ≡ record s { queue = t.queue; reader = waiting }
        → Step s t
    wake :
        s.reader ≡ waiting
        → receive s.queue ≡ some (true, t.queue)
        → t ≡ record s { queue = t.queue; reader = looking }
        → Step s t
    cancel : s.reader ≡ waiting → t ≡ record s { reader = idle } → Step s t
    commit :
        (a : A)
        → s.reader ≡ holding a
        → remove_front s.queue ≡ some (tt, t.queue)
        → t ≡ record s { queue = t.queue; reader = idle; committed = s.committed ++ a ∷ [] }
        → Step s t
    abandon : (a : A) → s.reader ≡ holding a → t ≡ record s { reader = idle } → Step s t

  pub data Reach (s : System A) : System A → Type ℓ where
    here : Reach s s
    next : {t u : System A} → Reach s t → Step t u → Reach s u

  -- The steps that a `Put` already made and a `Peek` already called still have before them.
  abbrev pub IsOwed : {s t : System A} → Step s t → Type 0
  IsOwed (notify n e f g) = Unit
  IsOwed (wake e f g) = Unit
  IsOwed (hit a e f g) = Unit
  IsOwed _ = ⊥

  pub data Owed (s : System A) : System A → Type ℓ where
    stay : Owed s s
    then : {t u : System A} → Owed s t → (st : Step t u) → IsOwed st → Owed s u
