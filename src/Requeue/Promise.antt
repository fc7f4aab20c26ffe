-- ===== src/Requeue/Promise.antt =====
-- requeuer.go, the interface `Requeue`, as a sink relies on it.
use fluent_amqp.Base.{◌≡◌, ◌⊎◌, List, [], ◌∷◌, Option, none, some}
use fluent_amqp.Amqp.{Error, Publishing}

-- The messages that a call has given to the broker, with the broker's answers.
abbrev pub Told : Publishing → Option Error → List (Publishing × Option Error) → Type 0
Told p none log = log ≡ (p, none) ∷ []
Told p (some e) log = (log ≡ []) ⊎ ((a : Option Error) × (log ≡ (p, a) ∷ []))

-- `Requeue`. A call that has returned stands by the message that it was to publish, its result, and the
-- publications that were made for it.
pub record Requeuer : Type 1 where
  pub Call : Publishing → Type 0
  pub result : {p : Publishing} → Call p → Option Error
  pub publications : {p : Publishing} → Call p → List (Publishing × Option Error)
  pub promise : {p : Publishing} (call : Call p) → Told p (result call) (publications call)
