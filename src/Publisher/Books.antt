-- ===== src/Publisher/Books.antt =====
-- The books of the publisher: what the log says of each message, and the invariant that ties the log to
-- the queue.
use fluent_amqp.Base.{
  ℕ, ◌≡◌, refl, sym, gather, gather-append, ◌∙◌, ap, List, [], ◌∷◌, ◌++◌, Option, none, some, head?,
  tail, append-nil,
}
use fluent_amqp.Amqp.{Error}
use fluent_amqp.Writer.{Outgoing}
use fluent_amqp.Queue.{MessageQueue}
use fluent_amqp.Queue.Refine.{IsValid, contents}
use fluent_amqp.Publisher.{
  Effect, published, tried, closed, publishing, Publisher, fresh, Event, puts, on_stream,
}

-- The messages that the events put, in order.
abbrev pub arrival : Event → List Outgoing
arrival (puts m) = m ∷ []
arrival _ = []

abbrev pub arrivals : List Event → List Outgoing
arrivals = gather arrival

-- A message is settled by a successful `ch.Publish`, and one with a `Try` channel by any.
abbrev pub settled_by : Effect → List Outgoing
settled_by (published m none) = m ∷ []
settled_by (published m (some err)) = elim m.try [ none ↦ [] | some ch ↦ m ∷ [] ]
settled_by _ = []

-- The messages settled, in the order of the calls of `ch.Publish`.
abbrev pub settled : List Effect → List Outgoing
settled = gather settled_by

-- The signals to those that wait for a message.
abbrev pub signal_of : Effect → List Effect
signal_of (tried ch err) = tried ch err ∷ []
signal_of (closed ch) = closed ch ∷ []
signal_of _ = []

-- The signals that an answer of the broker calls for: its result and the end of the `Try` channel, and
-- the end of the `Done` channel if the broker took the message.
abbrev pub try_due : Option ℕ → Option Error → List Effect
try_due none err = []
try_due (some ch) err = tried ch err ∷ closed ch ∷ []

abbrev pub done_due : Option ℕ → Option Error → List Effect
done_due (some ch) none = closed ch ∷ []
done_due _ _ = []

abbrev pub due : Effect → List Effect
due (published m err) = try_due m.try err ++ done_due m.done err
due _ = []

-- With `arrived` put so far: the queue is valid; those put are the settled ones and the queued ones;
-- the message at the broker is the first one; and the signals sent are those due.
pub record Inv (arrived : List Outgoing) (p : Publisher) : Type 0 where
  pub valid : IsValid p.stream
  pub books : arrived ≡ settled p.log ++ contents p.stream
  pub held : (m : Outgoing) → p.point ≡ publishing m → head? (contents p.stream) ≡ some m
  pub signals : gather signal_of p.log ≡ gather due p.log

pub fresh-Inv : Inv [] fresh
fresh-Inv = record { valid = tt; books = refl; held = λ m e. cc; signals = refl }

pub on_stream_lem {ℓ} :
    {B : Type ℓ} (op : MessageQueue Outgoing → Option (B × MessageQueue Outgoing))
    (k : B → Publisher → Option Publisher) (p : Publisher) (b : B) (q : MessageQueue Outgoing)
    → op p.stream ≡ some (b, q)
    → on_stream op k p ≡ k b (record p { stream = q })
on_stream_lem op k p b q e = rw (e, on_stream)

pub uncons : (a : Outgoing) (xs : List Outgoing) → head? xs ≡ some a → xs ≡ a ∷ tail xs
uncons a [] h = cc
uncons a (x ∷ xs) h = cc

pub head?-append :
    (a b : Outgoing) (xs : List Outgoing) → head? xs ≡ some a → head? (xs ++ b ∷ []) ≡ some a
head?-append a b [] h = cc
head?-append a b (x ∷ xs) h = h

-- The step does not panic, and keeps the invariant.
abbrev pub Keeps : List Outgoing → Option Publisher → Type 0
Keeps arrived r = (p : Publisher) × (r ≡ some p) × Inv arrived p

-- An effect that settles nothing and signals nobody.
abbrev pub IsQuiet : Effect → Type 0
IsQuiet e = (settled_by e ≡ []) × (signal_of e ≡ []) × (due e ≡ [])

pub gather-snoc {ℓ} :
    {B : Type ℓ} (f : Effect → List B) (log : List Effect) (e : Effect)
    → gather f (log ++ e ∷ []) ≡ gather f log ++ f e
gather-snoc f log e = gather-append f log (e ∷ []) ∙ ap (◌++◌ (gather f log)) (append-nil (f e))

pub gather-quiet {ℓ} :
    {B : Type ℓ} (f : Effect → List B) (log : List Effect) (e : Effect)
    → f e ≡ []
    → gather f (log ++ e ∷ []) ≡ gather f log
gather-quiet f log e h = gather-snoc f log e ∙ rw h (append-nil (gather f log))

pub quiet-Inv :
    (ms : List Outgoing) (p : Publisher) (e : Effect)
    → IsQuiet e
    → Inv ms p
    → Inv ms (record p { log = p.log ++ e ∷ [] })
quiet-Inv ms p e (a, b, c) i = record {
  valid = i.valid;
  books = rw (gather-quiet settled_by p.log e a) i.books;
  held = i.held;
  signals = gather-quiet signal_of p.log e b ∙ i.signals ∙ sym (gather-quiet due p.log e c);
}

pub stream-Inv :
    (ms : List Outgoing) (p : Publisher) (q : MessageQueue Outgoing)
    → IsValid q
    → contents q ≡ contents p.stream
    → Inv ms p
    → Inv ms (record p { stream = q })
stream-Inv ms p q v e i = record {
  valid = v;
  books = rw e i.books;
  held = λ m k. rw e (i.held m k);
  signals = i.signals;
}

-- The point may move to where no message is held, and the overflow flag plays no part.
pub moved-Inv :
    (ms : List Outgoing) (p q : Publisher)
    → Inv ms p
    → q.stream ≡ p.stream
    → q.log ≡ p.log
    → ((m : Outgoing) → q.point ≡ publishing m → head? (contents p.stream) ≡ some m)
    → Inv ms q
moved-Inv ms p q i e f h = record {
  valid = rw e i.valid;
  books = rw (e, f) i.books;
  held = λ m k. rw e (h m k);
  signals = rw f i.signals;
}
