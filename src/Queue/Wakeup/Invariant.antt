-- ===== src/Queue/Wakeup/Invariant.antt =====
-- What holds of the queue and its callers after any interleaving.
use fluent_amqp.Base.{
  ◌<◌, ◌≡◌, refl, ◌≢◌, ◌⊎◌, inl, inr, Bool, true, false, List, [], ◌∷◌, ◌++◌, none, some, arith,
  head?, append_assoc, tail,
}
use fluent_amqp.Queue.{push_back, signal, front, receive, remove_front}
use fluent_amqp.Queue.Wakeup.{
  waiting, holding, System, start, Step, push, notify, call, hit, miss, wake, cancel, commit,
  abandon, Reach, here, next,
}

module _ {ℓ} {A : Type ℓ} where
  -- With `xs` in the queue and `token` in its channel: the messages are those pushed and not yet
  -- committed, in order; the message that the reader holds is still the first; and a reader that
  -- waits while there are messages has a token, or a `Put` that is about to leave one.
  pub record Inv (s : System A) (xs : List A) (token : Bool) : Type ℓ where
    pub shape : s.queue ≡ record { messages = some xs; notify = some token }
    pub logs : s.pushed ≡ s.committed ++ xs
    pub held : (a : A) → s.reader ≡ holding a → head? xs ≡ some a
    pub awake : s.reader ≡ waiting → xs ≢ [] → (token ≡ true) ⊎ (0 < s.pending)

  abbrev pub Holds : System A → Type ℓ
  Holds s = (xs : List A) × (token : Bool) × Inv s xs token

  start-Holds : Holds start
  start-Holds =
      ([], false, record { shape = refl; logs = refl; held = λ a e. cc; awake = λ e h. cc })

  head?-append : (a b : A) (xs : List A) → head? xs ≡ some a → head? (xs ++ b ∷ []) ≡ some a
  head?-append a b [] h = cc
  head?-append a b (x ∷ xs) h = h

  uncons : (a : A) (xs : List A) → head? xs ≡ some a → xs ≡ a ∷ tail xs
  uncons a [] h = cc
  uncons a (x ∷ xs) h = cc

  head?-eq-none : (xs : List A) → head? xs ≡ none → xs ≡ []
  head?-eq-none [] h = refl
  head?-eq-none (x ∷ xs) h = cc

  -- Every step keeps it.
  Step-Holds : (s t : System A) → Step s t → Holds s → Holds t
  unfolding push_back signal front receive remove_front
  Step-Holds s t (push a e f) (xs, token, i) = (
    xs ++ a ∷ [],
    token,
    record {
      shape = ground (arith, i.shape);
      logs = ground (arith, append_assoc s.committed xs (a ∷ []));
      held = λ b h. ground (arith, i.held b, head?-append b a xs);
      awake = λ h n. inr (ground arith);
    },
  )
  Step-Holds s t (notify n p e f) (xs, token, i) = (
    xs,
    true,
    record {
      shape = ground (arith, i.shape);
      logs = ground arith;
      held = λ b h. ground (arith, i.held b);
      awake = λ h n. inl refl;
    },
  )
  Step-Holds s t (call r f) (xs, token, i) = (
    xs,
    token,
    record {
      shape = ground (arith, i.shape);
      logs = ground arith;
      held = λ b h. ground arith;
      awake = λ h n. ground arith;
    },
  )
  Step-Holds s t (hit a r e f) (xs, token, i) = (
    xs,
    token,
    record {
      shape = ground (arith, i.shape);
      logs = ground arith;
      held = λ b h. ground (arith, i.shape);
      awake = λ h n. ground arith;
    },
  )
  Step-Holds s t (miss r e f) (xs, token, i) = (
    xs,
    token,
    record {
      shape = ground (arith, i.shape);
      logs = ground arith;
      held = λ b h. ground arith;
      awake = λ h n. absurd (n (ground (arith, i.shape, head?-eq-none xs)));
    },
  )
  Step-Holds s t (wake r e f) (xs, token, i) = (
    xs,
    false,
    record {
      shape = ground (arith, i.shape);
      logs = ground arith;
      held = λ b h. ground arith;
      awake = λ h n. ground arith;
    },
  )
  Step-Holds s t (cancel r f) (xs, token, i) = (
    xs,
    token,
    record {
      shape = ground (arith, i.shape);
      logs = ground arith;
      held = λ b h. ground arith;
      awake = λ h n. ground arith;
    },
  )
  Step-Holds s t (commit a r e f) (xs, token, i) = (
    tail xs,
    token,
    record {
      shape = ground (arith, i.shape);
      logs = ground (arith, i.held a r, uncons a xs, append_assoc s.committed (a ∷ []) (tail xs));
      held = λ b h. ground arith;
      awake = λ h n. ground arith;
    },
  )
  Step-Holds s t (abandon a r f) (xs, token, i) = (
    xs,
    token,
    record {
      shape = ground (arith, i.shape);
      logs = ground arith;
      held = λ b h. ground arith;
      awake = λ h n. ground arith;
    },
  )

  Reach-Holds : {s t : System A} → Reach s t → Holds s → Holds t
  Reach-Holds here h = h
  Reach-Holds (next {t} {u} r st) h = Step-Holds t u st (Reach-Holds r h)

  -- After any interleaving of `Put`, `Peek` and `Commit` on a queue that `initOnce` has set up: it stays so; the
  -- messages that
  -- were pushed are those committed followed by those in the queue, in one order, and a reader that
  -- waits in `Peek` while there is a message has a wake-up token, or a `Put` that is yet to leave
  -- one. A message that `Peek` has returned is still the first one, so `Commit` removes that one.
  pub no_lost_wakeup :
      (s : System A)
      → Reach start s
      → (xs : List A) × (token : Bool) × (s.queue
          ≡ record { messages = some xs; notify = some token })
        × (s.pushed ≡ s.committed ++ xs)
        × (s.reader ≡ waiting → xs ≢ [] → (token ≡ true) ⊎ (0 < s.pending))
        × ((a : A) → s.reader ≡ holding a → head? xs ≡ some a)
  no_lost_wakeup s r =
      let (xs, token, i) = Reach-Holds r start-Holds in
      (xs, token, i.shape, i.logs, i.awake, i.held)
