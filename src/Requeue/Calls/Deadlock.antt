-- ===== src/Requeue/Calls/Deadlock.antt =====
-- requeuer.go and amqp.go: a lost connection may leave a sink in `Requeue`, and then the server waits for
-- the sink, and the sink for the next connection.
use fluent_amqp.Base.{
  ℕ, eqb, ◌≡◌, ◌≢◌, refl, sym, subst, ◌∙◌, ap, ◌⊎◌, inl, inr, true, List, [], ◌∷◌, Option, none,
  some, if◌then◌else◌, arith, Bool-cases, All,
}
use fluent_amqp.Amqp.{Error, Publishing}
use fluent_amqp.Requeue.Calls.{
  Call, idle, offering, awaiting, finished, Request, stopped, waiting, Entry, System, start,
  set_call, answer_to, HasReturned, Step, call_outside, call_inside, send, receive, publish, hear,
  close, stop_offering, stop_awaiting, disconnect, connect, connect_in_vain, end_session, Reach,
  here, next,
}
use fluent_amqp.Requeue.Calls.Own.{queued_unanswered}

abbrev pub IsIn : ℕ → List ℕ → Type 0
IsIn i [] = ⊥
IsIn i (x ∷ xs) = (x ≡ i) ⊎ IsIn i xs

-- The connection is not over for the server, its loop has ended, and a sink of it waits for an answer that
-- has not been given.
pub record IsStuck (i : ℕ) (p : Publishing) (s : System) : Type 0 where
  pub open_still : s.session ≡ true
  pub ended : s.loop ≡ stopped
  pub waits : s.calls i ≡ awaiting p
  pub counted : IsIn i s.inside
  pub unanswered : answer_to i s.log ≡ none

not_returned :
    (i : ℕ) (p : Publishing) (calls : ℕ → Call) (inside : List ℕ)
    → calls i ≡ awaiting p
    → IsIn i inside
    → All (λ j. HasReturned (calls j)) inside
    → ⊥
not_returned i p calls [] w k done = elim k [ ]
not_returned i p calls (x ∷ xs) w (inl e) (h, hs) = subst HasReturned (ap calls e ∙ w) h
not_returned i p calls (x ∷ xs) w (inr k) (h, hs) = not_returned i p calls xs w k hs

-- A step of another call leaves this one alone.
waits_on :
    (i j : ℕ) (p : Publishing) (c c' : Call) (calls : ℕ → Call)
    → calls j ≡ c
    → c ≢ awaiting p
    → calls i ≡ awaiting p
    → set_call j c' calls i ≡ awaiting p
waits_on i j p c c' calls e n w = elim (Bool-cases (eqb j i)) [
  | inl same ↦ let k : j ≡ i = ground arith in absurd (n (sym e ∙ ap calls k ∙ w))
  | inr other ↦ ap (λ b. if b then c' else calls i) other ∙ w
]

hears_on :
    (i j : ℕ) (p q : Publishing) (a : Option Error) (calls : ℕ → Call) (log : List Entry)
    → answer_to j log ≡ some a
    → answer_to i log ≡ none
    → calls i ≡ awaiting p
    → set_call j (finished q a) calls i ≡ awaiting p
hears_on i j p q a calls log e n w = elim (Bool-cases (eqb j i)) [
  | inl same ↦
      let k : j ≡ i = ground arith in absurd (differ a (sym e ∙ ap (λ x. answer_to x log) k ∙ n))
  | inr other ↦ ap (λ b. if b then finished q a else calls i) other ∙ w
]
  where
    differ : (a : Option Error) → ◌≡◌ {A = Option (Option Error)} (some a) none → ⊥
    differ a h = ground arith

moved :
    (i : ℕ) (p : Publishing) (s : System) (calls : ℕ → Call) (messages : Option Request)
    → IsStuck i p s
    → calls i ≡ awaiting p
    → IsStuck i p (record s { calls = calls; messages = messages })
moved i p s calls messages h w = record {
  open_still = h.open_still;
  ended = h.ended;
  waits = w;
  counted = h.counted;
  unanswered = h.unanswered;
}

-- A step without the end of the server's context.
abbrev Keeps : ℕ → Publishing → System → System → Type 0
Keeps i p s t = t.closed ≡ none → (s.closed ≡ none) × (IsStuck i p s → IsStuck i p t)

Step-Keeps : (i : ℕ) (p : Publishing) {s t : System} → Step s t → Keeps i p s t
Step-Keeps i p {s} (call_outside j q e) o = (
  o,
  λ h.
      moved i p s _ s.messages h
        (waits_on i j p idle (offering q) s.calls e (λ x. ground arith) h.waits),
)
Step-Keeps i p {s} (call_inside j q e f) o = (
  o,
  λ h. record {
    open_still = h.open_still;
    ended = h.ended;
    waits = waits_on i j p idle (offering q) s.calls e (λ x. ground arith) h.waits;
    counted = inr h.counted;
    unanswered = h.unanswered;
  },
)
Step-Keeps i p {s} (send j q e f) o = (
  o,
  λ h.
      moved i p s _ (some (record { call = j; msg = q })) h
        (waits_on i j p (offering q) (awaiting q) s.calls e (λ x. ground arith) h.waits),
)
Step-Keeps i p {s} (receive r e f) o = (o, λ h. absurd (ground (arith, h.ended)))
Step-Keeps i p {s} (publish r a e) o = (o, λ h. absurd (ground (arith, h.ended)))
Step-Keeps i p {s} (hear j q a e f) o =
    (o, λ h. moved i p s _ s.messages h (hears_on i j p q a s.calls s.log f h.unanswered h.waits))
Step-Keeps i p {s} (close e f) o = absurd (ground arith)
Step-Keeps i p {s} (stop_offering j q x e f) o = absurd (ground arith)
Step-Keeps i p {s} (stop_awaiting j q x e f) o = absurd (ground arith)
Step-Keeps i p {s} (disconnect e) o = (
  o,
  λ h. record {
    open_still = h.open_still;
    ended = refl;
    waits = h.waits;
    counted = h.counted;
    unanswered = h.unanswered;
  },
)
Step-Keeps i p {s} (connect e) o = (o, λ h. absurd (ground (arith, h.open_still)))
Step-Keeps i p {s} (connect_in_vain e) o = (o, λ h. absurd (ground (arith, h.open_still)))
Step-Keeps i p {s} (end_session e l done) o =
    (o, λ h. absurd (not_returned i p s.calls s.inside h.waits h.counted done))

Reach-Keeps : (i : ℕ) (p : Publishing) {s t : System} → Reach s t → Keeps i p s t
Reach-Keeps i p here o = (o, λ h. h)
Reach-Keeps i p (next r step) o =
    let (o', keep) = Step-Keeps i p step o in
    let (o'', keep') = Reach-Keeps i p r o' in (o'', λ h. keep (keep' h))

-- A sink of the connection has put its message into the channel, and waits for the answer.
pub record IsQueued (i : ℕ) (p : Publishing) (s : System) : Type 0 where
  pub open_still : s.session ≡ true
  pub listens : s.loop ≡ waiting
  pub waits : s.calls i ≡ awaiting p
  pub counted : IsIn i s.inside
  pub queued : s.messages ≡ some (record { call = i; msg = p })

-- If the connection is lost while the message of one of its sinks lies in the channel of the requeuer, and
-- the loop waits there, the loop may end with its context; then, until the context of the whole server
-- ends, the sink waits, the loop does not run and the server does not leave the old connection, whatever
-- else happens.
pub lost_connection_hangs :
    (s t : System) (i : ℕ) (p : Publishing)
    → Reach start s
    → IsQueued i p s
    → Reach (record s { loop = stopped }) t
    → t.closed ≡ none
    → Step s (record s { loop = stopped })
      × (t.calls i ≡ awaiting p)
      × (t.loop ≡ stopped)
      × (t.session ≡ true)
lost_connection_hangs s t i p reach q on o =
    let stuck : IsStuck i p (record s { loop = stopped }) = record {
      open_still = q.open_still;
      ended = refl;
      waits = q.waits;
      counted = q.counted;
      unanswered = queued_unanswered s i p reach q.waits q.listens q.queued;
    } in
    let h = (Reach-Keeps i p on o).1 stuck in (disconnect q.listens, h.waits, h.ended, h.open_still)
