-- ===== src/Server/Session/Returns.antt =====
-- The end of one goroutine ends the session of the connection.
use fluent_amqp.Base.{
  ℕ, ◌+◌, ◌≡◌, ◌≤◌, refl, sym, subst, ◌∙◌, ◌≢◌, Bool, true, List, [], ◌∷◌, All, Option, none, some,
  arith,
}
use fluent_amqp.Amqp.{Error}
use fluent_amqp.Server.Session.{
  Call, open_channel, set_qos, channel_ready, close_channel, cancel_context, done, create_channel,
  goroutine, Stage, looping, waiting, returned, Session, established, Picks, here, other, cancels,
  Step, spawn, work, interrupt, loop_end, leave, Reach, stay, next,
}
use fluent_amqp.Server.Session.Onward.{
  IsOwn, IsAny, IsHeld, Onward, rest, then, drain, run_all, to_handler, to_end,
}
use fluent_amqp.Server.Session.Clean.{
  total, total_left, total-snoc, total-Picks, channels_opened, channels_closed, channels_are_closed,
}

abbrev ended : Call → ℕ
ended done = 1
ended _ = 0

abbrev cancelled : Call → ℕ
cancelled cancel_context = 1
cancelled _ = 0

-- How many goroutines have come to their end.
abbrev pub goroutines_ended : List Call → ℕ
goroutines_ended cs = total ended cs

-- The context is cancelled before the end.
abbrev Ordered : List Call → Type 0
Ordered [] = Unit {0}
Ordered (c ∷ cs) = (total cancelled (c ∷ cs) ≤ total ended (c ∷ cs)) × Ordered cs

goroutine-Ordered :
    (o q : Option Error)
    → Ordered (goroutine o q) × (total cancelled (goroutine o q) ≡ total ended (goroutine o q))
unfolding goroutine create_channel total
goroutine-Ordered (some e) q = ((omega arith, (omega arith, (omega arith, tt))), refl)
goroutine-Ordered none (some e) =
    ((omega arith, (omega arith, (omega arith, (omega arith, (omega arith, tt))))), refl)
goroutine-Ordered none none = (
  (omega arith, (omega arith, (omega arith, (omega arith, (omega arith, (omega arith, tt)))))),
  refl,
)

Picks-Ordered :
    {c : Call} {rs rs' : List (List Call)} → Picks c rs rs' → All Ordered rs → All Ordered rs'
Picks-Ordered here ((x, o), os) = (o, os)
Picks-Ordered (other p) (o, os) = (o, Picks-Ordered p os)

head_le : (r : List Call) → Ordered r → total cancelled r ≤ total ended r
unfolding total
head_le [] o = omega arith
head_le (c ∷ cs) (l, o) = l

left_le : (rs : List (List Call)) → All Ordered rs → total_left cancelled rs ≤ total_left ended rs
unfolding total_left
left_le [] o = omega arith
left_le (r ∷ rs) (o, os) = omega (arith, head_le r o, left_le rs os)

-- The calls of `closer` and the ends of goroutines match, and the context keeps up with the calls.
abbrev Kept : Session → Type 0
Kept s =
    All Ordered s.routines
    × (total cancelled s.trail + total_left cancelled s.routines
        ≡ total ended s.trail + total_left ended s.routines)
    × (1 ≤ total cancelled s.trail → s.is_cancelled ≡ true)

called :
    (c : Call) (before : Bool) (n : ℕ)
    → (1 ≤ n → before ≡ true)
    → 1 ≤ n + cancelled c
    → cancels c before ≡ true
called (open_channel o) before n h l = h (omega arith)
called set_qos before n h l = h (omega arith)
called channel_ready before n h l = h (omega arith)
called close_channel before n h l = h (omega arith)
called cancel_context before n h l = refl
called done before n h l = h (omega arith)

Step-Kept : {s t : Session} → Kept s → Step s t → Kept t
unfolding total_left
Step-Kept (o, b, k) (spawn s x q l) =
    let (sorted, even) = goroutine-Ordered x q in ((sorted, o), omega (arith, b, even), k)
Step-Kept (o, b, k) (work s c rs p) = (
  Picks-Ordered p o,
  omega (
    arith,
    b,
    total-snoc cancelled s.trail c,
    total-snoc ended s.trail c,
    total-Picks cancelled p,
    total-Picks ended p,
  ),
  λ l.
      called c s.is_cancelled (total cancelled s.trail) k
        (omega (arith, l, total-snoc cancelled s.trail c)),
)
Step-Kept (o, b, k) (interrupt s) = (o, b, λ l. refl)
Step-Kept (o, b, k) (loop_end s w e) = (o, b, k)
Step-Kept (o, b, k) (leave s w e) = (o, b, λ l. refl)

Reach-Kept : {s : Session} → Reach established s → Kept s
unfolding total total_left
Reach-Kept stay = (tt, refl, λ l. absurd (omega arith))
Reach-Kept (next r p) = Step-Kept (Reach-Kept r) p

end_cancels :
    (s : Session) → Reach established s → 1 ≤ goroutines_ended s.trail → s.is_cancelled ≡ true
end_cancels s r l = let (o, b, k) = Reach-Kept r in k (omega (arith, b, left_le s.routines o))

-- Without any return of a handler, the session comes to where it waits for handlers alone.
held :
    (s : Session) (stage : Stage)
    → s.stage ≡ stage
    → s.is_cancelled ≡ true
    → (t : Session) × Onward IsOwn s t
      × (t.stage ≢ looping)
      × (t.is_cancelled ≡ true)
      × All IsHeld t.routines
held s looping e k =
    let (rs, runs, all) = drain IsOwn IsHeld s.routines to_handler in
    let out : Session = record s { stage = waiting } in
    let (t, o, same, kt, st) = run_all IsOwn s out runs (then rest (loop_end s e k) tt) refl k in
    (t, o, λ l. cc, kt, subst (All IsHeld) (sym same) all)
held s waiting e k =
    let (rs, runs, all) = drain IsOwn IsHeld s.routines to_handler in
    let (t, o, same, kt, st) = run_all IsOwn s s runs rest refl k in
    (t, o, λ l. cc, kt, subst (All IsHeld) (sym same) all)
held s returned e k =
    let (rs, runs, all) = drain IsOwn IsHeld s.routines to_handler in
    let (t, o, same, kt, st) = run_all IsOwn s s runs rest refl k in
    (t, o, λ l. cc, kt, subst (All IsHeld) (sym same) all)

-- Once the handlers have returned, the session returns.
returns :
    (s : Session) (stage : Stage)
    → s.stage ≡ stage
    → s.stage ≢ looping
    → s.is_cancelled ≡ true
    → (t : Session) × Onward IsAny s t × (t.stage ≡ returned)
returns s looping e n k = absurd (n e)
returns s waiting e n k =
    let (rs, runs, all) = drain IsAny (λ r. r ≡ []) s.routines to_end in
    let (t, o, same, kt, st) = run_all IsAny s s runs rest refl k in
    (_, then o (leave t (st ∙ e) (subst (All (λ r. r ≡ [])) (sym same) all)) tt, refl)
returns s returned e n k = (s, rest, e)

through : {P : Call → Type 0} {a s t : Session} → Reach a s → Onward P s t → Reach a t
through r rest = r
through r (then o st ok) = next (through r o) st

-- Once one goroutine of a connection has come to its end, because its channel could not be opened or
-- prepared or because its handler returned, the context of all of them is cancelled. From there, with no
-- interrupt, no new goroutine and no return of a handler, the session can come to where its loop is over and
-- every goroutine has ended or is in its handler, with the context cancelled. From there again, if the
-- handlers return, the steps of the goroutines lead to the return of the session, with as many channels
-- closed as it opened.
pub one_end_ends_all :
    (s : Session)
    → Reach established s
    → 1 ≤ goroutines_ended s.trail
    → (s.is_cancelled ≡ true)
      × ((t : Session) × Onward IsOwn s t
          × (t.stage ≢ looping)
          × (t.is_cancelled ≡ true)
          × All IsHeld t.routines
          × ((u : Session) × Onward IsAny t u
              × (u.stage ≡ returned)
              × (channels_closed u.trail ≡ channels_opened u.trail)))
one_end_ends_all s r l =
    let k = end_cancels s r l in
    let (t, o, n, kt, all) = held s s.stage refl k in
    let (u, v, e) = returns t t.stage refl n kt in
    (k, (t, o, n, kt, all, (u, v, e, (channels_are_closed u (through (through r o) v) e).2)))
