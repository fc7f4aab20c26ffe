-- ===== src/Server/Session/Clean.antt =====
-- The channels of one connection are closed.
use fluent_amqp.Base.{
  ℕ, ◌+◌, ◌≡◌, ◌≢◌, refl, ap, Bool, true, List, [], ◌∷◌, ◌++◌, All, Option, none, some, arith,
}
use fluent_amqp.Amqp.{Error}
use fluent_amqp.Server.Session.{
  Call, open_channel, set_qos, channel_ready, close_channel, cancel_context, done, create_channel,
  goroutine, looping, returned, Session, established, Picks, here, other, cancels, Step, spawn,
  work, interrupt, loop_end, leave, Reach, stay, next,
}

-- Whether a call opens a channel, and whether it closes one.
abbrev pub opened : Call → ℕ
opened (open_channel none) = 1
opened _ = 0

abbrev pub closed : Call → ℕ
closed close_channel = 1
closed _ = 0

unfoldable pub total : (Call → ℕ) → List Call → ℕ
total f [] = 0
total f (c ∷ cs) = f c + total f cs

unfoldable pub total_left : (Call → ℕ) → List (List Call) → ℕ
unfolding total
total_left f [] = 0
total_left f (r ∷ rs) = total f r + total_left f rs

-- How many channels these calls open, and how often they close one.
abbrev pub channels_opened : List Call → ℕ
channels_opened cs = total opened cs

abbrev pub channels_closed : List Call → ℕ
channels_closed cs = total closed cs

pub total-snoc :
    (f : Call → ℕ) (cs : List Call) (c : Call) → total f (cs ++ c ∷ []) ≡ total f cs + f c
unfolding total
total-snoc f [] c = omega arith
total-snoc f (x ∷ cs) c = omega (arith, total-snoc f cs c)

pub total-Picks :
    (f : Call → ℕ) {c : Call} {rs rs' : List (List Call)}
    → Picks c rs rs'
    → total_left f rs ≡ f c + total_left f rs'
unfolding total_left total
total-Picks f {c} (here {rest} {rs}) = omega arith
total-Picks f (other {r} p) = omega (arith, total-Picks f p)

total_empty : (f : Call → ℕ) (rs : List (List Call)) → All (λ r. r ≡ []) rs → total_left f rs ≡ 0
unfolding total_left total
total_empty f [] e = refl
total_empty f (r ∷ rs) (e, es) = omega (arith, ap (total f) e, total_empty f rs es)

-- A goroutine closes its channel if and only if it got one.
goroutine_balance :
    (o q : Option Error) → total opened (goroutine o q) ≡ total closed (goroutine o q)
unfolding goroutine create_channel total
goroutine_balance (some e) q = refl
goroutine_balance none (some e) = refl
goroutine_balance none none = refl

-- What is opened, or is to be, is closed, or is to be.
abbrev Balanced : Session → Type 0
Balanced s =
    total opened s.trail + total_left opened s.routines
    ≡ total closed s.trail + total_left closed s.routines

Step-Balanced : {s t : Session} → Balanced s → Step s t → Balanced t
unfolding total_left
Step-Balanced b (spawn s o q l) = omega (arith, goroutine_balance o q, b)
Step-Balanced b (work s c rs p) = omega (
  arith,
  b,
  total-snoc opened s.trail c,
  total-snoc closed s.trail c,
  total-Picks opened p,
  total-Picks closed p,
)
Step-Balanced b (interrupt s) = b
Step-Balanced b (loop_end s w e) = b
Step-Balanced b (leave s w e) = b

Reach-Balanced : {s : Session} → Reach established s → Balanced s
unfolding total_left total
Reach-Balanced stay = refl
Reach-Balanced (next r p) = Step-Balanced (Reach-Balanced r) p

none_left : {c : Call} {rs rs' : List (List Call)} → Picks c rs rs' → All (λ r. r ≡ []) rs → ⊥
none_left here (e, es) = ground arith
none_left (other p) (e, es) = none_left p es

pub cancels_lem : (c : Call) (before : Bool) → before ≡ true → cancels c before ≡ true
cancels_lem (open_channel o) before e = e
cancels_lem set_qos before e = e
cancels_lem channel_ready before e = e
cancels_lem close_channel before e = e
cancels_lem cancel_context before e = refl
cancels_lem done before e = e

-- Past the loop the context is cancelled; at the end no goroutine has a call left.
abbrev Ended : Session → Type 0
Ended s =
    (s.stage ≢ looping → s.is_cancelled ≡ true)
    × (s.stage ≡ returned → (s.is_cancelled ≡ true) × All (λ r. r ≡ []) s.routines)

Step-Ended : {s t : Session} → Ended s → Step s t → Ended t
Step-Ended (past, end) (spawn s o q l) = (past, λ e. absurd (ground arith))
Step-Ended (past, end) (work s c rs p) =
    (λ n. cancels_lem c s.is_cancelled (past n), λ e. absurd (none_left p (end e).1))
Step-Ended (past, end) (interrupt s) = (λ n. refl, λ e. (refl, (end e).1))
Step-Ended (past, end) (loop_end s w x) = (λ n. x, λ e. absurd (ground arith))
Step-Ended (past, end) (leave s w x) = (λ n. refl, λ e. (refl, x))

Reach-Ended : {s : Session} → Reach established s → Ended s
Reach-Ended stay = (λ n. absurd (n refl), λ e. absurd (ground arith))
Reach-Ended (next r p) = Step-Ended (Reach-Ended r) p

-- When `onConnectionEstablished` has returned, its context is cancelled, every goroutine has made all of its
-- calls, and the channels were closed as often as one was opened, whatever the answers of the broker.
pub channels_are_closed :
    (s : Session)
    → Reach established s
    → s.stage ≡ returned
    → (s.is_cancelled ≡ true)
      × All (λ r. r ≡ []) s.routines
      × (channels_closed s.trail ≡ channels_opened s.trail)
channels_are_closed s r e =
    let (gone, empty) = (Reach-Ended r).1 e in
    (
      gone,
      empty,
      omega (
        arith,
        Reach-Balanced r,
        total_empty opened s.routines empty,
        total_empty closed s.routines empty,
      ),
    )
