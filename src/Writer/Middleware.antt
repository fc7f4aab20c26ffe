-- ===== src/Writer/Middleware.antt =====
-- The middleware of a writer against a description of a chain that lets a message through.
use fluent_amqp.Base.{
  ◌≡◌, refl, subst, ◌↔◌, Bool, true, false, List, [], ◌∷◌, Option, none, some, arith,
}
use fluent_amqp.Amqp.{Publishing}
use fluent_amqp.Writer.{SenderHandler}
use fluent_amqp.Writer.Publish.{process_message}

-- Every handler, called on the message that the one before it left, answers true.
pub data Passes : List SenderHandler → Publishing → Publishing → Type 0 where
  done : {m : Publishing} → Passes [] m m
  next :
      {handle : SenderHandler} {rest : List SenderHandler} {m m' out : Publishing}
      → handle m ≡ some (true, m')
      → Passes rest m' out
      → Passes (handle ∷ rest) m out

by_answer :
    (h : SenderHandler) (hs : List SenderHandler) (m out : Publishing)
    (r : Option (Bool × Publishing))
    → h m ≡ r
    → process_message (h ∷ hs) m ≡ some (true, out)
    → ((m' : Publishing) → process_message hs m' ≡ some (true, out) → Passes hs m' out)
    → Passes (h ∷ hs) m out
unfolding process_message
by_answer h hs m out none k e ih = absurd (ground arith)
by_answer h hs m out (some (false, m')) k e ih = absurd (ground arith)
by_answer h hs m out (some (true, m')) k e ih = next k (ih m' (ground arith))

process-Passes :
    (hs : List SenderHandler) (m out : Publishing)
    → process_message hs m ≡ some (true, out)
    → Passes hs m out
unfolding process_message
process-Passes [] m out e = subst (Passes [] m) (ground arith) done
process-Passes (h ∷ hs) m out e = by_answer h hs m out (h m) refl e (λ m'. process-Passes hs m' out)

Passes-process :
    {hs : List SenderHandler} {m out : Publishing}
    → Passes hs m out
    → process_message hs m ≡ some (true, out)
unfolding process_message
Passes-process done = refl
Passes-process (next {handle} {rest} {m} {m'} {out} e p) =
    rw (e, process_message) (Passes-process p)

-- A message is accepted, as `out`, exactly when every handler in turn accepts what the one before it
-- left, and the last one leaves `out`.
pub process_message_iff :
    (hs : List SenderHandler) (m out : Publishing)
    → (process_message hs m ≡ some (true, out)) ↔ Passes hs m out
process_message_iff hs m out = (process-Passes hs m out, Passes-process)
