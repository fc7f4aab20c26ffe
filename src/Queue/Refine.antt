-- ===== src/Queue/Refine.antt =====
-- A message queue behaves as a list of messages, oldest first.
use fluent_amqp.Base.{
  ℕ, ◌≡◌, refl, Bool, true, false, List, [], ◌∷◌, ◌++◌, Option, none, some, arith, length, head?,
  tail,
}
use mathlib.Core.Option
use fluent_amqp.Queue.{MessageQueue, zero_queue, len, peek, receive, commit, put}

module _ {ℓ} {A : Type ℓ} where
  abbrev pub Paired : Option (List A) → Option Bool → Type 0
  Paired none none = Unit
  Paired (some xs) (some token) = Unit
  Paired none (some token) = ⊥
  Paired (some xs) none = ⊥

  -- The two pointers are set together.
  abbrev pub IsValid : MessageQueue A → Type 0
  IsValid q = Paired q.messages q.notify

  abbrev pub entries : Option (List A) → List A
  entries none = []
  entries (some xs) = xs

  -- The messages, oldest first.
  abbrev pub contents : MessageQueue A → List A
  contents q = entries q.messages

-- What a client can ask of a queue, and what it sees of each call.
pub data Op {ℓ} (A : Type ℓ) : Type ℓ where
  puts : A → Op A
  peeks : Op A
  commits : Op A
  lens : Op A

pub data Reply {ℓ} (A : Type ℓ) : Type ℓ where
  done : Reply A
  seen : Option A → Reply A
  size : ℕ → Reply A

ready : Option Bool → Bool
ready none = false
ready (some token) = token

-- The token after a `receive`.
taken : Option Bool → Option Bool
taken none = none
taken (some token) = some false

module _ {ℓ} {A : Type ℓ} where
  -- The specification: a list.
  abbrev pub spec : Op A → List A → Reply A × List A
  spec (puts a) xs = (done, xs ++ a ∷ [])
  spec peeks xs = (seen (head? xs), xs)
  spec commits xs = (done, tail xs)
  spec lens xs = (size (length xs), xs)

  abbrev pub call : Op A → MessageQueue A → Option (Reply A × MessageQueue A)
  call (puts a) q = Option.map (λ r. (done, r.1)) (put a q)
  call peeks q = Option.map (λ r. (seen r.0, r.1)) (peek q)
  call commits q = Option.map (λ r. (done, r.1)) (commit q)
  call lens q = Option.map (λ r. (size r.0, r.1)) (len q)

  pub run_spec : List (Op A) → List A → List (Reply A)
  run_spec [] xs = []
  run_spec (op ∷ ops) xs = (spec op xs).0 ∷ run_spec ops (spec op xs).1

  cons? : Reply A → Option (List (Reply A)) → Option (List (Reply A))
  cons? r none = none
  cons? r (some rs) = some (r ∷ rs)

  -- `none` is a panic in one of the calls.
  unfoldable pub run : List (Op A) → MessageQueue A → Option (List (Reply A))
  unfolding cons?
  run [] q = some []
  run (op ∷ ops) q = elim (call op q) [ none ↦ none | some (r, q') ↦ cons? r (run ops q') ]

  signalled : Op A → Bool → Bool
  signalled (puts a) token = true
  signalled _ token = token

  -- The queue that a call leaves: the list's next state, and a token once a message was put.
  after : Op A → MessageQueue A → MessageQueue A
  unfolding ready signalled
  after op q = record {
    messages = some (spec op (contents q)).1;
    notify = some (signalled op (ready q.notify));
  }

  call-after :
      (op : Op A) (q : MessageQueue A)
      → IsValid q
      → call op q ≡ some ((spec op (contents q)).0, after op q)
  unfolding put peek commit len after
  call-after (puts a) q v = ground arith
  call-after peeks q v = ground arith
  call-after commits q v = ground arith
  call-after lens q v = ground arith

  -- Every operation returns, with the answer that the list of messages gives, and leaves the queue
  -- valid and holding that list's next state. The queue may be fresh from its zero value.
  pub call_refines :
      (op : Op A) (q : MessageQueue A)
      → IsValid q
      → (q' : MessageQueue A) × (call op q ≡ some ((spec op (contents q)).0, q'))
        × IsValid q'
        × (contents q' ≡ (spec op (contents q)).1)
  call_refines op q v = (after op q, call-after op q v, unfold after in tt, unfold after in refl)

  run_of_IsValid :
      (ops : List (Op A)) (q : MessageQueue A)
      → IsValid q
      → run ops q ≡ some (run_spec ops (contents q))
  unfolding run run_spec
  run_of_IsValid [] q v = refl
  run_of_IsValid (op ∷ ops) q v =
      let (q', answer, valid, same) = call_refines op q v in
      rw (answer, run, run_of_IsValid ops q' valid, same)

  -- Whatever calls are made on a queue that starts from its zero value, none panics, and each gets
  -- the answer that it gets from a plain list of messages that starts empty.
  pub run_refines : (ops : List (Op A)) → run ops zero_queue ≡ some (run_spec ops [])
  run_refines ops = run_of_IsValid ops zero_queue tt

  -- The single operations, for a client that keeps the queue sealed.
  pub put_lem :
      (a : A) (q : MessageQueue A)
      → IsValid q
      → (q' : MessageQueue A) × (put a q ≡ some (tt, q'))
        × IsValid q'
        × (contents q' ≡ contents q ++ a ∷ [])
  unfolding put after
  put_lem a q v = (after (puts a) q, ground arith, ground arith, ground arith)

  pub peek_lem :
      (q : MessageQueue A)
      → IsValid q
      → (q' : MessageQueue A) × (peek q ≡ some (head? (contents q), q'))
        × IsValid q'
        × (contents q' ≡ contents q)
  unfolding peek after
  peek_lem q v = (after peeks q, ground arith, ground arith, ground arith)

  pub commit_lem :
      (q : MessageQueue A)
      → IsValid q
      → (q' : MessageQueue A) × (commit q ≡ some (tt, q'))
        × IsValid q'
        × (contents q' ≡ tail (contents q))
  unfolding commit after
  commit_lem q v = (after commits q, ground arith, ground arith, ground arith)

  pub len_lem :
      (q : MessageQueue A)
      → IsValid q
      → (q' : MessageQueue A) × (len q ≡ some (length (contents q), q'))
        × IsValid q'
        × (contents q' ≡ contents q)
  unfolding len after
  len_lem q v = (after lens q, ground arith, ground arith, ground arith)

  pub receive_lem :
      (q : MessageQueue A)
      → IsValid q
      → (b : Bool) × (q' : MessageQueue A) × (receive q ≡ some (b, q'))
        × IsValid q'
        × (contents q' ≡ contents q)
  unfolding receive ready taken
  receive_lem q v = (
    ready q.notify,
    record q { notify = taken q.notify },
    ground arith,
    ground arith,
    ground arith,
  )
