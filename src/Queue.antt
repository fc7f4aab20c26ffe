-- ===== src/Queue.antt =====
-- internal/message_queue.go: the unlimited cache of outgoing messages. The two pointers are `none`
-- until `initOnce` has run; `notify` is a channel with one place, `some true` when a token lies in
-- it. An operation answers `none` where the Go code would panic on a nil pointer.
pub mod Refine
pub mod Wakeup
mod Tests
use fluent_amqp.Base.{
  ℕ, Bool, true, false, List, [], ◌∷◌, ◌++◌, Option, none, some, length, head?, tail,
}

pub record MessageQueue {ℓ} (A : Type ℓ) : Type ℓ where
  pub messages : Option (List A)
  pub notify : Option Bool

-- `MessageQueue{}`
abbrev pub zero_queue {ℓ} : {A : Type ℓ} → MessageQueue A
zero_queue = record { messages = none; notify = none }

-- An operation on a queue with its answer.
abbrev pub M {ℓ κ} : Type ℓ → Type κ → Type (ℓ ⊔ κ)
M A B = MessageQueue A → Option (B × MessageQueue A)

infixl 5 ◌>>=◌ ◌>>◌
abbrev pub ◌>>=◌ {ℓ κ μ} : {A : Type ℓ} {B : Type κ} {C : Type μ} → M A B → (B → M A C) → M A C
◌>>=◌ m f q = elim (m q) [ none ↦ none | some (b, q') ↦ f b q' ]

abbrev pub ◌>>◌ {ℓ κ} : {A : Type ℓ} {C : Type κ} → M A (Unit {0}) → M A C → M A C
m >> k = m >>= λ _. k

abbrev pub return {ℓ κ} : {A : Type ℓ} {B : Type κ} → B → M A B
return b q = some (b, q)

module _ {ℓ} {A : Type ℓ} where
  init_from : Option Bool → MessageQueue A → MessageQueue A
  init_from (some token) q = q
  init_from none q = record { messages = some []; notify = some false }

  -- `initOnce`, the whole double-checked initialisation
  unfoldable pub init_once : M A (Unit {0})
  unfolding init_from
  init_once q = some (tt, init_from q.notify q)

  -- `q.messages`, dereferenced
  unfoldable pub deref : M A (List A)
  deref q = elim q.messages [ none ↦ none | some xs ↦ some (xs, q) ]

  unfoldable pub store : List A → M A (Unit {0})
  store xs q = some (tt, record q { messages = some xs })

  -- the `select` of `Put`: a send that does not wait. A second token finds no place and is dropped;
  -- on a nil channel the default case is taken.
  unfoldable pub signal : M A (Unit {0})
  signal q = elim q.notify [
    | none ↦ some (tt, q)
    | some token ↦ some (tt, record q { notify = some true })
  ]

  -- `Len`
  unfoldable pub len : M A ℕ
  unfolding init_once deref
  len = do init_once; xs ← deref; return (length xs)

  -- the locked part of a round of `Peek`: the front entry, if there is one
  unfoldable pub front : M A (Option A)
  unfolding deref
  front = do xs ← deref; return (head? xs)

  -- a `Peek` that meets a message at once; `none` where `Peek` would go on to wait
  unfoldable pub peek : M A (Option A)
  unfolding init_once front
  peek = do init_once; front

  -- the wait of `Peek`: it ends with the token taken, or does not end (the answer is false)
  unfoldable pub receive : M A Bool
  receive q = elim q.notify [
    | some true ↦ some (true, record q { notify = some false })
    | _ ↦ some (false, q)
  ]

  -- the locked part of `Commit`
  unfoldable pub remove_front : M A (Unit {0})
  unfolding deref store
  remove_front = do xs ← deref; store (tail xs)

  -- `Commit`
  unfoldable pub commit : M A (Unit {0})
  unfolding init_once remove_front
  commit = do init_once; remove_front

  -- the locked part of `Put`
  unfoldable pub push_back : A → M A (Unit {0})
  unfolding deref store
  push_back a = do xs ← deref; store (xs ++ a ∷ [])

  -- `Put`
  unfoldable pub put : A → M A (Unit {0})
  unfolding init_once push_back signal
  put a = do init_once; push_back a; signal
