-- ===== src/Rpc/Release.antt =====
-- rpc.go, the end of `BuildRPC`: what is left in the map when the server has finished is closed.
use fluent_amqp.Base.{
  ℕ, String, ◌≡◌, ◌≢◌, refl, sym, subst, ◌∙◌, ap, ap₂, inl, inr, List, [], ◌∷◌, ◌++◌, map, none,
  some, ◌==◌, if◌then◌else◌, eq_iff, eq_refl, gather, gather-append, arith, All, option_cases,
  Bool-cases,
}
use fluent_amqp.Base.Int.{ℤ}
use fluent_amqp.Amqp.{Delivery, Publishing}
use fluent_amqp.Writer.{WriterConfig}
use fluent_amqp.Rpc.{
  Pending, waiting_for, register, forget, Effect, delivered, closed, Rpc, Event, calls, arrives,
  on_message, raw, run, new_rpc, finish,
}
use fluent_amqp.Rpc.Channels.{
  waiting_for-register, waiting_for-forget, on_message-none, on_message-some, on_channel,
  first_reply, IsOther, Waits, IsOver,
}
use fluent_amqp.Rpc.Waiting.{
  raw-IsOver, on_message-IsOver, raw-Waits, on_message-Waits, handed-IsOver,
}
use fluent_amqp.Rpc.Replies.{run-append, raw-starts, run-IsMade, reply_is_first}

-- A map has each key once.
abbrev HasOneEach : Pending → Type 0
HasOneEach [] = Unit
HasOneEach ((k, c) ∷ rest) = (waiting_for k rest ≡ none) × HasOneEach rest

register-HasOneEach :
    (id : String) (ch : ℕ) (p : Pending) → HasOneEach p → HasOneEach (register id ch p)
unfolding register waiting_for
register-HasOneEach id ch [] h = (refl, tt)
register-HasOneEach id ch ((k, c) ∷ rest) (new, h) = elim (Bool-cases (k == id)) [
  | inl same ↦ rw same (new, h)
  | inr other ↦ rw other (
    waiting_for-register id k ch rest ∙ ground (arith, eq_iff k id, eq_iff id k),
    register-HasOneEach id ch rest h,
  )
]

forget-HasOneEach : (id : String) (p : Pending) → HasOneEach p → HasOneEach (forget id p)
unfolding forget
forget-HasOneEach id [] h = tt
forget-HasOneEach id ((k, c) ∷ rest) (new, h) = elim (Bool-cases (k == id)) [
  | inl same ↦ rw same (forget-HasOneEach id rest h)
  | inr other ↦ rw other (
    waiting_for-forget id k rest ∙ ground (arith, eq_iff k id, eq_iff id k),
    forget-HasOneEach id rest h,
  )
]

-- What the end of the server does to a channel.
abbrev released : ℕ → Pending → List Effect
released ch p = gather (on_channel ch) (map (λ q. closed q.1) p)

abbrev Lacks : ℕ → Pending → Type 0
Lacks ch p = (j : String) → waiting_for j p ≢ some ch

not_closed : (ch c : ℕ) → c ≢ ch → on_channel ch (closed c) ≡ []
not_closed ch c h = ground arith

is_closed : (ch c : ℕ) → c ≡ ch → on_channel ch (closed c) ≡ closed ch ∷ []
is_closed ch c h = ground arith

head-ne : (ch c : ℕ) (k : String) (rest : Pending) → Lacks ch ((k, c) ∷ rest) → c ≢ ch
unfolding waiting_for
head-ne ch c k rest l e = l k (ground (arith, eq_refl k))

tail-Lacks :
    (ch c : ℕ) (k : String) (rest : Pending)
    → waiting_for k rest ≡ none
    → Lacks ch ((k, c) ∷ rest)
    → Lacks ch rest
unfolding waiting_for
tail-Lacks ch c k rest new l j w = l j (ground (arith, eq_iff k j))

released-Lacks : (ch : ℕ) (p : Pending) → HasOneEach p → Lacks ch p → released ch p ≡ []
released-Lacks ch [] h l = refl
released-Lacks ch ((k, c) ∷ rest) (new, h) l =
    let other = head-ne ch c k rest l in
    ap₂ ◌++◌ (not_closed ch c other) (released-Lacks ch rest h (tail-Lacks ch c k rest new l))

in_rest :
    (ch c : ℕ) (k j : String) (rest : Pending)
    → waiting_for k rest ≡ none
    → waiting_for j rest ≡ some ch
    → waiting_for j ((k, c) ∷ rest) ≡ some ch
unfolding waiting_for
in_rest ch c k j rest new v = ground (arith, eq_iff k j)

in_head :
    (ch c : ℕ) (k : String) (rest : Pending) → c ≡ ch → waiting_for k ((k, c) ∷ rest) ≡ some ch
unfolding waiting_for
in_head ch c k rest e = ground (arith, eq_refl k)

released_once :
    (id : String) (ch : ℕ) (p : Pending)
    → HasOneEach p
    → waiting_for id p ≡ some ch
    → ((j : String) → waiting_for j p ≡ some ch → j ≡ id)
    → released ch p ≡ closed ch ∷ []
unfolding waiting_for
released_once id ch [] h w only = absurd (ground arith)
released_once id ch ((k, c) ∷ rest) (new, h) w only = elim (Bool-cases (k == id)) [
  | inl same ↦
      let e : c ≡ ch = ground arith in
      ap₂ ◌++◌ (is_closed ch c e) (
        released-Lacks ch rest h
          (λ j v. ground (arith, only j (in_rest ch c k j rest new v), eq_iff k id)))
  | inr other ↦
      let e : c ≢ ch = λ v. ground (arith, only k (in_head ch c k rest v), eq_iff k id) in
      ap₂ ◌++◌ (not_closed ch c e)
        (released_once id ch rest h (ground arith) (λ j v. only j (in_rest ch c k j rest new v)))
]

-- What the channel gets from the replies and from the release together.
abbrev pub closed_by_end : ℕ → List Effect → List Effect
closed_by_end ch [] = closed ch ∷ []
closed_by_end ch (e ∷ es) = e ∷ es

module _ (wc : WriterConfig) (queue : String) where
  on_message-HasOneEach :
      (msg : Delivery) (rpc : Rpc)
      → HasOneEach rpc.correlation
      → HasOneEach (on_message msg rpc).correlation
  on_message-HasOneEach msg rpc h =
      elim (option_cases (waiting_for msg.correlation_id rpc.correlation)) [
        | inl e ↦ subst (λ r. HasOneEach r.correlation) (sym (on_message-none msg rpc e)) h
        | inr (c, e) ↦
            subst (λ r. HasOneEach r.correlation) (sym (on_message-some msg rpc c e))
              (forget-HasOneEach msg.correlation_id rpc.correlation h)
      ]

  run-HasOneEach :
      (es : List Event) (rpc : Rpc)
      → HasOneEach rpc.correlation
      → HasOneEach (run wc queue es rpc).correlation
  unfolding run raw
  run-HasOneEach [] rpc h = h
  run-HasOneEach (calls id now msg ∷ es) rpc h =
      run-HasOneEach es (raw wc queue id now msg rpc)
        (register-HasOneEach id rpc.channels rpc.correlation h)
  run-HasOneEach (arrives msg ∷ es) rpc h =
      run-HasOneEach es (on_message msg rpc) (on_message-HasOneEach msg rpc h)

  run-IsOver :
      (ch : ℕ) (es : List Event) (rpc : Rpc) → IsOver ch rpc → IsOver ch (run wc queue es rpc)
  unfolding run
  run-IsOver ch [] rpc o = o
  run-IsOver ch (calls id now msg ∷ es) rpc o =
      run-IsOver ch es (raw wc queue id now msg rpc) (raw-IsOver wc queue ch id now msg rpc o)
  run-IsOver ch (arrives msg ∷ es) rpc o =
      run-IsOver ch es (on_message msg rpc) (on_message-IsOver wc queue ch msg rpc o)

  Waits-released :
      (id : String) (ch : ℕ) (es : List Event) (rpc : Rpc)
      → All (IsOther id) es
      → HasOneEach rpc.correlation
      → Waits id ch rpc
      → first_reply id ch es ++ released ch (run wc queue es rpc).correlation
        ≡ closed_by_end ch (first_reply id ch es)
  unfolding run
  Waits-released id ch [] rpc others h (w, only, l) = released_once id ch rpc.correlation h w only
  Waits-released id ch (calls j now msg ∷ es) rpc (other, others) h w =
      Waits-released id ch es (raw wc queue j now msg rpc) others
        (register-HasOneEach j rpc.channels rpc.correlation h)
        (raw-Waits wc queue ch id j now msg rpc other w)
  Waits-released id ch (arrives msg ∷ es) rpc (other, others) h w =
      elim (Bool-cases (msg.correlation_id == id)) [
        | inl same ↦
            let k = (eq_iff msg.correlation_id id).0 same in
            let mine = subst (λ i. Waits i ch rpc) (sym k) w in
            let over = run-IsOver ch es (on_message msg rpc) (
              subst (IsOver ch) (sym (on_message-some msg rpc ch mine.0))
                (handed-IsOver wc queue ch msg rpc mine)) in
            let last = run wc queue es (on_message msg rpc) in
            subst
              (λ b.
                (if b then delivered ch msg ∷ closed ch ∷ [] else first_reply id ch es)
                  ++ released ch last.correlation
                ≡ closed_by_end ch
                    (if b then delivered ch msg ∷ closed ch ∷ [] else first_reply id ch es))
              (sym same)
              (ap (λ l. delivered ch msg ∷ closed ch ∷ l)
                (released-Lacks ch last.correlation
                  (run-HasOneEach es (on_message msg rpc) (on_message-HasOneEach msg rpc h))
                  over.0))
        | inr differs ↦
            let unlike : msg.correlation_id ≢ id = ground (arith, eq_iff msg.correlation_id id) in
            let last = run wc queue es (on_message msg rpc) in
            subst
              (λ b.
                (if b then delivered ch msg ∷ closed ch ∷ [] else first_reply id ch es)
                  ++ released ch last.correlation
                ≡ closed_by_end ch
                    (if b then delivered ch msg ∷ closed ch ∷ [] else first_reply id ch es))
              (sym differs)
              (Waits-released id ch es (on_message msg rpc) others (on_message-HasOneEach msg rpc h)
                (on_message-Waits wc queue ch id msg rpc unlike w))
      ]

  -- Whatever requests and deliveries came before and after a request: once the server has finished, and if
  -- no later request had the same id, its channel has got the first delivery after the request that has its
  -- id and was then closed; or, if there was none, it is closed with nothing sent on it. Nothing else ever
  -- happened on the channel.
  pub closed_once :
      (before after : List Event) (id : String) (now : ℤ) (msg : Publishing)
      → All (IsOther id) after
      → let ch = (run wc queue before new_rpc).channels in
        gather
          (on_channel ch)
          (finish (run wc queue (before ++ calls id now msg ∷ after) new_rpc)).log
        ≡ closed_by_end ch (first_reply id ch after)
  unfolding finish run raw waiting_for
  closed_once before after id now msg others =
      let rpc = run wc queue before new_rpc in
      let ch = rpc.channels in
      let here = raw wc queue id now msg rpc in
      let made = run-IsMade wc queue before new_rpc (λ j c e. absurd (ground arith), λ c l. refl) in
      let whole = run wc queue (before ++ calls id now msg ∷ after) new_rpc in
      gather-append (on_channel ch) whole.log (map (λ q. closed q.1) whole.correlation)
      ∙ ap₂ (λ l r. l ++ released ch r.correlation)
          (reply_is_first wc queue before after id now msg others)
          (run-append wc queue before (calls id now msg ∷ after) new_rpc)
      ∙ Waits-released id ch after here others
          (register-HasOneEach id ch rpc.correlation (run-HasOneEach before new_rpc tt))
          (raw-starts wc queue id now msg rpc made)
