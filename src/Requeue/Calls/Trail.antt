-- ===== src/Requeue/Calls/Trail.antt =====
-- The way of one call's message: through the channel to the loop, and through the loop to the log.
use fluent_amqp.Base.{
  ℕ, eqb, ◌≡◌, refl, sym, subst, ◌∙◌, ap, ap₂, ◌⊎◌, inl, inr, true, false, List, [], ◌∷◌, ◌++◌, map,
  append_assoc, append-nil, Option, none, some, if◌then◌else◌, gather, gather-append, arith,
  Bool-cases,
}
use mathlib.Core.List.{map-append}
use fluent_amqp.Amqp.{Error, Publishing}
use fluent_amqp.Requeue.Calls.{
  Call, idle, offering, awaiting, finished, Request, Loop, stopped, waiting, publishing, Entry,
  System, set_call, answer_to, after_publish,
}

-- The messages that the loop has taken and not yet published, or that lie in the channel.
abbrev pub in_loop : Loop → List Request
in_loop (publishing r) = r ∷ []
in_loop _ = []

abbrev pub in_channel : Option Request → List Request
in_channel none = []
in_channel (some r) = r ∷ []

-- Between connections the loop does not run.
abbrev pub IsIdle : System → Type 0
IsIdle s = s.session ≡ false → s.loop ≡ stopped

module _ (i : ℕ) where
  abbrev pub own : Request → List Publishing
  own r = if eqb r.call i then r.msg ∷ [] else []

  -- The publications of the call, with the broker's answers.
  abbrev pub own_entry : Entry → List (Publishing × Option Error)
  own_entry e = if eqb e.request.call i then (e.request.msg, e.answer) ∷ [] else []

  abbrev pub own_log : List Entry → List (Publishing × Option Error)
  own_log log = gather own_entry log

  abbrev pub on_way : Loop → Option Request → List Publishing
  on_way loop messages = gather own (in_loop loop) ++ gather own (in_channel messages)

  -- All messages of the call, published or on their way.
  abbrev pub trail : System → List Publishing
  trail s = map (λ p. p.0) (own_log s.log) ++ on_way s.loop s.messages

  abbrev pub Stands : Call → System → Type 0
  Stands idle s = trail s ≡ []
  Stands (offering p) s = trail s ≡ []
  Stands (awaiting p) s = trail s ≡ p ∷ []
  Stands (finished p none) s = (own_log s.log ≡ (p, none) ∷ []) × (on_way s.loop s.messages ≡ [])
  Stands (finished p (some e)) s = (trail s ≡ []) ⊎ (trail s ≡ p ∷ [])

  -- `Stands` reads no more of the system than this.
  pub Stands-same :
      (c : Call) (s t : System)
      → own_log s.log ≡ own_log t.log
      → on_way s.loop s.messages ≡ on_way t.loop t.messages
      → Stands c s
      → Stands c t
  Stands-same idle s t l w h = ap₂ (λ xs ys. map (λ p. p.0) xs ++ ys) (sym l) (sym w) ∙ h
  Stands-same (offering p) s t l w h = ap₂ (λ xs ys. map (λ p. p.0) xs ++ ys) (sym l) (sym w) ∙ h
  Stands-same (awaiting p) s t l w h = ap₂ (λ xs ys. map (λ p. p.0) xs ++ ys) (sym l) (sym w) ∙ h
  Stands-same (finished p none) s t l w (h, k) = (sym l ∙ h, sym w ∙ k)
  Stands-same (finished p (some e)) s t l w (inl h) =
      inl (ap₂ (λ xs ys. map (λ p. p.0) xs ++ ys) (sym l) (sym w) ∙ h)
  Stands-same (finished p (some e)) s t l w (inr h) =
      inr (ap₂ (λ xs ys. map (λ p. p.0) xs ++ ys) (sym l) (sym w) ∙ h)

  -- One call changes: it is this one, or this one is as before.
  pub changed :
      (j : ℕ) (c c' : Call) (s t : System)
      → s.calls j ≡ c
      → (Stands c s → eqb j i ≡ true → Stands c' t)
      → ((d : Call) → eqb j i ≡ false → Stands d s → Stands d t)
      → Stands (s.calls i) s
      → Stands (set_call j c' s.calls i) t
  changed j c c' s t e mine others h = elim (Bool-cases (eqb j i)) [
    | inl same ↦
        let k : j ≡ i = ground arith in
        subst (λ b. Stands (if b then c' else s.calls i) t) (sym same)
          (mine (subst (λ d. Stands d s) (sym (ap s.calls k) ∙ e) h) same)
    | inr other ↦
        subst (λ b. Stands (if b then c' else s.calls i) t) (sym other) (others (s.calls i) other h)
  ]

  -- a message enters the channel
  pub on_way-send :
      (loop : Loop) (r : Request) (messages : Option Request)
      → messages ≡ none
      → on_way loop (some r) ≡ on_way loop messages ++ own r
  on_way-send loop r none e =
      ap (λ l. gather own (in_loop loop) ++ l) (append-nil (own r))
      ∙ ap (λ l. l ++ own r) (sym (append-nil (gather own (in_loop loop))))
  on_way-send loop r (some q) e = absurd (ground arith)

  pub on_way-receive : (r : Request) → on_way waiting (some r) ≡ on_way (publishing r) none
  on_way-receive r = sym (append-nil (own r ++ []))

  heard :
      (log : List Entry) (a : Option Error)
      → answer_to i log ≡ some a
      → (m : Publishing) × (rest : List (Publishing × Option Error)) × (own_log log ≡ (m, a) ∷ rest)
  heard [] a e = absurd (ground arith)
  heard (x ∷ log) a e = elim (Bool-cases (eqb x.request.call i)) [
    | inl same ↦ (x.request.msg, own_log log, ground arith)
    | inr other ↦ let (m, rest, k) = heard log a ground arith in (m, rest, ground (arith, k))
  ]

  own_log-publish :
      (log : List Entry) (x : Entry) → own_log (log ++ x ∷ []) ≡ own_log log ++ own_entry x
  own_log-publish log x =
      gather-append own_entry log (x ∷ []) ∙ ap (λ l. own_log log ++ l) (append-nil (own_entry x))

  after_publish-in_loop : (a : Option Error) → in_loop (after_publish a) ≡ []
  after_publish-in_loop none = refl
  after_publish-in_loop (some e) = refl

  abbrev published : System → Request → Option Error → System
  published s r a = record s {
    loop = after_publish a;
    log = s.log ++ record { request = r; answer = a } ∷ [];
  }

  on_way-publishing :
      (s : System) (r : Request)
      → s.loop ≡ publishing r
      → on_way s.loop s.messages ≡ own r ++ gather own (in_channel s.messages)
  on_way-publishing s r e =
      ap (λ l. on_way l s.messages) e
      ∙ ap (λ l. l ++ gather own (in_channel s.messages)) (append-nil (own r))

  on_way-published :
      (s : System) (r : Request) (a : Option Error)
      → on_way (published s r a).loop s.messages ≡ gather own (in_channel s.messages)
  on_way-published s r a =
      ap (λ l. gather own l ++ gather own (in_channel s.messages)) (after_publish-in_loop a)

  message_of :
      (r : Request) (a : Option Error)
      → map (λ p. p.0) (own_entry (record { request = r; answer = a })) ≡ own r
  message_of r a = ground arith

  -- a publication moves a message from one part of the trail to the other
  trail-published :
      (s : System) (r : Request) (a : Option Error)
      → s.loop ≡ publishing r
      → trail (published s r a) ≡ trail s
  trail-published s r a e =
      let rest = gather own (in_channel s.messages) in
      ap₂ (λ xs ys. map (λ p. p.0) xs ++ ys) (own_log-publish s.log _) (on_way-published s r a)
      ∙ ap (λ l. l ++ rest)
          (map-append (λ p. p.0) (own_log s.log) _
            ∙ ap (λ l. map (λ p. p.0) (own_log s.log) ++ l) (message_of r a))
      ∙ append_assoc (map (λ p. p.0) (own_log s.log)) (own r) rest
      ∙ ap (λ l. map (λ p. p.0) (own_log s.log) ++ l) (sym (on_way-publishing s r e))

  -- a call whose messages are all published has none left for the loop
  not_own :
      (r : Request) (rest : List Publishing)
      → own r ++ rest ≡ []
      → (eqb r.call i ≡ false) × (rest ≡ [])
  not_own r rest h = ground arith

  pub publish-Stands :
      (c : Call) (s : System) (r : Request) (a : Option Error)
      → s.loop ≡ publishing r
      → Stands c s
      → Stands c (published s r a)
  publish-Stands idle s r a e h = trail-published s r a e ∙ h
  publish-Stands (offering p) s r a e h = trail-published s r a e ∙ h
  publish-Stands (awaiting p) s r a e h = trail-published s r a e ∙ h
  publish-Stands (finished p none) s r a e (h, k) =
      let (other, none_left) =
        not_own r (gather own (in_channel s.messages)) (sym (on_way-publishing s r e) ∙ k) in
      (
        own_log-publish s.log _
            ∙ ap (λ b. own_log s.log ++ (if b then (r.msg, a) ∷ [] else [])) other
            ∙ append-nil (own_log s.log)
            ∙ h,
        on_way-published s r a ∙ none_left,
      )
  publish-Stands (finished p (some x)) s r a e (inl h) = inl (trail-published s r a e ∙ h)
  publish-Stands (finished p (some x)) s r a e (inr h) = inr (trail-published s r a e ∙ h)

  one_left :
      (m p : Publishing) (rest : List (Publishing × Option Error)) (way : List Publishing)
      → m ∷ (map (λ q. q.0) rest ++ way) ≡ p ∷ []
      → (m ≡ p) × (rest ≡ []) × (way ≡ [])
  one_left m p [] way h = (ground arith, refl, ground arith)
  one_left m p (x ∷ rest) way h = absurd (ground arith)

  -- a message sent by this call, and by another one
  pub trail-send :
      (s : System) (r : Request)
      → s.messages ≡ none
      → trail (record s { messages = some r }) ≡ trail s ++ own r
  trail-send s r e =
      ap (λ l. map (λ q. q.0) (own_log s.log) ++ l) (on_way-send s.loop r s.messages e)
      ∙ sym (append_assoc (map (λ q. q.0) (own_log s.log)) (on_way s.loop s.messages) (own r))

  pub not_sent : (r : Request) → eqb r.call i ≡ false → own r ≡ []
  not_sent r e = ground arith

  pub sent_own : (r : Request) → eqb r.call i ≡ true → own r ≡ r.msg ∷ []
  sent_own r e = ground arith

  -- the end of a call that has heard an answer
  pub hear-Stands :
      (p : Publishing) (a : Option Error) (s : System)
      → answer_to i s.log ≡ some a
      → Stands (awaiting p) s
      → Stands (finished p a) s
  hear-Stands p none s e h =
      let (m, rest, k) = heard s.log none e in
      let parts = sym (ap (λ l. map (λ q. q.0) l ++ on_way s.loop s.messages) k) ∙ h in
      let (same, none_else, no_way) = one_left m p rest (on_way s.loop s.messages) parts in
      (k ∙ ap₂ (λ x y. (x, none) ∷ y) same none_else, no_way)
  hear-Stands p (some x) s e h = inr h
