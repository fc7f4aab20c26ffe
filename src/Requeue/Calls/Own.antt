-- ===== src/Requeue/Calls/Own.antt =====
-- What a call of `Requeue` may believe.
use fluent_amqp.Base.{
  ℕ, eqb, ◌≡◌, refl, sym, subst, ◌∙◌, ap, ap₂, ◌⊎◌, inl, inr, List, [], ◌∷◌, ◌++◌, map, append-nil,
  Option, none, some, arith, Bool-cases,
}
use fluent_amqp.Amqp.{Error, Publishing}
use fluent_amqp.Requeue.Calls.{
  idle, offering, awaiting, finished, Request, waiting, Entry, System, start, set_call, answer_to,
  Step, call_outside, call_inside, send, receive, publish, hear, close, stop_offering,
  stop_awaiting, disconnect, connect, connect_in_vain, end_session, Reach, here, next,
}
use fluent_amqp.Requeue.Promise.{Told}
use fluent_amqp.Requeue.Calls.Trail.{
  own, on_way, Stands, IsIdle, own_log, Stands-same, changed, publish-Stands, hear-Stands,
  trail-send, not_sent, sent_own, on_way-send, on_way-receive,
}

Step-Stands :
    (i : ℕ) {s t : System} → Step s t → IsIdle s → Stands i (s.calls i) s → Stands i (t.calls i) t
Step-Stands i {s} (call_outside j p e) k h =
    changed i j idle (offering p) s _ e (λ g same. g) (λ d other. Stands-same i d s _ refl refl) h
Step-Stands i {s} (call_inside j p e q) k h =
    changed i j idle (offering p) s _ e (λ g same. g) (λ d other. Stands-same i d s _ refl refl) h
Step-Stands i {s} (send j p e q) k h =
    let r : Request = record { call = j; msg = p } in
    changed i j (offering p) (awaiting p) s _ e
      (λ g same. trail-send i s r q ∙ ap₂ ◌++◌ g (sent_own i r same))
      (λ d other. Stands-same i d s _ refl (
        sym (
          on_way-send i s.loop r s.messages q
          ∙ ap (λ l. on_way i s.loop s.messages ++ l) (not_sent i r other)
          ∙ append-nil (on_way i s.loop s.messages))))
      h
Step-Stands i {s} (receive r e q) k h =
    Stands-same i (s.calls i) s _ refl (ap₂ (on_way i) e q ∙ on_way-receive i r) h
Step-Stands i {s} (publish r a e) k h = publish-Stands i (s.calls i) s r a e h
Step-Stands i {s} (hear j p a e q) k h =
    changed i j (awaiting p) (finished p a) s _ e
      (λ g same.
        let m : j ≡ i = ground arith in
        Stands-same i (finished p a) s (record s { calls = set_call j (finished p a) s.calls }) refl
          refl (hear-Stands i p a s (ap (λ x. answer_to x s.log) (sym m) ∙ q) g))
      (λ d other. Stands-same i d s _ refl refl) h
Step-Stands i {s} (close e q) k h = Stands-same i (s.calls i) s _ refl refl h
Step-Stands i {s} (stop_offering j p x e q) k h =
    changed i j (offering p) (finished p (some x)) s _ e (λ g same. inl g)
      (λ d other. Stands-same i d s _ refl refl) h
Step-Stands i {s} (stop_awaiting j p x e q) k h =
    changed i j (awaiting p) (finished p (some x)) s _ e (λ g same. inr g)
      (λ d other. Stands-same i d s _ refl refl) h
Step-Stands i {s} (disconnect e) k h =
    Stands-same i (s.calls i) s _ refl (ap (λ l. on_way i l s.messages) e) h
Step-Stands i {s} (connect e) k h =
    Stands-same i (s.calls i) s _ refl (ap (λ l. on_way i l s.messages) (k e)) h
Step-Stands i {s} (connect_in_vain e) k h = Stands-same i (s.calls i) s _ refl refl h
Step-Stands i {s} (end_session e l done) k h = Stands-same i (s.calls i) s _ refl refl h

Step-IsIdle : {s t : System} → Step s t → IsIdle s → IsIdle t
Step-IsIdle (call_outside j p e) k = k
Step-IsIdle (call_inside j p e q) k = k
Step-IsIdle (send j p e q) k = k
Step-IsIdle (receive r e q) k = λ f. absurd (ground (arith, k f))
Step-IsIdle (publish r a e) k = λ f. absurd (ground (arith, k f))
Step-IsIdle (hear j p a e q) k = k
Step-IsIdle (close e q) k = k
Step-IsIdle (stop_offering j p x e q) k = k
Step-IsIdle (stop_awaiting j p x e q) k = k
Step-IsIdle (disconnect e) k = λ f. refl
Step-IsIdle (connect e) k = λ f. absurd (ground arith)
Step-IsIdle (connect_in_vain e) k = λ f. k e
Step-IsIdle (end_session e l done) k = λ f. l

Reach-Stands : (i : ℕ) {s : System} → Reach start s → IsIdle s × Stands i (s.calls i) s
Reach-Stands i here = (λ f. refl, refl)
Reach-Stands i (next r step) =
    let (k, h) = Reach-Stands i r in (Step-IsIdle step k, Step-Stands i step k h)

no_message :
    (log : List (Publishing × Option Error)) (way : List Publishing)
    → map (λ q. q.0) log ++ way ≡ []
    → log ≡ []
no_message [] way h = refl
no_message (x ∷ log) way h = absurd (ground arith)

one_message :
    (p : Publishing) (log : List (Publishing × Option Error)) (way : List Publishing)
    → map (λ q. q.0) log ++ way ≡ p ∷ []
    → (log ≡ []) ⊎ ((a : Option Error) × (log ≡ (p, a) ∷ []))
one_message p [] way h = inl refl
one_message p ((m, a) ∷ []) way h = inr (a, ground arith)
one_message p (x ∷ y ∷ log) way h = absurd (ground arith)

told :
    (i : ℕ) (s : System) (p : Publishing) (r : Option Error)
    → Stands i (finished p r) s
    → Told p r (own_log i s.log)
told i s p none (h, k) = h
told i s p (some e) (inl h) = inl (no_message (own_log i s.log) (on_way i s.loop s.messages) h)
told i s p (some e) (inr h) = one_message p (own_log i s.log) (on_way i s.loop s.messages) h

-- Whatever calls, connections and answers of the broker come together: a call of `Requeue` that returns no
-- error has had its own message published exactly once, and the broker took it; one that returns an error
-- has had it published once at most.
pub each_hears_its_own :
    (s : System) (i : ℕ) (p : Publishing) (r : Option Error)
    → Reach start s
    → s.calls i ≡ finished p r
    → Told p r (own_log i s.log)
each_hears_its_own s i p r reach e =
    told i s p r (subst (λ c. Stands i c s) e (Reach-Stands i reach).1)

unheard : (i : ℕ) (log : List Entry) → own_log i log ≡ [] → answer_to i log ≡ none
unheard i [] h = refl
unheard i (x ∷ log) h = elim (Bool-cases (eqb x.request.call i)) [
  | inl same ↦ absurd (ground arith)
  | inr other ↦ ground (arith, unheard i log (ground arith))
]

none_before :
    (log : List (Publishing × Option Error)) (p : Publishing)
    → map (λ q. q.0) log ++ p ∷ [] ≡ p ∷ []
    → log ≡ []
none_before [] p h = refl
none_before (x ∷ []) p h = absurd (ground arith)
none_before (x ∷ y ∷ log) p h = absurd (ground arith)

own_self : (i : ℕ) (p : Publishing) → own i (record { call = i; msg = p }) ≡ p ∷ []
own_self i p = ground arith

-- A message that still lies in the channel has no answer.
pub queued_unanswered :
    (s : System) (i : ℕ) (p : Publishing)
    → Reach start s
    → s.calls i ≡ awaiting p
    → s.loop ≡ waiting
    → s.messages ≡ some (record { call = i; msg = p })
    → answer_to i s.log ≡ none
queued_unanswered s i p reach w l q =
    let stands = subst (λ c. Stands i c s) w (Reach-Stands i reach).1 in
    let way =
      ap₂ (on_way i) l q ∙ append-nil (own i (record { call = i; msg = p })) ∙ own_self i p in
    unheard i s.log (
      none_before (own_log i s.log) p
        (sym (ap (λ x. map (λ q. q.0) (own_log i s.log) ++ x) way) ∙ stands))
