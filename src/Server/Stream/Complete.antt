-- ===== src/Server/Stream/Complete.antt =====
-- Every connection gets every handler, once and in the order of `handle`.
use fluent_amqp.Base.{
  ℕ, suc, ◌<◌, ◌≤◌, ◌≡◌, refl, sym, subst, ap₂, ◌∙◌, ap, ◌⊎◌, inl, inr, Bool, true, List, [], ◌∷◌,
  ◌++◌, length, length-append, append_assoc, append-nil, some, arith,
}
use fluent_amqp.Server.Stream.{
  Streamer, reading, sending, waiting, stopped, System, handler_at, connection, Step, append,
  notify, read, emit, sent, wake, cancel_send, cancel_wait, Reach, here, next,
}

module _ {ℓ} {H : Type ℓ} where
  -- A refresh is on its way.
  abbrev pub IsNotified : System H → Type 0
  IsNotified s = (s.refresh ≡ true) ⊎ (0 < s.adding)

  -- Handlers beyond the first `n` are announced.
  abbrev pub Announced : ℕ → System H → Type 0
  Announced n s = n < length s.handlers → IsNotified s

  abbrev pub Stands : Streamer → System H → Type 0
  Stands (reading n) s = length s.streamed ≡ n
  Stands (sending i target) s =
      (length s.streamed ≡ i) × (i ≤ target) × (target ≤ length s.handlers) × Announced target s
  Stands (waiting n) s = (length s.streamed ≡ n) × Announced n s
  Stands stopped s = Unit

  abbrev pub IsSound : System H → Type ℓ
  IsSound s = ((rest : List H) × (s.handlers ≡ s.streamed ++ rest)) × Stands s.streamer s

  next_handler :
      (done rest : List H) (h : H)
      → handler_at (length done) (done ++ rest) ≡ some h
      → (rest' : List H) × (rest ≡ h ∷ rest')
  unfolding handler_at
  next_handler [] [] h e = absurd (ground arith)
  next_handler [] (x ∷ rest) h e = (rest, ground arith)
  next_handler (x ∷ done) rest h e = next_handler done rest h e

  append-Stands :
      (p : Streamer) (s : System H) (h : H)
      → Stands p s
      → Stands p (record s { handlers = s.handlers ++ h ∷ []; adding = suc s.adding })
  append-Stands (reading n) s h e = e
  append-Stands (sending i target) s h (e, l, m, a) =
      (e, l, omega (arith, m, length-append s.handlers (h ∷ [])), λ _. inr (omega arith))
  append-Stands (waiting n) s h (e, a) = (e, λ _. inr (omega arith))
  append-Stands stopped s h e = tt

  notify-Stands :
      (p : Streamer) (s : System H) (n : ℕ)
      → Stands p s
      → Stands p (record s { adding = n; refresh = true })
  notify-Stands (reading n) s k e = e
  notify-Stands (sending i target) s k (e, l, m, a) = (e, l, m, λ _. inl refl)
  notify-Stands (waiting n) s k (e, a) = (e, λ _. inl refl)
  notify-Stands stopped s k e = tt

  Step-IsSound : {s t : System H} → Step s t → IsSound s → IsSound t
  Step-IsSound {s} (append h) ((rest, e), p) = (
    (rest ++ h ∷ [], ap (λ hs. hs ++ h ∷ []) e ∙ append_assoc s.streamed rest (h ∷ [])),
    append-Stands s.streamer s h p,
  )
  Step-IsSound {s} (notify n a) (split, p) = (split, notify-Stands s.streamer s n p)
  Step-IsSound {s} (read num at_top) ((rest, e), p) =
      let n = subst (λ q. Stands q s) at_top p in
      (
        (rest, e),
        (
          n,
          omega (arith, ap length e ∙ length-append s.streamed rest),
          omega arith,
          λ l. absurd (omega arith),
        ),
      )
  Step-IsSound {s} (emit i target h at_send l get) ((rest, e), p) =
      let (n, m, k, a) = subst (λ q. Stands q s) at_send p in
      let (rest', split) = next_handler s.streamed rest h (ap₂ handler_at n (sym e) ∙ get) in
      (
        (rest', e ∙ ap (λ r. s.streamed ++ r) split ∙ sym (append_assoc s.streamed (h ∷ []) rest')),
        (omega (arith, n, length-append s.streamed (h ∷ [])), omega arith, k, a),
      )
  Step-IsSound {s} (sent i target at_send l) (split, p) =
      let (n, m, k, a) = subst (λ q. Stands q s) at_send p in (split, (omega arith, a))
  Step-IsSound {s} (wake num at_wait r) (split, p) = (split, (subst (λ q. Stands q s) at_wait p).0)
  Step-IsSound (cancel_send i target at_send l) (split, p) = (split, tt)
  Step-IsSound (cancel_wait num at_wait) (split, p) = (split, tt)

  Reach-IsSound : {s t : System H} → Reach s t → IsSound s → IsSound t
  Reach-IsSound here sound = sound
  Reach-IsSound (next r step) sound = Step-IsSound step (Reach-IsSound r sound)

  all_or_IsNotified :
      (s : System H) (rest : List H)
      → s.handlers ≡ s.streamed ++ rest
      → {n : ℕ} → Stands (waiting n) s
      → (s.streamed ≡ s.handlers) ⊎ IsNotified s
  all_or_IsNotified s [] e p = inl (sym (append-nil s.streamed) ∙ sym e)
  all_or_IsNotified s (h ∷ rest) e (n, a) =
      inr (a (omega (arith, n, ap length e ∙ length-append s.streamed (h ∷ rest))))

  -- On a connection that finds any handlers, token and calls of `handle` under way, after any interleaving:
  -- what has been streamed is a beginning of the list of handlers, so each is started once, in the order of
  -- `handle`; and while the stream waits for a refresh, either all handlers have been streamed, or a token
  -- lies in the channel, or a call of `handle` is yet to send one.
  pub every_handler_streamed :
      (hs : List H) (refresh : Bool) (adding : ℕ) (s : System H)
      → Reach (connection hs refresh adding) s
      → ((rest : List H) × (s.handlers ≡ s.streamed ++ rest))
        × ((n : ℕ)
            → s.streamer ≡ waiting n
            → (s.streamed ≡ s.handlers) ⊎ ((s.refresh ≡ true) ⊎ (0 < s.adding)))
  every_handler_streamed hs refresh adding s r =
      let ((rest, e), p) = Reach-IsSound r ((hs, refl), refl) in
      ((rest, e), λ n at_wait. all_or_IsNotified s rest e (subst (λ q. Stands q s) at_wait p))
