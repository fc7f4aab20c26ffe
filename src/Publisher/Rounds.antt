-- ===== src/Publisher/Rounds.antt =====
-- Each part of a round of the loop keeps the books.
use fluent_amqp.Base.{
  ℕ, ◌≡◌, ◌≢◌, refl, sym, gather, gather-append, ◌∙◌, ap, ap₂, true, false, List, [], ◌∷◌, ◌++◌,
  Option, none, some, arith, head?, tail, length, inl, inr, Bool-cases, ◌==◌, append_assoc,
  append-nil,
}
use fluent_amqp.Amqp.{Error}
use fluent_amqp.Writer.{WriterConfig, Outgoing}
use fluent_amqp.Queue.{MessageQueue, len, peek, receive, commit, put}
use fluent_amqp.Queue.Refine.{
  IsValid, contents, put_lem, peek_lem, commit_lem, len_lem, receive_lem,
}
use fluent_amqp.Publisher.{
  Effect, declared, overflowed, published, tried, closed, Point, returned, top, peeking, publishing,
  Publisher, check_overflow, check, poll, answer, seek, on_stream, connect, drop_front,
}
use fluent_amqp.Publisher.Books.{
  settled_by, settled, signal_of, due, Inv, Keeps, quiet-Inv, stream-Inv, moved-Inv, on_stream_lem,
  head?-append, uncons,
}

module _ (cfg : WriterConfig) where
  check_overflow-Inv :
      (ms : List Outgoing) (n : ℕ) (p : Publisher) → Inv ms p → Inv ms (check_overflow cfg n p)
  unfolding check_overflow
  check_overflow-Inv ms n p i = ground (
    arith,
    moved-Inv ms p (record p { overflow = false }) i refl refl i.held,
    quiet-Inv ms (record p { overflow = true }) (overflowed n) (refl, refl, refl)
        (moved-Inv ms p (record p { overflow = true }) i refl refl i.held),
  )

  pub check-Keeps : (ms : List Outgoing) (p : Publisher) → Inv ms p → Keeps ms (check cfg p)
  unfolding check
  check-Keeps ms p i =
      let (q, e, v, same) = len_lem p.stream i.valid in
      let p' : Publisher =
        check_overflow cfg (length (contents p.stream)) (record p { stream = q }) in
      let j =
        check_overflow-Inv ms (length (contents p.stream)) (record p { stream = q })
          (stream-Inv ms p q v same i) in
      (
        record p' { point = peeking },
        on_stream_lem len (λ n r. some (record (check_overflow cfg n r) { point = peeking })) p _ q
            e,
        moved-Inv ms p' _ j refl refl (λ m k. cc),
      )

  pub connect-Inv :
      (ms : List Outgoing) (a : Option Error) (p : Publisher) → Inv ms p → Inv ms (connect cfg a p)
  unfolding connect
  connect-Inv ms a p i =
      let p' : Publisher = record p { overflow = false } in
      let e : Effect = declared cfg.exchange cfg.kind in
      let j = moved-Inv ms p p' i refl refl i.held in
      elim (Bool-cases (cfg.exchange == "")) [
        | inl none_named ↦ rw none_named (moved-Inv ms p _ i refl refl (λ m k. cc))
        | inr named ↦ rw named (
            moved-Inv ms _ _ (quiet-Inv ms p' e (refl, refl, refl) j) refl refl
              (λ m k. ground arith))
      ]

seek-Keeps :
    (ms : List Outgoing) (p : Publisher) (found : Option Outgoing)
    → head? (contents p.stream) ≡ found
    → Inv ms p
    → p.point ≡ peeking
    → Keeps ms (seek found p)
unfolding seek
seek-Keeps ms p (some m) h i pt =
    (record p { point = publishing m }, refl, moved-Inv ms p _ i refl refl (λ n k. ground arith))
seek-Keeps ms p none h i pt =
    let (b, q, e, v, same) = receive_lem p.stream i.valid in
    (
      record p { stream = q },
      on_stream_lem receive (λ _ r. some r) p b q e,
      stream-Inv ms p q v same i,
    )

pub poll-Keeps :
    (ms : List Outgoing) (p : Publisher) → p.point ≡ peeking → Inv ms p → Keeps ms (poll p)
unfolding poll
poll-Keeps ms p pt i =
    let (q, e, v, same) = peek_lem p.stream i.valid in
    let (p', f, j) =
      seek-Keeps ms (record p { stream = q }) (head? (contents p.stream)) (ap head? same)
        (stream-Inv ms p q v same i) pt in
    (p', on_stream_lem peek seek p _ q e ∙ f, j)

pub put-Keeps :
    (ms : List Outgoing) (m : Outgoing) (p : Publisher)
    → Inv ms p
    → Keeps (ms ++ m ∷ []) (on_stream (put m) (λ _ p'. some p') p)
put-Keeps ms m p i =
    let (q, e, v, same) = put_lem m p.stream i.valid in
    (
      record p { stream = q },
      on_stream_lem (put m) (λ _ r. some r) p _ q e,
      record {
        valid = v;
        books = rw (same, i.books) (append_assoc (settled p.log) (contents p.stream) (m ∷ []));
        held = λ n k. rw same (head?-append n m (contents p.stream) (i.held n k));
        signals = i.signals;
      },
    )

-- The end of a round: its effects, and what it settles taken off the queue.
round-Inv :
    (ms : List Outgoing) (p r : Publisher) (batch : List Effect)
    → Inv ms p
    → IsValid r.stream
    → contents p.stream ≡ settled batch ++ contents r.stream
    → r.log ≡ p.log ++ batch
    → gather signal_of batch ≡ gather due batch
    → ((n : Outgoing) → r.point ≢ publishing n)
    → Inv ms r
round-Inv ms p r batch i v e f h k = record {
  valid = v;
  books =
      rw
        (
          f,
          gather-append settled_by p.log batch,
          append_assoc (settled p.log) (settled batch) (contents r.stream),
        )
        (i.books ∙ ap (◌++◌ (settled p.log)) e);
  held = λ n q. absurd (k n q);
  signals =
      rw (f, gather-append signal_of p.log batch, gather-append due p.log batch)
        (ap₂ ◌++◌ i.signals h);
}

pub drop_front_lem :
    (p : Publisher) (q : MessageQueue Outgoing)
    → commit p.stream ≡ some (tt, q)
    → drop_front p ≡ some (record p { stream = q })
unfolding drop_front
drop_front_lem p q e = on_stream_lem commit (λ _ r. some r) p tt q e

abbrev pub snoc : List Effect → List Effect → List Effect
snoc log [] = log
snoc log (e ∷ es) = snoc (log ++ e ∷ []) es

pub snoc-append : (log es : List Effect) → snoc log es ≡ log ++ es
snoc-append log [] = sym (append-nil log)
snoc-append log (e ∷ es) = snoc-append (log ++ e ∷ []) es ∙ append_assoc log (e ∷ []) es

-- The publisher after a round with the effects `batch`.
abbrev pub ended : Publisher → List Effect → MessageQueue Outgoing → Point → Publisher
ended p batch q point = record {
  stream = q;
  overflow = p.overflow;
  point = point;
  log = snoc p.log batch;
}

pub answer-Keeps :
    (ms : List Outgoing) (p : Publisher) (m : Outgoing) (err : Option Error)
    → Inv ms p
    → head? (contents p.stream) ≡ some m
    → Keeps ms (answer m err p)
unfolding answer
answer-Keeps ms p m err i first = go m.try err m.done refl refl
  where
    done :
        (q : MessageQueue Outgoing) × (commit p.stream ≡ some (tt, q))
        × IsValid q
        × (contents q ≡ tail (contents p.stream))
    done = commit_lem p.stream i.valid

    split : contents p.stream ≡ m ∷ contents done.0
    split = uncons m (contents p.stream) first ∙ ap (◌∷◌ m) (sym done.3)

    dropped :
        (batch : List Effect)
        → drop_front (ended p batch p.stream p.point) ≡ some (ended p batch done.0 p.point)
    dropped batch = drop_front_lem (ended p batch p.stream p.point) done.0 done.1

    settles :
        (batch : List Effect) (point : Point)
        → settled batch ≡ m ∷ []
        → gather signal_of batch ≡ gather due batch
        → ((n : Outgoing) → point ≢ publishing n)
        → Inv ms (ended p batch done.0 point)
    settles batch point e h k =
        round-Inv ms p _ batch i done.2 (rw e split) (snoc-append p.log batch) h k

    go :
        (try : Option ℕ) (err : Option Error) (done : Option ℕ)
        → m.try ≡ try
        → m.done ≡ done
        → Keeps ms (answer m err p)
    go none none none a b =
        let batch : List Effect = published m none ∷ [] in
        (_, ground (arith, dropped batch), settles batch top refl (ground arith) (λ n q. cc))
    go none none (some d) a b =
        let batch : List Effect = published m none ∷ closed d ∷ [] in
        (_, ground (arith, dropped batch), settles batch top refl (ground arith) (λ n q. cc))
    go none (some e) d a b =
        let batch : List Effect = published m (some e) ∷ [] in
        (
          ended p batch p.stream (returned (some e)),
          ground arith,
          round-Inv ms p _ batch i i.valid (rw a) (snoc-append p.log batch) (ground arith)
              (λ n q. cc),
        )
    go (some c) none none a b =
        let batch : List Effect = published m none ∷ tried c none ∷ closed c ∷ [] in
        (_, ground (arith, dropped batch), settles batch top refl (ground arith) (λ n q. cc))
    go (some c) none (some d) a b =
        let batch : List Effect = published m none ∷ tried c none ∷ closed c ∷ closed d ∷ [] in
        (_, ground (arith, dropped batch), settles batch top refl (ground arith) (λ n q. cc))
    go (some c) (some e) d a b =
        let batch : List Effect = published m (some e) ∷ tried c (some e) ∷ closed c ∷ [] in
        (
          _,
          ground (arith, dropped batch),
          settles batch (returned (some e)) (ground arith) (ground arith) (λ n q. cc),
        )
