-- ===== src/Publisher/Drain.antt =====
-- With a broker that takes every message the loop empties the queue, and publishes in the order of
-- the queue.
use fluent_amqp.Base.{
  ℕ, zero, suc, ◌≡◌, refl, ◌∙◌, ap, ap₂, gather, gather-append, List, [], ◌∷◌, ◌++◌, Option, none,
  some, arith, head?, tail, length, append-nil, append_assoc,
}
use fluent_amqp.Writer.{WriterConfig, Outgoing}
use fluent_amqp.Queue.{MessageQueue, len, peek, commit}
use fluent_amqp.Queue.Refine.{IsValid, contents, peek_lem, commit_lem, len_lem}
use fluent_amqp.Publisher.{
  Effect, overflowed, published, closed, tried, Point, top, peeking, publishing, Publisher, Event,
  checks, polls, answers, step, run, dispatch, check_overflow, check, poll, seek, answer,
  drop_front,
}
use fluent_amqp.Publisher.Books.{due, on_stream_lem}
use fluent_amqp.Publisher.Rounds.{drop_front_lem, snoc, snoc-append, ended}

-- The round of one message that the broker takes, and `n` such rounds.
abbrev pub rounds : ℕ → List Event
rounds zero = []
rounds (suc n) = checks ∷ polls ∷ answers none ∷ rounds n

-- The messages that the broker has taken, in order.
abbrev pub taken_by : Effect → List Outgoing
taken_by (published m none) = m ∷ []
taken_by _ = []

abbrev pub sent : List Effect → List Outgoing
sent = gather taken_by

-- A publisher that stands at `point` with `xs` queued, and has sent `ys`.
pub record Stands (point : Point) (xs ys : List Outgoing) (p : Publisher) : Type 0 where
  pub where_at : p.point ≡ point
  pub valid : IsValid p.stream
  pub queued : contents p.stream ≡ xs
  pub taken : sent p.log ≡ ys

module _ (cfg : WriterConfig) where
  stream-check_overflow : (n : ℕ) (p : Publisher) → (check_overflow cfg n p).stream ≡ p.stream
  unfolding check_overflow
  stream-check_overflow n p = ground arith

  sent-check_overflow : (n : ℕ) (p : Publisher) → sent (check_overflow cfg n p).log ≡ sent p.log
  unfolding check_overflow
  sent-check_overflow n p =
      ground (arith, gather-append taken_by p.log (overflowed n ∷ []), append-nil (sent p.log))

  abbrev Leads : Event → Publisher → Point → List Outgoing → List Outgoing → Type 0
  Leads e p point xs ys = (q : Publisher) × (step cfg e p ≡ some q) × Stands point xs ys q

  step-dispatch :
      (e : Event) (p : Publisher) (point : Point)
      → p.point ≡ point
      → step cfg e p ≡ dispatch cfg point e p
  unfolding step
  step-dispatch e p point t = ap (λ pt. dispatch cfg pt e p) t

  step_checks :
      (p : Publisher) (xs ys : List Outgoing) → Stands top xs ys p → Leads checks p peeking xs ys
  unfolding dispatch check
  step_checks p xs ys st =
      let (s, ran, v, same) = len_lem p.stream st.valid in
      let n = length (contents p.stream) in
      let r : Publisher = check_overflow cfg n (record p { stream = s }) in
      let kept : r.stream ≡ s = stream-check_overflow n (record p { stream = s }) in
      (
        record r { point = peeking },
        step-dispatch checks p top st.where_at
            ∙ on_stream_lem len
                (λ k r'. some (record (check_overflow cfg k r') { point = peeking })) p n s ran,
        record {
          where_at = refl;
          valid = rw kept v;
          queued = rw kept (same ∙ st.queued);
          taken = sent-check_overflow n (record p { stream = s }) ∙ st.taken;
        },
      )

  step_polls :
      (p : Publisher) (m : Outgoing) (xs ys : List Outgoing)
      → Stands peeking (m ∷ xs) ys p
      → Leads polls p (publishing m) (m ∷ xs) ys
  unfolding dispatch poll seek
  step_polls p m xs ys st =
      let (s, ran, v, same) = peek_lem p.stream st.valid in
      (
        record p { stream = s; point = publishing m },
        step-dispatch polls p peeking st.where_at
            ∙ on_stream_lem peek seek p (head? (contents p.stream)) s ran
            ∙ ap (λ found. seek found (record p { stream = s })) (ap head? st.queued),
        record { where_at = refl; valid = v; queued = same ∙ st.queued; taken = st.taken },
      )

  -- A message that the broker takes leaves the queue, whatever channels it has.
  takes :
      (p : Publisher) (m : Outgoing)
      → IsValid p.stream
      → (q : Publisher) × (answer m none p ≡ some q)
        × (q.point ≡ top)
        × IsValid q.stream
        × (contents q.stream ≡ tail (contents p.stream))
        × (q.log ≡ snoc p.log (published m none ∷ due (published m none)))
  unfolding answer
  takes p m v = go m.try m.done refl refl
    where
      end :
          (q : MessageQueue Outgoing) × (commit p.stream ≡ some (tt, q))
          × IsValid q
          × (contents q ≡ tail (contents p.stream))
      end = commit_lem p.stream v

      left : List Effect → Publisher
      left batch = ended p batch end.0 top

      dropped :
          (batch : List Effect)
          → drop_front (ended p batch p.stream p.point) ≡ some (ended p batch end.0 p.point)
      dropped batch = drop_front_lem (ended p batch p.stream p.point) end.0 end.1

      go :
          (try done : Option ℕ)
          → m.try ≡ try
          → m.done ≡ done
          → (q : Publisher) × (answer m none p ≡ some q)
            × (q.point ≡ top)
            × IsValid q.stream
            × (contents q.stream ≡ tail (contents p.stream))
            × (q.log ≡ snoc p.log (published m none ∷ due (published m none)))
      go none none a b =
          let batch : List Effect = published m none ∷ [] in
          (left batch, ground (arith, dropped batch), refl, end.2, end.3, rw (a, b))
      go none (some d) a b =
          let batch : List Effect = published m none ∷ closed d ∷ [] in
          (left batch, ground (arith, dropped batch), refl, end.2, end.3, rw (a, b))
      go (some c) none a b =
          let batch : List Effect = published m none ∷ tried c none ∷ closed c ∷ [] in
          (left batch, ground (arith, dropped batch), refl, end.2, end.3, rw (a, b))
      go (some c) (some d) a b =
          let batch : List Effect = published m none ∷ tried c none ∷ closed c ∷ closed d ∷ [] in
          (left batch, ground (arith, dropped batch), refl, end.2, end.3, rw (a, b))

  sent-due : (m : Outgoing) → sent (due (published m none)) ≡ []
  sent-due m = ground arith

  step_answers :
      (p : Publisher) (m : Outgoing) (xs ys : List Outgoing)
      → Stands (publishing m) (m ∷ xs) ys p
      → Leads (answers none) p top xs (ys ++ m ∷ [])
  unfolding dispatch
  step_answers p m xs ys st =
      let (q, ran, t, v, rest, log) = takes p m st.valid in
      (
        q,
        step-dispatch (answers none) p (publishing m) st.where_at ∙ ran,
        record {
          where_at = t;
          valid = v;
          queued = rest ∙ ap tail st.queued;
          taken =
              ap sent (log ∙ snoc-append p.log (published m none ∷ due (published m none)))
              ∙ gather-append taken_by p.log (published m none ∷ due (published m none))
              ∙ ap₂ (λ a b. a ++ m ∷ b) st.taken (sent-due m);
        },
      )

  -- From the top of the loop, with `xs` queued, the rounds of as many messages as there are in the
  -- queue, each taken by the broker, leave the queue empty and the loop at its top, and the broker has
  -- got `xs`, in this order, after what it got before.
  pub run_drains :
      (xs ys : List Outgoing) (p : Publisher)
      → Stands top xs ys p
      → (q : Publisher) × (run cfg (rounds (length xs)) p ≡ some q) × Stands top [] (ys ++ xs) q
  unfolding run
  run_drains [] ys p st = (p, refl, rw (append-nil ys) st)
  run_drains (m ∷ xs) ys p st =
      let (a, checked, sa) = step_checks p (m ∷ xs) ys st in
      let (b, polled, sb) = step_polls a m xs ys sa in
      let (c, answered, sc) = step_answers b m xs ys sb in
      let (q, ran, sq) = run_drains xs (ys ++ m ∷ []) c sc in
      (q, rw (checked, run, polled, run, answered, run) ran, rw (← append_assoc ys (m ∷ []) xs) sq)
