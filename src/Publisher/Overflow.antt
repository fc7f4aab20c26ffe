-- ===== src/Publisher/Overflow.antt =====
-- The overflow handler is called once for each time that the queue grows past its limit.
use fluent_amqp.Base.{ℕ, ◌≡◌, refl, ◌∙◌, true, false, List, [], ◌∷◌, ◌++◌, arith, All, ap}
use fluent_amqp.Base.Int.{pos, ◌≤ℤ◌, ◌<ℤ◌}
use fluent_amqp.Writer.{WriterConfig}
use fluent_amqp.Publisher.{overflowed, Publisher, check_overflow}

module _ (cfg : WriterConfig) where
  -- The checks of some rounds of one connection, each with the length that it read.
  pub check_all : List ℕ → Publisher → Publisher
  check_all [] p = p
  check_all (n ∷ ns) p = check_all ns (check_overflow cfg n p)

  abbrev pub IsLow : ℕ → Type 0
  IsLow n = pos n <ℤ cfg.max_size

  abbrev pub IsHigh : ℕ → Type 0
  IsHigh n = cfg.max_size ≤ℤ pos n

  low : (n : ℕ) (p : Publisher) → IsLow n → check_overflow cfg n p ≡ record p { overflow = false }
  unfolding check_overflow
  low n p h = ground arith

  high_again : (n : ℕ) (p : Publisher) → IsHigh n → p.overflow ≡ true → check_overflow cfg n p ≡ p
  unfolding check_overflow
  high_again n p h o = ground arith

  high_first :
      (n : ℕ) (p : Publisher)
      → IsHigh n
      → p.overflow ≡ false
      → cfg.has_handler ≡ true
      → check_overflow cfg n p ≡ record p { overflow = true; log = p.log ++ overflowed n ∷ [] }
  unfolding check_overflow
  high_first n p h o k = ground arith

  All-high : (ns : List ℕ) (p : Publisher) → All IsHigh ns → p.overflow ≡ true → check_all ns p ≡ p
  unfolding check_all
  All-high [] p h o = refl
  All-high (n ∷ ns) p (h, hs) o = rw (high_again n p h o) (All-high ns p hs o)

  low_again : (n : ℕ) (p : Publisher) → IsLow n → p.overflow ≡ false → check_overflow cfg n p ≡ p
  unfolding check_overflow
  low_again n p h o = ground arith

  All-low : (ns : List ℕ) (p : Publisher) → All IsLow ns → p.overflow ≡ false → check_all ns p ≡ p
  unfolding check_all
  All-low [] p h o = refl
  All-low (n ∷ ns) p (h, hs) o = rw (low_again n p h o) (All-low ns p hs o)

  check_all-append :
      (ms ns : List ℕ) (p : Publisher) → check_all (ms ++ ns) p ≡ check_all ns (check_all ms p)
  unfolding check_all
  check_all-append [] ns p = refl
  check_all-append (m ∷ ms) ns p = check_all-append ms ns (check_overflow cfg m p)

  -- From a state with the flag down, which is how each connection starts: while the queue stays below
  -- the limit the handler is not called; at the first length that is not below it the handler is
  -- called with that length, and not again while the lengths stay there; the first length below the
  -- limit puts the flag down again, and nothing else changes.
  pub one_call_per_overflow :
      (ms ns : List ℕ) (n m : ℕ) (p : Publisher)
      → cfg.has_handler ≡ true
      → p.overflow ≡ false
      → All IsLow ms
      → IsHigh n
      → All IsHigh ns
      → IsLow m
      → check_all (ms ++ n ∷ (ns ++ m ∷ [])) p ≡ record p { log = p.log ++ overflowed n ∷ [] }
  one_call_per_overflow ms ns n m p k o lows first highs last =
      check_all-append ms (n ∷ (ns ++ m ∷ [])) p
      ∙ ap (check_all (n ∷ (ns ++ m ∷ []))) (All-low ms p lows o)
      ∙ called
    where
      raised : Publisher
      raised = record p { overflow = true; log = p.log ++ overflowed n ∷ [] }

      lowered : check_all (m ∷ []) raised ≡ record p { log = p.log ++ overflowed n ∷ [] }
      lowered = unfold check_all in (low m raised last ∙ ground arith)

      called : check_all (n ∷ (ns ++ m ∷ [])) p ≡ record p { log = p.log ++ overflowed n ∷ [] }
      called =
          unfold check_all in
          (ap (check_all (ns ++ m ∷ [])) (high_first n p first o k)
            ∙ check_all-append ns (m ∷ []) raised
            ∙ ap (check_all (m ∷ [])) (All-high ns raised highs refl)
            ∙ lowered)
