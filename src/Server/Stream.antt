-- ===== src/Server/Stream.antt =====
-- amqp.go, `handle` and `streamHandlers`: handlers may be added at any time, and each connection gets
-- them all. A step is one read, append or channel operation; any number of goroutines may be in `handle`.
pub mod Complete
use fluent_amqp.Base.{
  ℕ, suc, zero, ◌+◌, ◌<◌, ◌≤◌, ◌≡◌, refl, sym, ◌∙◌, ap, ◌⊎◌, inl, inr, Bool, true, false, List, [],
  ◌∷◌, ◌++◌, length, length-append, append_assoc, append-nil, Option, none, some, arith,
}

-- Where the goroutine of `streamHandlers` stands: at the top of its loop, with `num`; in the inner loop,
-- with `i` and `targetNum`; in the wait for a refresh, with `num`; at its end.
pub data Streamer : Type 0 where
  reading : ℕ → Streamer
  sending : (i target : ℕ) → Streamer
  waiting : ℕ → Streamer
  stopped : Streamer

-- `refresh` says whether a token lies in `refreshHandlers`, which has one place; `adding` counts the calls
-- of `handle` that have appended and not yet sent their token; `streamed` is what has come out.
pub record System {ℓ} (H : Type ℓ) : Type ℓ where
  pub handlers : List H
  pub refresh : Bool
  pub adding : ℕ
  pub streamer : Streamer
  pub streamed : List H

module _ {ℓ} {H : Type ℓ} where
  -- `brk.handlers[i]`
  unfoldable pub handler_at : ℕ → List H → Option H
  handler_at i [] = none
  handler_at zero (h ∷ hs) = some h
  handler_at (suc i) (h ∷ hs) = handler_at i hs

  -- A new connection, whatever was added before it and is being added.
  abbrev pub connection : List H → Bool → ℕ → System H
  connection handlers refresh adding = record {
    handlers = handlers;
    refresh = refresh;
    adding = adding;
    streamer = reading 0;
    streamed = [];
  }

  pub data Step (s : System H) : System H → Type ℓ where
    append : (h : H) → Step s (record s { handlers = s.handlers ++ h ∷ []; adding = suc s.adding })
    -- a send that does not wait: a second token is dropped
    notify : (n : ℕ) → s.adding ≡ suc n → Step s (record s { adding = n; refresh = true })
    read :
        (num : ℕ)
        → s.streamer ≡ reading num
        → Step s (record s { streamer = sending num (length s.handlers) })
    emit :
        (i target : ℕ) (h : H)
        → s.streamer ≡ sending i target
        → i < target
        → handler_at i s.handlers ≡ some h
        → Step s (record s { streamer = sending (suc i) target; streamed = s.streamed ++ h ∷ [] })
    sent :
        (i target : ℕ)
        → s.streamer ≡ sending i target
        → target ≤ i
        → Step s (record s { streamer = waiting target })
    wake :
        (num : ℕ)
        → s.streamer ≡ waiting num
        → s.refresh ≡ true
        → Step s (record s { streamer = reading num; refresh = false })
    cancel_send :
        (i target : ℕ)
        → s.streamer ≡ sending i target
        → i < target
        → Step s (record s { streamer = stopped })
    cancel_wait : (num : ℕ) → s.streamer ≡ waiting num → Step s (record s { streamer = stopped })

  pub data Reach (s : System H) : System H → Type ℓ where
    here : Reach s s
    next : {t u : System H} → Reach s t → Step t u → Reach s u
