-- ===== src/Server/Life.antt =====
-- amqp.go, `start`, `onIdle` and `onReady` against the diagram docs/connection_state.dot.
use fluent_amqp.Base.{◌≡◌, refl, ap, List, [], ◌∷◌, Bool, true, false, Option, none, some}
use fluent_amqp.Amqp.{Error}
use fluent_amqp.Server.{
  State, ready, connection_established, disconnected, idle, finished, Wait, elapsed, cancelled,
  on_ready, idle_loop, start,
}

-- The arrows of the diagram between these states; its two states of channels stand between
-- `connection_established` and `disconnected`.
pub data Arrow : State → State → Type 0 where
  waited : Arrow idle ready
  dial_failed : Arrow ready idle
  dialed : Arrow ready connection_established
  lost : Arrow connection_established disconnected
  wait_delay : Arrow disconnected idle
  shutdown : Arrow idle finished

abbrev pub Follows : State → List State → Type 0
Follows s [] = Unit
Follows s (t ∷ ts) = Arrow s t × Follows t ts

-- The error of the first wait that the context ended.
abbrev pub first_cancelled : List Wait → Option Error
first_cancelled [] = none
first_cancelled (cancelled e ∷ waits) = some e
first_cancelled (elapsed reached ∷ waits) = first_cancelled waits

idle_loop-Follows :
    (waits : List Wait)
    → (rest : List State) × ((idle_loop waits).0 ≡ idle ∷ rest)
      × Follows idle rest
      × ((idle_loop waits).1 ≡ first_cancelled waits)
unfolding idle_loop on_ready
idle_loop-Follows [] = ([], refl, tt, refl)
idle_loop-Follows (cancelled e ∷ waits) = (finished ∷ [], refl, (shutdown, tt), refl)
idle_loop-Follows (elapsed false ∷ waits) =
    let (rest, e, f, end) = idle_loop-Follows waits in
    (ready ∷ idle ∷ rest, ap (λ l. idle ∷ ready ∷ l) e, (waited, (dial_failed, f)), end)
idle_loop-Follows (elapsed true ∷ waits) =
    let (rest, e, f, end) = idle_loop-Follows waits in
    (
      ready ∷ connection_established ∷ disconnected ∷ idle ∷ rest,
      ap (λ l. idle ∷ ready ∷ connection_established ∷ disconnected ∷ l) e,
      (waited, (dialed, (lost, (wait_delay, f)))),
      end,
    )

-- A server passes from `ready` along the arrows of the diagram, whatever its dials and its waits bring;
-- and `start` returns exactly when a wait is ended by the context, with the first such error.
pub start-Follows :
    (reached : Bool) (waits : List Wait)
    → (rest : List State) × ((start reached waits).0 ≡ ready ∷ rest)
      × Follows ready rest
      × ((start reached waits).1 ≡ first_cancelled waits)
unfolding start on_ready
start-Follows false waits =
    let (rest, e, f, end) = idle_loop-Follows waits in
    (idle ∷ rest, ap (λ l. ready ∷ l) e, (dial_failed, f), end)
start-Follows true waits =
    let (rest, e, f, end) = idle_loop-Follows waits in
    (
      connection_established ∷ disconnected ∷ idle ∷ rest,
      ap (λ l. ready ∷ connection_established ∷ disconnected ∷ l) e,
      (dialed, (lost, (wait_delay, f))),
      end,
    )
