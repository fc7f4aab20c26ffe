-- ===== src/Server/Session/Tests.antt =====
-- A connection whose first channel is refused its settings, and the end of its session.
use fluent_amqp.Base.{◌≡◌, ◌≢◌, ◌≤◌, refl, true, List, [], ◌∷◌, All, none, some, arith}
use fluent_amqp.Server.Session.{
  Call, open_channel, set_qos, close_channel, cancel_context, done, goroutine, looping, returned,
  Session, established, here, spawn, work, loop_end, leave, Reach, stay, next,
}
use fluent_amqp.Server.Session.Clean.{total, channels_opened, channels_closed, channels_are_closed}
use fluent_amqp.Server.Session.Returns.{goroutines_ended, one_end_ends_all}
use fluent_amqp.Server.Session.Onward.{Onward, IsOwn, IsAny, IsHeld}

-- What the goroutine does: its channel is closed again.
abbrev calls : List Call
calls = open_channel none ∷ set_qos ∷ close_channel ∷ cancel_context ∷ done ∷ []

calls_lem : goroutine none (some "refused") ≡ calls
unfolding goroutine
calls_lem = refl

abbrev worked : Session
worked = record { stage = looping; routines = [] ∷ []; trail = calls; is_cancelled = true }

abbrev over : Session
over = record worked { stage = returned }

work_done : Reach established worked
unfolding goroutine
work_done =
    let s0 = next stay (spawn established none (some "refused") refl) in
    let s1 = next s0 (work _ (open_channel none) _ here) in
    let s2 = next s1 (work _ set_qos _ here) in
    let s3 = next s2 (work _ close_channel _ here) in
    let s4 = next s3 (work _ cancel_context _ here) in next s4 (work _ done _ here)

session_over : Reach established over
session_over = next (next work_done (loop_end worked refl refl)) (leave _ refl (refl, tt))

channels_are_closed_example :
    (over.is_cancelled ≡ true)
    × All (λ r. r ≡ []) over.routines
    × (channels_closed over.trail ≡ channels_opened over.trail)
channels_are_closed_example = channels_are_closed over session_over refl

one_ended : 1 ≤ goroutines_ended worked.trail
unfolding total
one_ended = omega arith

one_end_ends_all_example :
    (worked.is_cancelled ≡ true)
    × ((t : Session) × Onward IsOwn worked t
        × (t.stage ≢ looping)
        × (t.is_cancelled ≡ true)
        × All IsHeld t.routines
        × ((u : Session) × Onward IsAny t u
            × (u.stage ≡ returned)
            × (channels_closed u.trail ≡ channels_opened u.trail)))
one_end_ends_all_example = one_end_ends_all worked work_done one_ended
