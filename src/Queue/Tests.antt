-- ===== src/Queue/Tests.antt =====
-- Runs of the message queue, and the theorems at concrete interleavings.
use fluent_amqp.Base.{
  ℕ, ◌<◌, ◌≡◌, refl, ◌≢◌, ◌⊎◌, Bool, true, false, List, [], ◌∷◌, ◌++◌, none, some, head?,
}
use fluent_amqp.Queue.{MessageQueue, zero_queue, push_back, front, len, peek, commit, put}
use fluent_amqp.Queue.Refine.{
  Op, puts, peeks, commits, lens, done, seen, size, IsValid, contents, call, run, run_spec,
  call_refines, run_refines,
}
use fluent_amqp.Queue.Wakeup
use fluent_amqp.Queue.Wakeup.{
  System, waiting, holding, start, Step, push, miss, Reach, here, next, Owed,
}
use fluent_amqp.Queue.Wakeup.Invariant.{no_lost_wakeup}
use fluent_amqp.Queue.Wakeup.Progress.{peek_returns}

abbrev script : List (Op ℕ)
script = peeks ∷ puts 4 ∷ puts 5 ∷ lens ∷ peeks ∷ commits ∷ peeks ∷ commits ∷ commits ∷ lens ∷ []

run-script :
    run script zero_queue
    ≡ some (
        seen none
        ∷ done
        ∷ done
        ∷ size 2
        ∷ seen (some 4)
        ∷ done
        ∷ seen (some 5)
        ∷ done
        ∷ done
        ∷ size 0
        ∷ [])
unfolding run put peek commit len
run-script = refl

run_refines_example : run script zero_queue ≡ some (run_spec script [])
run_refines_example = run_refines script

call_refines_example :
    (q' : MessageQueue ℕ) × (call (puts 9) zero_queue ≡ some (done, q'))
    × IsValid q'
    × (contents q' ≡ 9 ∷ [])
call_refines_example = call_refines (puts 9) zero_queue tt

-- The reader finds nothing and waits; a `Put` has pushed 7 and not signalled.
abbrev looked : System ℕ
looked = record start { reader = waiting }

abbrev raced : System ℕ
raced = record looked {
  queue = record { messages = some (7 ∷ []); notify = some false };
  pending = 1;
  pushed = 7 ∷ [];
}

Reach-raced : Reach start raced
unfolding push_back front
Reach-raced =
    next (next (next here (Wakeup.call refl refl)) (miss refl refl refl)) (push 7 refl refl)

no_lost_wakeup_example :
    (xs : List ℕ) × (token : Bool) × (raced.queue
      ≡ record { messages = some xs; notify = some token })
    × (raced.pushed ≡ raced.committed ++ xs)
    × (raced.reader ≡ waiting → xs ≢ [] → (token ≡ true) ⊎ (0 < raced.pending))
    × ((a : ℕ) → raced.reader ≡ holding a → head? xs ≡ some a)
no_lost_wakeup_example = no_lost_wakeup raced Reach-raced

peek_returns_example : (t : System ℕ) × Owed raced t × (t.reader ≡ holding 7) × (t.pushed ≡ 7 ∷ [])
peek_returns_example = peek_returns raced 7 [] Reach-raced refl refl
