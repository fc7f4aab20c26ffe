-- ===== src/Exec/Status.antt =====
-- cmd/amqp-exec/main.go: what the exit status of the application decides.
use fluent_amqp.Base.{ℕ, String, ◌≡◌, refl, Bool, true, false, List, Option, none, some}
use fluent_amqp.Amqp.{Error, Delivery}
use fluent_amqp.Queue.{MessageQueue}
use fluent_amqp.Writer.{WriterConfig, Outgoing}
use fluent_amqp.Exec.{Handler, Attempt, handle}
use fluent_amqp.Exec.Process.{exited, run_application, run_multi_line_application, handle_process}

-- An application that has started and ends with an error status: without the multiline option the handler
-- fails with this error and publishes nothing; with it the handler does, on every output, what it does when
-- the status is good.
status_lem :
    (attempt : ℕ → List ℕ → Attempt) (scan : List ℕ → List (List ℕ)) (env : String → String)
    (string_of : List ℕ → String) (h : Handler) (wc : WriterConfig) (msg : Delivery) (e : Error)
    (out : List ℕ) (q : MessageQueue Outgoing)
    → let handler = λ (multi : Bool) (status : Option Error).
      handle_process attempt scan env string_of
        (record h { multi_line = multi })
        wc
        msg
        (exited status out)
        q in
      (handler false (some e) ≡ some (some e, q)) × (handler true (some e) ≡ handler true none)
unfolding handle_process handle run_application run_multi_line_application
status_lem attempt scan env string_of h wc msg e out q = (refl, refl)
