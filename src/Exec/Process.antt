-- ===== src/Exec/Process.antt =====
-- cmd/amqp-exec/main.go: the application of a message (makeCmd, runApplication, runMultiLineApplication).
use fluent_amqp.Base.{ℕ, suc, String, List, [], ◌∷◌, ◌++◌, Option, none, some}
use fluent_amqp.Base.Int.{ℤ}
use fluent_amqp.Base.Text.{◌+s◌, format_int}
use fluent_amqp.Amqp.{Error, Value, Table, entry, empty, Delivery}
use fluent_amqp.Queue.{MessageQueue}
use fluent_amqp.Writer.{WriterConfig, Outgoing}
use fluent_amqp.Exec.{Handler, Attempt, Ran, broke, printed, Started, not_started, lines, handle}

-- The command, with `cmd.Env` and `cmd.Stdin`.
pub record Command : Type 0 where
  pub app : String
  pub params : List String
  pub env : List String
  pub stdin : List ℕ

-- What becomes of a command: it does not start, or it ends, with the error of its exit status, if any, and
-- what it wrote.
pub data Process : Type 0 where
  unstarted : Error → Process
  exited : Option Error → List ℕ → Process

-- `os.Environ()`, `fmt.Sprint` and `Time.Unix`.
module _ (environ : List String) (sprint : Value → String) (unix : ℤ → ℤ) where
  -- the loop over the headers
  header_env : Table → List String
  header_env empty = []
  header_env (entry name value rest) = (name +s "=" +s sprint value) ∷ header_env rest

  headers_env : Option Table → List String
  unfolding header_env
  headers_env none = []
  headers_env (some t) = header_env t

  unfoldable pub make_cmd : String → List String → Delivery → Command
  unfolding headers_env
  make_cmd app params msg = record {
    app = app;
    params = params;
    env =
        environ
        ++ (("MESSAGE_ID=" +s msg.message_id)
            ∷ ("MESSAGE_TYPE=" +s msg.type)
            ∷ ("CONTENT_TYPE=" +s msg.content_type)
            ∷ ("SUBJECT=" +s msg.routing_key)
            ∷ ("TIMESTAMP=" +s format_int (unix msg.timestamp))
            ∷ ("CORRELATION_ID=" +s msg.correlation_id)
            ∷ headers_env msg.headers);
    stdin = msg.body;
  }

-- The call of `send` for the data of this number, and the lines that a `bufio.Scanner` finds.
module _ (attempt : ℕ → List ℕ → Attempt) (scan : List ℕ → List (List ℕ)) where
  unfoldable pub run_application : Process → Ran
  run_application (unstarted e) = broke e
  run_application (exited (some e) out) = broke e
  run_application (exited none out) = printed (attempt 0 out)

  numbered : ℕ → List (List ℕ) → List Attempt
  numbered n [] = []
  numbered n (line ∷ rest) = attempt n line ∷ numbered (suc n) rest

  -- `cmd.Wait` is called for its effect only
  unfoldable pub run_multi_line_application : Process → Started
  unfolding numbered
  run_multi_line_application (unstarted e) = not_started e
  run_multi_line_application (exited status out) = lines (numbered 0 (scan out))

  -- `Handle`, for the process that the command becomes
  unfoldable pub handle_process :
      (String → String)
      → (List ℕ → String)
      → Handler
      → WriterConfig
      → Delivery
      → Process
      → MessageQueue Outgoing
      → Option (Option Error × MessageQueue Outgoing)
  unfolding run_application run_multi_line_application
  handle_process env string_of h wc msg proc q =
      handle env string_of h wc msg (run_application proc) (run_multi_line_application proc) q
