-- ===== src/Exec/Tests.antt =====
-- The replies to a message with two lines of output and an empty one between them.
use fluent_amqp.Base.{
  ℕ, String, false, true, ◌≡◌, ◌≢◌, refl, List, [], ◌∷◌, none, arith, gather, eq_iff,
}
use fluent_amqp.Base.Int.{pos}
use fluent_amqp.Amqp.{Delivery}
use fluent_amqp.Queue.{zero_queue}
use fluent_amqp.Writer.{new_writer, Message, no_publishing}
use fluent_amqp.Writer.Publish.{arrives}
use fluent_amqp.Exec.{Handler, Attempt, add_headers, send_lines}
use fluent_amqp.Exec.Order.{Reordered, swap, headers_of, headless, order_is_forgotten}
use fluent_amqp.Exec.Replies.{Answered, bodies, send_lines_answers}

abbrev asked : Delivery
asked = record {
  headers = none;
  content_type = "";
  content_encoding = "";
  correlation_id = "42";
  reply_to = "answers";
  message_id = "";
  timestamp = pos 0;
  type = "";
  routing_key = "";
  body = [];
}

abbrev plain : Handler
plain = record {
  auto_reply = false;
  empty_publish = false;
  multi_line = true;
  copy_text = "question";
  export_env = "HOME" ∷ [];
  headers = ("by", "exec") ∷ [];
}

abbrev line : List ℕ → Attempt
line content = record { data_sent = content; now = pos 1; channel = 5; wait = arrives tt }

abbrev output : List Attempt
output = line (1 ∷ []) ∷ line [] ∷ line (2 ∷ []) ∷ []

env : String → String
env name = "/home"

string_of : List ℕ → String
string_of content = ""

names_queue : asked.reply_to ≢ ""
names_queue = λ e. ground (arith, eq_iff asked.reply_to "")

send_lines_answers_example :
    Answered asked zero_queue
      (gather (bodies plain) output)
      (send_lines env string_of plain new_writer asked output zero_queue)
unfolding new_writer
send_lines_answers_example =
    send_lines_answers env string_of plain new_writer asked refl names_queue output zero_queue
      (refl, (refl, (refl, tt))) tt

bodies_sent : gather (bodies plain) output ≡ (1 ∷ []) ∷ (2 ∷ []) ∷ []
bodies_sent = refl

abbrev blank : Message
blank = record { msg = no_publishing; exchange = ""; key = "" }

by_then_to : Reordered (("by", "exec") ∷ ("to", "all") ∷ []) (("to", "all") ∷ ("by", "exec") ∷ [])
by_then_to = swap (λ e. ground (arith, eq_iff "by" "to"))

order_is_forgotten_example :
    (headers_of (add_headers (("by", "exec") ∷ ("to", "all") ∷ []) blank)
      ≡ headers_of (add_headers (("to", "all") ∷ ("by", "exec") ∷ []) blank))
    × (headless (add_headers (("by", "exec") ∷ ("to", "all") ∷ []) blank)
        ≡ headless (add_headers (("to", "all") ∷ ("by", "exec") ∷ []) blank))
order_is_forgotten_example =
    order_is_forgotten (("by", "exec") ∷ ("to", "all") ∷ []) (("to", "all") ∷ ("by", "exec") ∷ [])
      blank by_then_to
