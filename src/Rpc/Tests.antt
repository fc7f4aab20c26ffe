-- ===== src/Rpc/Tests.antt =====
-- The theorem of the replies with two requests, whose replies arrive in the other order and once twice.
use fluent_amqp.Base.{ℕ, String, ◌≡◌, refl, List, [], ◌∷◌, ◌++◌, none, some, arith, gather, eq_iff}
use fluent_amqp.Base.Int.{pos}
use fluent_amqp.Amqp.{Delivery}
use fluent_amqp.Writer.{new_writer, Message}
use fluent_amqp.Rpc.{
  Event, calls, arrives, new_rpc, run, delivered, closed, bytes_message, request, reply_bytes,
}
use fluent_amqp.Rpc.Channels.{on_channel, first_reply}
use fluent_amqp.Rpc.{finish}
use fluent_amqp.Rpc.Release.{closed_by_end, closed_once}
use fluent_amqp.Rpc.RoundTrip.{received_by, answer_of, round_trip}

abbrev reply_to : String → ℕ → Delivery
reply_to id n = record {
  headers = none;
  content_type = "";
  content_encoding = "";
  correlation_id = id;
  reply_to = "";
  message_id = "";
  timestamp = pos 0;
  type = "";
  routing_key = "";
  body = n ∷ [];
}

abbrev later : List Event
later =
    calls "b" (pos 2) (bytes_message (9 ∷ []))
    ∷ arrives (reply_to "b" 1)
    ∷ arrives (reply_to "a" 2)
    ∷ arrives (reply_to "a" 3)
    ∷ []

second_is_taken : first_reply "a" 0 later ≡ delivered 0 (reply_to "a" 2) ∷ closed 0 ∷ []
second_is_taken = refl

abbrev asked : List Event
asked = calls "a" (pos 1) (bytes_message (8 ∷ [])) ∷ calls "b" (pos 2) (bytes_message (9 ∷ [])) ∷ []

closed_once_example :
    gather
      (on_channel (run new_writer "replies" [] new_rpc).channels)
      (finish (run new_writer "replies" ([] ++ asked) new_rpc)).log
    ≡ closed_by_end (run new_writer "replies" [] new_rpc).channels (
        first_reply "a"
          (run new_writer "replies" [] new_rpc).channels
          (calls "b" (pos 2) (bytes_message (9 ∷ [])) ∷ []))
closed_once_example =
    closed_once new_writer "replies" [] (calls "b" (pos 2) (bytes_message (9 ∷ [])) ∷ []) "a"
      (pos 1) (bytes_message (8 ∷ [])) ((λ e. ground (arith, eq_iff "b" "a")), tt)

-- The broker hands over what was published.
abbrev carry : Message → Delivery
carry ms = record {
  headers = ms.msg.headers;
  content_type = ms.msg.content_type;
  content_encoding = ms.msg.content_encoding;
  correlation_id = ms.msg.correlation_id;
  reply_to = ms.msg.reply_to;
  message_id = ms.msg.message_id;
  timestamp = ms.msg.timestamp;
  type = ms.msg.type;
  routing_key = ms.key;
  body = ms.msg.body;
}

abbrev answer : Message
answer =
    answer_of new_writer (pos 4) (6 ∷ [])
      (carry (request new_writer "replies" "a" (pos 1) (bytes_message (8 ∷ []))))

abbrev exchange : List Event
exchange =
    (arrives (reply_to "a" 0) ∷ [])
    ++ calls "a" (pos 1) (bytes_message (8 ∷ []))
      ∷ ((arrives (reply_to "b" 1) ∷ []) ++ arrives (carry answer) ∷ arrives (reply_to "a" 3) ∷ [])

round_trip_example :
    (answer.exchange ≡ "")
    × (answer.key ≡ "replies")
    × (gather (on_channel 0) (run new_writer "replies" exchange new_rpc).log
        ≡ delivered 0 (carry answer) ∷ closed 0 ∷ [])
    × (reply_bytes (
          gather received_by
            (gather (on_channel 0) (run new_writer "replies" exchange new_rpc).log))
        ≡ some (6 ∷ []))
unfolding run fluent_amqp.Rpc.waiting_for
round_trip_example =
    round_trip carry (λ ms. (refl, refl, refl)) new_writer new_writer "replies"
      (arrives (reply_to "a" 0) ∷ []) (arrives (reply_to "b" 1) ∷ [])
      (arrives (reply_to "a" 3) ∷ []) "a" (pos 1) (pos 4) (bytes_message (8 ∷ [])) (6 ∷ [])
      ((λ e. ground (arith, eq_iff "b" "a")), tt) (tt, tt)
