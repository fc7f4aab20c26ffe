-- ===== src/Pipeline/Tests.antt =====
-- Two messages, and one that the first middleware refuses, with a toy cryptography whose file holds a key and
-- its certificate.
use fluent_amqp.Base.{
  ℕ, String, ◌≡◌, refl, true, false, List, [], ◌∷◌, map, length, gather, Option, none, some, ◌==◌,
  not, All, arith,
}
use fluent_amqp.Base.Int.{pos}
use fluent_amqp.Base.Text.{◌+s◌, bytes_of}
use fluent_amqp.Amqp.{Error, Delivery, lookup, insert, Value, bytes, text, entry, empty, lookup?}
use fluent_amqp.Queue.{zero_queue, put}
use fluent_amqp.Queue.Refine.{contents}
use fluent_amqp.Writer.{SenderHandler, WriterConfig, Outgoing, Message, new_writer, no_publishing}
use fluent_amqp.Writer as W
use fluent_amqp.Writer.Publish.{process_message, publish}
use fluent_amqp.Publisher.{connects, Publisher, fresh, run}
use fluent_amqp.Publisher.Drain.{rounds, sent}
use fluent_amqp.Sink.{SinkConfig, new_sink}
use fluent_amqp.Sink as S
use fluent_amqp.Sink.Consume.{handled, waiting, consume}
use fluent_amqp.Sink.Consume.Chain.{settled_by, taken}
use fluent_amqp.Config.{broker}
use fluent_amqp.Certs.{
  Crypto, Block, Found, found, rsa, load_private_key, load_certificate, signer_handle,
  validator_handle,
}
use fluent_amqp.Certs.Files.{default_signature_header, validating}
use fluent_amqp.Certs.Trust.{HoldsKey, HoldsCert, sign_lem, validate_lem}
use fluent_amqp.Pipeline.Publishing.{
  Post, Maps, Call, State, read, as_seen, AreApart, publish_all, accepted, Answers,
}
use fluent_amqp.Pipeline.Delivered.{IsNew, published_are_handled}

-- Each byte is a block: 0 a certificate, any other a private key.
kind : ℕ → String
kind ℕ.zero = "CERTIFICATE"
kind (ℕ.suc n) = "PRIVATE KEY"

decode : List ℕ → Option (Block × List ℕ)
unfolding kind
decode [] = none
decode (x ∷ xs) = some (record { type = kind x; content = x ∷ [] }, xs)

abbrev toy : Crypto
toy = record {
  Key = ℕ;
  Cert = ℕ;
  sha512 = λ content. content;
  rsa_sign = λ key digest. some (key ∷ digest);
  check_signature = λ cert content s. true;
  pem_decode = decode;
  parse_pkcs8 = λ content. some (rsa 5);
  parse_certificate = λ content. some 5;
}

abbrev disk : String → Found (List ℕ)
disk path = found (1 ∷ 0 ∷ [])

abbrev wrap : Error → String → Error
wrap e what = what +s ": " +s e

key_held : HoldsKey toy disk wrap "all.pem" 5
unfolding load_private_key decode
key_held = (1 ∷ 0 ∷ [], refl, refl)

cert_held : HoldsCert toy disk wrap "all.pem" 5
unfolding load_certificate decode
cert_held = (1 ∷ 0 ∷ [], refl, refl)

-- Refuses messages without an id.
abbrev named : SenderHandler
named m = some (not (m.message_id == ""), m)

abbrev plain : WriterConfig
unfolding W.add_handler new_writer
plain = W.add_handler named new_writer

abbrev signing : WriterConfig
unfolding W.add_handler
signing = W.add_handler (signer_handle toy default_signature_header 5) plain

abbrev checking : SinkConfig
unfolding S.add_handler new_sink broker
checking =
    S.add_handler (validating (validator_handle toy default_signature_header 5))
      (new_sink (broker []).sinks "orders")

abbrev message : String → ℕ → Message
message id content = record {
  msg = record no_publishing { message_id = id; body = content ∷ [] };
  exchange = "";
  key = "orders";
}

-- The first two messages have a header of their own.
abbrev maps : Maps
maps ℕ.zero = some (entry "kind" (text "order") empty)
maps (ℕ.suc ℕ.zero) = some empty
maps _ = none

abbrev calls : List Call
calls =
    record { done = 1; message = message "a" 7; address = 0 }
    ∷ record { done = 2; message = message "" 8; address = 1 }
    ∷ record { done = 3; message = message "b" 9; address = 2 }
    ∷ []

abbrev posts : List Post
posts = map (read maps) calls

apart : AreApart calls
apart = ground arith

posts-Answers : All (Answers signing) posts
unfolding process_message signer_handle insert bytes_of signing plain
posts-Answers = ((true, _, refl), ((false, _, refl), ((true, _, refl), tt)))

abbrev carry : Outgoing → Delivery
carry o = record {
  headers = o.msg.headers;
  content_type = "";
  content_encoding = "";
  correlation_id = "";
  reply_to = "";
  message_id = o.msg.message_id;
  timestamp = pos 0;
  type = "";
  routing_key = o.key;
  body = o.msg.body;
}

posts-IsNew : All IsNew (gather (accepted signing) posts)
unfolding process_message signer_handle insert bytes_of lookup signing plain
posts-IsNew = (refl, (refl, tt))

published_are_handled_example :
    let out = gather (accepted signing) posts in
    (st : State) × (p : Publisher) × (publish_all signing calls maps zero_queue ≡ some st)
    × (run signing (connects none ∷ rounds (length out)) (record fresh { stream = as_seen st })
        ≡ some p)
    × (contents p.stream ≡ [])
    × (sent p.log ≡ out)
    × (gather settled_by (consume checking (taken (map carry (sent p.log)))).0
        ≡ map (λ o. handled (carry o)) out)
    × ((consume checking (taken (map carry (sent p.log)))).1 ≡ waiting)
unfolding signing W.add_handler checking S.add_handler
published_are_handled_example =
    published_are_handled toy disk wrap "all.pem" "all.pem" "orders" [] 5 5 plain signing checking
      carry key_held cert_held (λ content s e. refl)
      (sign_lem toy disk wrap "all.pem" 5 plain key_held)
      (validate_lem toy disk wrap "all.pem" 5 (new_sink (broker []).sinks "orders") cert_held)
      (λ o. (refl, refl, refl)) calls maps posts-Answers apart posts-IsNew

two_pass : length (gather (accepted signing) posts) ≡ 2
unfolding process_message signer_handle insert bytes_of signing plain
two_pass = refl

-- One message with a header of its own, published with the id `a` and then with the id `b`: both entries
-- come to have the signature of the second.
abbrev twice : List Call
twice =
    record { done = 1; message = message "a" 7; address = 0 }
    ∷ record { done = 2; message = message "b" 7; address = 0 }
    ∷ []

abbrev signature_of : Outgoing → Option Value
signature_of o = lookup? default_signature_header o.msg.headers

shared_signature :
    elim (publish_all signing twice maps zero_queue) [
      | none ↦ []
      | some st ↦ map signature_of (contents (as_seen st))
    ]
    ≡ (let s : Option Value = some (bytes (5 ∷ 98 ∷ 7 ∷ [])) in s ∷ s ∷ [])
unfolding publish_all signing plain process_message signer_handle publish put lookup insert bytes_of
shared_signature = refl
