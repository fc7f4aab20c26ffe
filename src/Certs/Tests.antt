-- ===== src/Certs/Tests.antt =====
-- The theorems of the signature with a toy cryptography: the digest is the data, a signature is the
-- digest with the key's number in front, and a certificate is the number of its key.
use fluent_amqp.Base.{
  ℕ, zero, suc, String, ◌≡◌, ◌≢◌, refl, eq_iff, Bool, true, false, List, [], ◌∷◌, Option, some,
  none, arith, ◌==◌, if◌then◌else◌,
}
use mathlib.Core.Logic.{ite, if_pos}
use native.Mathlib.Decide.{ℕ_discrete}
use fluent_amqp.Base.Int.{pos}
use fluent_amqp.Base.Text.{bytes_of, ◌+s◌}
use fluent_amqp.Amqp.{Error, bytes, Delivery, Publishing, insert, empty, entry}
use fluent_amqp.Writer.{no_publishing}
use fluent_amqp.Certs.{
  Crypto, Block, Found, found, failed, rsa, signer_handle, validator_handle, load_private_key,
  load_certificate,
}
use fluent_amqp.Certs.Validate.{Matches, boundary_not_signed}
use fluent_amqp.Certs.Requeued.{returned_after, signature_survives}
use fluent_amqp.Requeue.{new_requeue, last_error_header}
use fluent_amqp.Certs
use fluent_amqp.Certs.Files.{returned, default_signature_header, validating, sign, validate}
use fluent_amqp.Certs.Trust.{signed_files_pass}
use fluent_amqp.Writer.{WriterConfig, new_writer}
use fluent_amqp.Writer.Publish.{process_message}
use fluent_amqp.Writer as W
use fluent_amqp.Sink.{SinkConfig, SinkDefaults, new_sink}
use fluent_amqp.Sink as S
use fluent_amqp.Sink.Consume.{run_middleware}
use fluent_amqp.Certs.Pem.{Shrinks, Blocks, first_key, first_cert, load_finds_first}

same : List ℕ → List ℕ → Bool
same [] [] = true
same (x ∷ xs) (y ∷ ys) = ite (ℕ_discrete x y) (same xs ys) false
same _ _ = false

same_self : (xs : List ℕ) → same xs xs ≡ true
unfolding same
same_self [] = refl
same_self (x ∷ xs) = rw (if_pos _ refl) (same_self xs)

-- A file is a list of one-byte blocks: 0 a certificate, 1 a private key, any other something else.
kind : ℕ → String
kind zero = "CERTIFICATE"
kind (suc zero) = "PRIVATE KEY"
kind _ = "OTHER"

decode : List ℕ → Option (Block × List ℕ)
unfolding kind
decode [] = none
decode (x ∷ xs) = some (record { type = kind x; content = x ∷ [] }, xs)

abbrev toy : Crypto
toy = record {
  Key = ℕ;
  Cert = ℕ;
  sha512 = λ content. content;
  rsa_sign = λ key digest. some (key ∷ digest);
  check_signature = λ cert content s. same (cert ∷ content) s;
  pem_decode = decode;
  parse_pkcs8 = λ content. some (rsa 5);
  parse_certificate = λ content. some 5;
}

toy-Matches : Matches toy 5 5
unfolding Certs.sign
toy-Matches content s h = ground (arith, same_self (5 ∷ content))

abbrev letter : Publishing
letter = record no_publishing { message_id = "ab"; body = 99 ∷ 100 ∷ [] }

abbrev signed : Publishing
signed = record letter {
  headers = some (entry "X-Signature" (bytes (5 ∷ 97 ∷ 98 ∷ 99 ∷ 100 ∷ [])) empty);
}

abbrev delivered : Delivery
delivered = record {
  headers = some (entry "X-Signature" (bytes (5 ∷ 97 ∷ 98 ∷ 99 ∷ 100 ∷ [])) empty);
  content_type = "";
  content_encoding = "";
  correlation_id = "";
  reply_to = "";
  message_id = "ab";
  timestamp = pos 0;
  type = "";
  routing_key = "k";
  body = 99 ∷ 100 ∷ [];
}

signer_handle-letter : signer_handle toy "X-Signature" 5 letter ≡ some (true, signed)
unfolding signer_handle bytes_of insert
signer_handle-letter = refl

-- The message with the id "abc" and the body "d" passes with the signature of the id "ab" and the
-- body "cd".
boundary_not_signed_example :
    validator_handle toy "X-Signature" 5 (record delivered { message_id = "abc"; body = 100 ∷ [] })
    ≡ validator_handle toy "X-Signature" 5 delivered
unfolding bytes_of
boundary_not_signed_example = boundary_not_signed toy "X-Signature" 5 delivered "c" (100 ∷ []) refl

decode-Shrinks : Shrinks toy
unfolding decode
decode-Shrinks [] rest block e = cc
decode-Shrinks (x ∷ xs) rest block e = ground arith

load_finds_first_example :
    (bs : List Block) × Blocks toy (7 ∷ 0 ∷ 1 ∷ []) bs
    × (load_private_key toy (7 ∷ 0 ∷ 1 ∷ []) ≡ some (first_key toy bs))
    × (load_certificate toy (7 ∷ 0 ∷ 1 ∷ []) ≡ some (first_cert toy bs))
load_finds_first_example = load_finds_first toy (7 ∷ 0 ∷ 1 ∷ []) decode-Shrinks

load_private_key_test : load_private_key toy (7 ∷ 0 ∷ 1 ∷ []) ≡ some (found 5)
unfolding load_private_key decode
load_private_key_test = refl

-- A disk with a key and its certificate.
disk : String → Found (List ℕ)
disk path =
    if path == "key.pem"
    then found (1 ∷ [])
    else if path == "crt.pem"
    then found (0 ∷ [])
    else failed "no such file"

wrap : Error → String → Error
wrap e text = text +s ": " +s e

abbrev signing : WriterConfig
signing = W.add_handler (signer_handle toy default_signature_header 5) new_writer

abbrev defaults : SinkDefaults
defaults = record {
  retries = pos 10;
  expired = none;
  too_much = none;
  threshold = pos 0;
  verbose_logging = true;
}

abbrev checking : SinkConfig
checking =
    S.add_handler (validating (validator_handle toy default_signature_header 5))
      (new_sink defaults "orders")

signing_lem : sign toy disk wrap "key.pem" new_writer ≡ some (returned signing)
unfolding sign disk decode
signing_lem = refl

checking_lem :
    validate toy disk wrap "crt.pem" (new_sink defaults "orders") ≡ some (returned checking)
unfolding validate disk decode
checking_lem = refl

letter-signed : process_message signing.middleware letter ≡ some (true, signed)
unfolding process_message W.add_handler new_writer signer_handle bytes_of insert
letter-signed = refl

key_held : load_private_key toy (1 ∷ []) ≡ some (found 5)
unfolding load_private_key decode
key_held = refl

cert_held : load_certificate toy (0 ∷ []) ≡ some (found 5)
unfolding load_certificate decode
cert_held = refl

read_key : disk "key.pem" ≡ found (1 ∷ [])
unfolding disk
read_key = refl

read_cert : disk "crt.pem" ≡ found (0 ∷ [])
unfolding disk
read_cert = refl

signed_files_pass_example : run_middleware checking.middleware delivered ≡ (true, delivered)
signed_files_pass_example =
    signed_files_pass toy disk wrap "key.pem" "crt.pem" "orders" 5 5 new_writer signing defaults
      checking letter signed delivered (1 ∷ [], read_key, key_held) (0 ∷ [], read_cert, cert_held)
      toy-Matches signing_lem checking_lem letter-signed refl refl refl

-- The broker returns what was published.
abbrev redeliver : Publishing → Delivery
redeliver p = record delivered { headers = p.headers; message_id = p.message_id; body = p.body }

other_header : last_error_header ≢ "X-Signature"
other_header = λ e. ground (arith, eq_iff last_error_header "X-Signature")

signature_survives_example :
    validator_handle toy "X-Signature" 5
      (returned_after redeliver (new_requeue "orders") ("bad" ∷ "worse" ∷ []) delivered)
    ≡ validator_handle toy "X-Signature" 5 delivered
signature_survives_example =
    signature_survives toy redeliver (new_requeue "orders") "X-Signature" 5 ("bad" ∷ "worse" ∷ [])
      delivered (λ p. (refl, refl, refl)) other_header
