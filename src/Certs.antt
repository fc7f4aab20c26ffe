-- ===== src/Certs.antt =====
-- certs.go: signing outgoing messages and validating incoming ones, and the search of a PEM file for a
-- key or a certificate. The cryptography and the PEM and X.509 parsers are Go's libraries: parameters.
pub mod Validate
pub mod Pem
pub mod Files
pub mod Trust
pub mod Requeued
mod Tests
use fluent_amqp.Base.{
  ℕ, zero, suc, String, Bool, true, false, List, ◌++◌, Option, none, some, ◌==◌, if◌then◌else◌,
  length,
}
use fluent_amqp.Base.Text.{bytes_of}
use fluent_amqp.Amqp.{Error, Value, bytes, Table, Delivery, Publishing, lookup?, insert, made}
use fluent_amqp.Writer.{SenderHandler}

-- A PEM block, and what the file holds after it.
pub record Block : Type 0 where
  pub type : String
  pub content : List ℕ

-- What `x509.ParsePKCS8PrivateKey` gives, by the type of the key.
pub data ParsedKey (Key : Type 0) : Type 0 where
  rsa : Key → ParsedKey Key
  other_key : ParsedKey Key

pub record Crypto : Type 1 where
  pub Key : Type 0
  pub Cert : Type 0
  pub sha512 : List ℕ → List ℕ
  pub rsa_sign : Key → List ℕ → Option (List ℕ)  -- `key.Sign` of a digest; `none` is an error
  pub check_signature : Cert → List ℕ → List ℕ → Bool  -- of data and signature; no error is true
  pub pem_decode : List ℕ → Option (Block × List ℕ)
  pub parse_pkcs8 : List ℕ → Option (ParsedKey Key)
  pub parse_certificate : List ℕ → Option Cert

-- `data`, as both handlers build it: the message id, then the body
pub signed_data : String → List ℕ → List ℕ
signed_data message_id body = bytes_of message_id ++ body

-- What the search of a PEM file ends with.
pub data Found (A : Type 0) : Type 0 where
  found : A → Found A
  failed : Error → Found A

module _ (c : Crypto) where
  open c use {
    Key, Cert, sha512, rsa_sign, check_signature, pem_decode, parse_pkcs8, parse_certificate,
  }

  pub sign : List ℕ → Key → Option (List ℕ)
  sign content key = rsa_sign key (sha512 content)

  -- `messageSigner.Handle`; an error of `sign` is a panic. Where the source writes into the map of the
  -- message, the result has the map as it is then (Pipeline/Publishing has the map itself).
  unfoldable pub signer_handle : String → Key → SenderHandler
  unfolding sign signed_data
  signer_handle header key m = elim (sign (signed_data m.message_id m.body) key) [
    | none ↦ none
    | some signature ↦
        some (true, record m { headers = some (insert header (bytes signature) (made m.headers)) })
  ]

  pub check_value : Cert → Delivery → Option Value → Bool
  unfolding signed_data
  check_value cert msg (some (bytes signature)) =
      check_signature cert (signed_data msg.message_id msg.body) signature
  check_value cert msg _ = false

  -- `messageValidator.Handle`
  unfoldable pub validator_handle : String → Cert → Delivery → Bool
  unfolding check_value
  validator_handle header cert msg = check_value cert msg (lookup? header msg.headers)

  key_of : Option (ParsedKey Key) → Found Key
  key_of none = failed "decode private key"
  key_of (some other_key) = failed "private key is not RSA PKS#8"
  key_of (some (rsa k)) = found k

  cert_of : Option Cert → Found Cert
  cert_of none = failed "decode public key"
  cert_of (some cert) = found cert

  -- the loop of `loadPrivateKey`, with fuel; `none` means that the fuel ran out
  load_private_key_from : ℕ → List ℕ → Option (Found Key)
  unfolding key_of
  load_private_key_from zero tail = none
  load_private_key_from (suc fuel) tail = elim (pem_decode tail) [
    | none ↦ some (failed "private key not found")
    | some (block, rest) ↦ elim (block.type == "PRIVATE KEY") [
      | true ↦ some (key_of (parse_pkcs8 block.content))
      | false ↦ load_private_key_from fuel rest
    ]
  ]

  unfoldable pub load_private_key : List ℕ → Option (Found Key)
  unfolding load_private_key_from
  load_private_key content = load_private_key_from (suc (length content)) content

  -- the loop of `loadCertificate`
  load_certificate_from : ℕ → List ℕ → Option (Found Cert)
  unfolding cert_of
  load_certificate_from zero tail = none
  load_certificate_from (suc fuel) tail = elim (pem_decode tail) [
    | none ↦ some (failed "public key not found")
    | some (block, rest) ↦ elim (block.type == "CERTIFICATE") [
      | true ↦ some (cert_of (parse_certificate block.content))
      | false ↦ load_certificate_from fuel rest
    ]
  ]

  unfoldable pub load_certificate : List ℕ → Option (Found Cert)
  unfolding load_certificate_from
  load_certificate content = load_certificate_from (suc (length content)) content
