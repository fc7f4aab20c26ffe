-- ===== src/Certs/Files.antt =====
-- certs.go, writer.go and sink.go: the signer and the validator of a file. `Sign` and `Validate` panic with
-- the error of the file.
use fluent_amqp.Base.{ℕ, String, Bool, List, Option, none, some}
use fluent_amqp.Base.Text.{◌+s◌}
use fluent_amqp.Amqp.{Error, Delivery}
use fluent_amqp.Writer.{SenderHandler, WriterConfig, new_writer}
use fluent_amqp.Writer as W
use fluent_amqp.Sink.{ReceiverHandler, SinkDefaults, SinkConfig, new_sink}
use fluent_amqp.Sink as S
use fluent_amqp.Certs.{
  Crypto, Found, found, failed, load_private_key, load_certificate, signer_handle, validator_handle,
}

-- How a call ends that may panic.
pub data Panics (A : Type 0) : Type 0 where
  returned : A → Panics A
  panicked : Error → Panics A

abbrev pub default_signature_header : String
default_signature_header = "X-Signature"

-- the middleware of a certificate, which leaves the message alone
abbrev pub validating : (Delivery → Bool) → ReceiverHandler
validating accepts msg = (accepts msg, msg)

-- `ioutil.ReadFile`, and `errors.Wrap`, which puts a text before an error.
module _ (c : Crypto) (read_file : String → Found (List ℕ)) (wrap : Error → String → Error) where
  open c use {Key, Cert}

  -- `errors.Wrapf` of a result; no error stays none
  unfoldable pub wrapped : {A : Type 0} → Found A → String → Found A
  wrapped (found x) text = found x
  wrapped (failed e) text = failed (wrap e text)

  -- In all of these, `none` means that the search of the file ran out of fuel.
  unfoldable pub load_private_key_file : String → Option (Found Key)
  unfolding load_private_key wrapped
  load_private_key_file path = elim (read_file path) [
    | failed e ↦ some (failed (wrap e ("load content of " +s path)))
    | found content ↦ elim (load_private_key c content) [
      | none ↦ none
      | some key ↦ some (wrapped key ("private key from file " +s path))
    ]
  ]

  unfoldable pub load_certificate_from_file : String → Option (Found Cert)
  unfolding load_certificate wrapped
  load_certificate_from_file path = elim (read_file path) [
    | failed e ↦ some (failed (wrap e ("load content of " +s path)))
    | found content ↦ elim (load_certificate c content) [
      | none ↦ none
      | some cert ↦ some (wrapped cert ("load certificate from file " +s path))
    ]
  ]

  -- With an error the caller gets a signer without a key as well, which it must not use.
  unfoldable pub signer_of : Found Key → String → String → Found SenderHandler
  unfolding signer_handle
  signer_of (found key) header text = found (signer_handle c header key)
  signer_of (failed e) header text = failed (wrap e text)

  unfoldable pub validator_of : Found Cert → String → String → Found ReceiverHandler
  unfolding validator_handle
  validator_of (found cert) header text = found (validating (validator_handle c header cert))
  validator_of (failed e) header text = failed (wrap e text)

  unfoldable pub new_signer : List ℕ → String → Option (Found SenderHandler)
  unfolding load_private_key signer_of
  new_signer private_key header = elim (load_private_key c private_key) [
    | none ↦ none
    | some key ↦ some (signer_of key header "create signer")
  ]

  unfoldable pub new_signer_from_file : String → String → Option (Found SenderHandler)
  unfolding load_private_key_file signer_of
  new_signer_from_file file header = elim (load_private_key_file file) [
    | none ↦ none
    | some key ↦ some (signer_of key header "create signer from file")
  ]

  unfoldable pub new_cert_validator : List ℕ → String → Option (Found ReceiverHandler)
  unfolding load_certificate validator_of
  new_cert_validator content header = elim (load_certificate c content) [
    | none ↦ none
    | some cert ↦ some (validator_of cert header "create validator")
  ]

  unfoldable pub new_cert_validator_from_file : String → String → Option (Found ReceiverHandler)
  unfolding load_certificate_from_file validator_of
  new_cert_validator_from_file file header = elim (load_certificate_from_file file) [
    | none ↦ none
    | some cert ↦ some (validator_of cert header "create validator from file")
  ]

  -- `WriterConfig.Sign`
  unfoldable pub sign : String → WriterConfig → Option (Panics WriterConfig)
  unfolding new_signer_from_file W.add_handler
  sign file wc = elim (new_signer_from_file file default_signature_header) [
    | none ↦ none
    | some (failed e) ↦ some (panicked e)
    | some (found mw) ↦ some (returned (W.add_handler mw wc))
  ]

  -- `SinkConfig.Validate`
  unfoldable pub validate : String → SinkConfig → Option (Panics SinkConfig)
  unfolding new_cert_validator_from_file S.add_handler
  validate file snk = elim (new_cert_validator_from_file file default_signature_header) [
    | none ↦ none
    | some (failed e) ↦ some (panicked e)
    | some (found mv) ↦ some (returned (S.add_handler mv snk))
  ]
