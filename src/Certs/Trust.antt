-- ===== src/Certs/Trust.antt =====
-- A writer with the key of one file, and a sink with the certificate of another.
use fluent_amqp.Base.{ℕ, String, ◌≡◌, sym, ◌∙◌, ap, true, List, [], ◌∷◌, ◌++◌, some, arith}
use fluent_amqp.Amqp.{Error, Delivery, Publishing}
use fluent_amqp.Writer.{SenderHandler, WriterConfig}
use fluent_amqp.Writer.Publish.{process_message}
use fluent_amqp.Writer as W
use fluent_amqp.Writer.Middleware.{Passes, done, next, process_message_iff}
use fluent_amqp.Sink.{ReceiverHandler, SinkDefaults, SinkConfig, new_sink}
use fluent_amqp.Sink as S
use fluent_amqp.Sink.Consume.{run_middleware}
use fluent_amqp.Certs.{
  Crypto, Found, found, load_private_key, load_certificate, signer_handle, validator_handle,
}
use fluent_amqp.Certs.Validate.{Matches, signed_is_accepted}
use fluent_amqp.Certs.Files.{
  returned, default_signature_header, validating, wrapped, load_private_key_file,
  load_certificate_from_file, new_signer_from_file, new_cert_validator_from_file, sign, validate,
}

-- What reaches the last handler of a chain.
Passes-last :
    (hs : List SenderHandler) (h : SenderHandler) (m out : Publishing)
    → Passes (hs ++ h ∷ []) m out
    → (mid : Publishing) × (h mid ≡ some (true, out))
Passes-last [] h m out (next e done) = (m, e)
Passes-last (g ∷ hs) h m out (next {m'} e p) = Passes-last hs h m' out p

module _ (c : Crypto) (read_file : String → Found (List ℕ)) (wrap : Error → String → Error) where
  open c use {Key, Cert}

  abbrev pub HoldsKey : String → Key → Type 0
  HoldsKey file key =
      (content : List ℕ) × (read_file file ≡ found content)
      × (load_private_key c content ≡ some (found key))

  abbrev pub HoldsCert : String → Cert → Type 0
  HoldsCert file cert =
      (content : List ℕ) × (read_file file ≡ found content)
      × (load_certificate c content ≡ some (found cert))

  pub sign_lem :
      (file : String) (key : Key) (wc : WriterConfig)
      → HoldsKey file key
      → sign c read_file wrap file wc
        ≡ some (returned (W.add_handler (signer_handle c default_signature_header key) wc))
  unfolding sign new_signer_from_file load_private_key_file wrapped
  sign_lem file key wc (content, r, k) = ground (arith, r, k)

  pub validate_lem :
      (file : String) (cert : Cert) (snk : SinkConfig)
      → HoldsCert file cert
      → validate c read_file wrap file snk
        ≡ some (
            returned
              (S.add_handler (validating (validator_handle c default_signature_header cert)) snk))
  unfolding validate new_cert_validator_from_file load_certificate_from_file wrapped
  validate_lem file cert snk (content, r, k) = ground (arith, r, k)

  -- A writer and a new sink set up by `Sign` and `Validate`, with a key file and a certificate file that
  -- match: what the whole middleware of the writer accepts, also with handlers from before `Sign`, passes the
  -- middleware of the sink, wherever it is delivered with its headers, id and body intact.
  pub signed_files_pass :
      (key_file cert_file queue : String) (key : Key) (cert : Cert) (wc wc' : WriterConfig)
      (def : SinkDefaults) (snk : SinkConfig) (m out : Publishing) (d : Delivery)
      → HoldsKey key_file key
      → HoldsCert cert_file cert
      → Matches c key cert
      → sign c read_file wrap key_file wc ≡ some (returned wc')
      → validate c read_file wrap cert_file (new_sink def queue) ≡ some (returned snk)
      → process_message wc'.middleware m ≡ some (true, out)
      → d.headers ≡ out.headers
      → d.message_id ≡ out.message_id
      → d.body ≡ out.body
      → run_middleware snk.middleware d ≡ (true, d)
  unfolding W.add_handler S.add_handler new_sink run_middleware
  signed_files_pass key_file cert_file queue key cert wc wc' def snk m out d hk hc match s v p h i
        b =
      let signer = signer_handle c default_signature_header key in
      let writes : W.add_handler signer wc ≡ wc' = ground (arith, sign_lem key_file key wc hk, s) in
      let checks : S.add_handler (validating (validator_handle c default_signature_header cert))
            (new_sink def queue)
          ≡ snk =
        ground (arith, validate_lem cert_file cert (new_sink def queue) hc, v) in
      let (mid, signed) =
        Passes-last wc.middleware signer m out
          ((process_message_iff _ m out).0 (ap (λ w. process_message w.middleware m) writes ∙ p)) in
      let ok =
        signed_is_accepted c default_signature_header key cert mid out d match signed h i b in
      sym (ap (λ k. run_middleware k.middleware d) checks) ∙ ground (arith, ok)
