-- ===== src/Certs/Validate.antt =====
-- What a validator accepts, and what of it a signer guarantees.
use fluent_amqp.Base.{
  ℕ, String, ◌≡◌, refl, ◌∙◌, ap, ap₂, true, List, ◌++◌, Option, none, some, arith, ◌↔◌,
  append_assoc, Option-cases, inl, inr,
}
use fluent_amqp.Base.Text.{bytes_of, bytes_of-append, ◌+s◌}
use fluent_amqp.Amqp.{Value, bytes, Delivery, Publishing, lookup?, insert, made}
use fluent_amqp.Amqp.Laws.{lookup-insert_self}
use fluent_amqp.Certs.{Crypto, signed_data, sign, signer_handle, check_value, validator_handle}

module _ (c : Crypto) where
  open c use {Key, Cert, check_signature}

  check_value_sound :
      (cert : Cert) (d : Delivery) (v : Option Value)
      → check_value c cert d v ≡ true
      → (s : List ℕ) × (v ≡ some (bytes s))
        × (check_signature cert (bytes_of d.message_id ++ d.body) s ≡ true)
  unfolding check_value signed_data
  check_value_sound cert d (some (bytes s)) h = (s, refl, h)
  check_value_sound cert d none h = cc
  check_value_sound cert d (some _) h = cc

  -- The validator accepts a message exactly when its signature header holds, as bytes, a signature
  -- that the certificate confirms for the message id followed by the body.
  pub validator_handle_iff :
      (header : String) (cert : Cert) (d : Delivery)
      → (validator_handle c header cert d ≡ true) ↔ (
          (s : List ℕ) × (lookup? header d.headers ≡ some (bytes s))
          × (check_signature cert (bytes_of d.message_id ++ d.body) s ≡ true))
  unfolding validator_handle check_value signed_data
  validator_handle_iff header cert d =
      (check_value_sound cert d (lookup? header d.headers), λ (s, e, h). rw e h)

  signer_handle-some :
      (header : String) (key : Key) (m m' : Publishing)
      → signer_handle c header key m ≡ some (true, m')
      → (s : List ℕ) × (sign c (bytes_of m.message_id ++ m.body) key ≡ some s)
        × (m'.headers ≡ some (insert header (bytes s) (made m.headers)))
        × (m'.message_id ≡ m.message_id)
        × (m'.body ≡ m.body)
  unfolding signer_handle signed_data
  signer_handle-some header key m m' e =
      elim (Option-cases (sign c (bytes_of m.message_id ++ m.body) key)) [
        | inl none_signed ↦ absurd (ground arith)
        | inr (s, signed) ↦ (s, signed, ground arith, ground arith, ground arith)
      ]

  pub check_value_cong :
      (cert : Cert) (d d' : Delivery) (v : Option Value)
      → signed_data d.message_id d.body ≡ signed_data d'.message_id d'.body
      → check_value c cert d v ≡ check_value c cert d' v
  unfolding check_value
  check_value_cong cert d d' (some (bytes s)) h = ap (λ content. check_signature cert content s) h
  check_value_cong cert d d' none h = refl
  check_value_cong cert d d' (some _) h = refl

  -- The certificate confirms what the key has signed.
  abbrev pub Matches : Key → Cert → Type 0
  Matches key cert =
      (content s : List ℕ) → sign c content key ≡ some s → check_signature cert content s ≡ true

  -- A message that a signer has handled is accepted by a validator with a matching certificate and the
  -- same header name, wherever it is delivered with its headers, id and body intact, and whatever
  -- headers it had before.
  pub signed_is_accepted :
      (header : String) (key : Key) (cert : Cert) (m m' : Publishing) (d : Delivery)
      → Matches key cert
      → signer_handle c header key m ≡ some (true, m')
      → d.headers ≡ m'.headers
      → d.message_id ≡ m'.message_id
      → d.body ≡ m'.body
      → validator_handle c header cert d ≡ true
  signed_is_accepted header key cert m m' d match e h i b =
      let (s, signed, headers, same_id, same_body) = signer_handle-some header key m m' e in
      (validator_handle_iff header cert d).1 (
        s,
        ap (lookup? header) (h ∙ headers) ∙ lookup-insert_self header (bytes s) (made m.headers),
        ap₂ (λ name content. check_signature cert (bytes_of name ++ content) s) (i ∙ same_id)
              (b ∙ same_body)
            ∙ match (bytes_of m.message_id ++ m.body) s signed,
      )

  -- The signature does not fix where the id ends: bytes of text moved from the start of the body to
  -- the end of the id leave the validator's answer the same.
  pub boundary_not_signed :
      (header : String) (cert : Cert) (d : Delivery) (moved : String) (rest : List ℕ)
      → d.body ≡ bytes_of moved ++ rest
      → validator_handle c header cert
          (record d { message_id = d.message_id +s moved; body = rest })
        ≡ validator_handle c header cert d
  unfolding validator_handle signed_data
  boundary_not_signed header cert d moved rest e =
      check_value_cong cert (record d { message_id = d.message_id +s moved; body = rest }) d
        (lookup? header d.headers)
        (rw (bytes_of-append, e) (append_assoc (bytes_of d.message_id) (bytes_of moved) rest))
