-- ===== src/Certs/Pem.antt =====
-- The search of a PEM file for its first block of a type.
use fluent_amqp.Base.{
  ℕ, zero, suc, ◌<◌, ◌≡◌, List, [], ◌∷◌, none, some, arith, length, ◌==◌, Option-cases, inl, inr,
  if◌then◌else◌,
}
use fluent_amqp.Certs.{
  Crypto, Block, Found, failed, load_private_key, load_private_key_from, key_of, load_certificate,
  load_certificate_from, cert_of,
}

module _ (c : Crypto) where
  open c use {Key, Cert, pem_decode, parse_pkcs8, parse_certificate}

  -- The blocks of a file, as `pem.Decode` finds them one after the other.
  pub data Blocks : List ℕ → List Block → Type 0 where
    end : {content : List ℕ} → pem_decode content ≡ none → Blocks content []
    next :
        {content rest : List ℕ} {block : Block} {blocks : List Block}
        → pem_decode content ≡ some (block, rest)
        → Blocks rest blocks
        → Blocks content (block ∷ blocks)

  -- `pem.Decode` returns a rest that is shorter than what it was given.
  abbrev pub Shrinks : Type 0
  Shrinks =
      (content rest : List ℕ) (block : Block)
      → pem_decode content ≡ some (block, rest)
      → length rest < length content

  Blocks-exist :
      Shrinks
      → (fuel : ℕ) (content : List ℕ) → length content < fuel
      → (bs : List Block) × Blocks content bs
  Blocks-exist shrinks zero content h = absurd (omega arith)
  Blocks-exist shrinks (suc fuel) content h = elim (Option-cases (pem_decode content)) [
    | inl over ↦ ([], end over)
    | inr ((block, rest), e) ↦
        let (bs, found_bs) =
          Blocks-exist shrinks fuel rest (omega (arith, shrinks content rest block e)) in
        (block ∷ bs, next e found_bs)
  ]

  -- The specification: the first block of the right type decides.
  pub first_key : List Block → Found Key
  first_key [] = failed "private key not found"
  first_key (b ∷ bs) =
      if b.type == "PRIVATE KEY" then key_of c (parse_pkcs8 b.content) else first_key bs

  pub first_cert : List Block → Found Cert
  first_cert [] = failed "public key not found"
  first_cert (b ∷ bs) =
      if b.type == "CERTIFICATE" then cert_of c (parse_certificate b.content) else first_cert bs

  load_key-first :
      (fuel : ℕ) (content : List ℕ) (bs : List Block)
      → Shrinks
      → length content < fuel
      → Blocks content bs
      → load_private_key_from c fuel content ≡ some (first_key bs)
  unfolding load_private_key_from first_key
  load_key-first zero content bs shrinks h blocks = absurd (omega arith)
  load_key-first (suc fuel) content [] shrinks h (end e) = ground arith
  load_key-first (suc fuel) content (b ∷ bs) shrinks h (next {rest} e blocks) =
      let ih =
        load_key-first fuel rest bs shrinks (omega (arith, shrinks content rest b e)) blocks in
      ground arith

  load_cert-first :
      (fuel : ℕ) (content : List ℕ) (bs : List Block)
      → Shrinks
      → length content < fuel
      → Blocks content bs
      → load_certificate_from c fuel content ≡ some (first_cert bs)
  unfolding load_certificate_from first_cert
  load_cert-first zero content bs shrinks h blocks = absurd (omega arith)
  load_cert-first (suc fuel) content [] shrinks h (end e) = ground arith
  load_cert-first (suc fuel) content (b ∷ bs) shrinks h (next {rest} e blocks) =
      let ih =
        load_cert-first fuel rest bs shrinks (omega (arith, shrinks content rest b e)) blocks in
      ground arith

  -- If each `pem.Decode` returns a rest that is shorter than its input, both searches end on every file:
  -- the file has a list of blocks, and the first block of the wanted type decides, whatever blocks stand
  -- before it; without one the search fails as not found.
  pub load_finds_first :
      (content : List ℕ)
      → Shrinks
      → (bs : List Block) × Blocks content bs
        × (load_private_key c content ≡ some (first_key bs))
        × (load_certificate c content ≡ some (first_cert bs))
  unfolding load_private_key load_certificate
  load_finds_first content shrinks =
      let enough : length content < suc (length content) = omega arith in
      let (bs, blocks) = Blocks-exist shrinks (suc (length content)) content enough in
      (
        bs,
        blocks,
        load_key-first (suc (length content)) content bs shrinks enough blocks,
        load_cert-first (suc (length content)) content bs shrinks enough blocks,
      )
