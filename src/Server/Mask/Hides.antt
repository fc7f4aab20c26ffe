-- ===== src/Server/Mask/Hides.antt =====
-- Whose user and password the mask takes away.
use fluent_amqp.Base.{
  ℕ, suc, ◌≡◌, ◌≢◌, refl, sym, ap, ◌∙◌, Bool, true, false, eqb, List, [], ◌∷◌, ◌++◌, append_assoc,
  length, length-append, tail, All, arith,
}
use fluent_amqp.Server.Mask.{in_name, in_password, span, match_of, match_length, stars, mask_from}

abbrev pub AllIn : (ℕ → Bool) → List ℕ → Type 0
AllIn p = All (λ c. p c ≡ true)

-- A run goes up to the first byte outside its class.
span-run :
    (p : ℕ → Bool) (run : List ℕ) (c : ℕ) (rest : List ℕ)
    → AllIn p run
    → p c ≡ false
    → span p (run ++ c ∷ rest) ≡ (run, c ∷ rest)
unfolding span
span-run p [] c rest h e = ground (arith, e)
span-run p (x ∷ run) c rest h e = ground (arith, h.0, span-run p run c rest h.1 e)

-- A name, a colon, a run and the byte after it.
match_length-runs :
    (name run : List ℕ) (c : ℕ) (rest : List ℕ)
    → AllIn in_name name
    → AllIn in_password run
    → in_password c ≡ false
    → match_length (name ++ b':' ∷ (run ++ c ∷ rest))
      ≡ match_of name (b':' ∷ (run ++ c ∷ rest)) run (c ∷ rest)
unfolding match_length
match_length-runs name run c rest hn hr hc =
    rw (span-run in_name name b':' (run ++ c ∷ rest) hn refl, span-run in_password run c rest hr hc)
      refl

-- Bytes of a match are left out.
mask_from-length : (s rest : List ℕ) → mask_from (length s) (s ++ rest) ≡ mask_from 0 rest
unfolding mask_from
mask_from-length [] rest = refl
mask_from-length (c ∷ s) rest = mask_from-length s rest

-- A byte at which no match begins stays.
mask_from-cons :
    (c : ℕ) (s : List ℕ) → match_length (c ∷ s) ≡ 0 → mask_from 0 (c ∷ s) ≡ c ∷ mask_from 0 s
unfolding mask_from
mask_from-cons c s e = rw (e, mask_from) refl

-- The name and the password of a URL are one match.
mask_from-match :
    (u p : ℕ) (user password host : List ℕ)
    → AllIn in_name (u ∷ user)
    → AllIn in_password (p ∷ password)
    → mask_from 0 ((u ∷ user) ++ b':' ∷ ((p ∷ password) ++ b'@' ∷ host)) ≡ stars ++ mask_from 0 host
unfolding mask_from
mask_from-match u p user password host hu hp =
    let gone = user ++ b':' ∷ ((p ∷ password) ++ b'@' ∷ []) in
    let long : match_length ((u ∷ user) ++ b':' ∷ ((p ∷ password) ++ b'@' ∷ host))
        ≡ suc (length gone) =
      match_length-runs (u ∷ user) (p ∷ password) b'@' host hu hp refl
      ∙ omega (
        arith,
        length-append user (b':' ∷ ((p ∷ password) ++ b'@' ∷ [])),
        length-append password (b'@' ∷ []),
      ) in
    let parts : user ++ b':' ∷ ((p ∷ password) ++ b'@' ∷ host) ≡ gone ++ host =
      ap (λ t. user ++ b':' ∷ p ∷ t) (sym (append_assoc password (b'@' ∷ []) host))
      ∙ sym (append_assoc user (b':' ∷ ((p ∷ password) ++ b'@' ∷ [])) host) in
    rw (long, mask_from)
      (ap (λ t. stars ++ mask_from (length gone) t) parts
        ∙ ap (λ t. stars ++ t) (mask_from-length gone host))

pub mask_from-credentials :
    (user password host : List ℕ)
    → user ≢ []
    → password ≢ []
    → AllIn in_name user
    → AllIn in_password password
    → mask_from 0 (user ++ b':' ∷ (password ++ b'@' ∷ host)) ≡ stars ++ mask_from 0 host
mask_from-credentials (u ∷ user) (p ∷ password) host nu np hu hp =
    mask_from-match u p user password host hu hp
mask_from-credentials [] password host nu np hu hp = absurd (nu refl)
mask_from-credentials (u ∷ user) [] host nu np hu hp = absurd (np refl)

match_of-colon : (name after run rest : List ℕ) → match_of name after run (b':' ∷ rest) ≡ 0
match_of-colon (n ∷ name) (c ∷ after) (p ∷ run) rest = ground arith
match_of-colon [] after run rest = refl
match_of-colon (n ∷ name) [] run rest = refl
match_of-colon (n ∷ name) (c ∷ after) [] rest = refl

-- No match begins in a name that another colon follows before any `@`.
pub mask_from-name :
    (name run rest : List ℕ)
    → AllIn in_name name
    → AllIn in_password run
    → mask_from 0 (name ++ b':' ∷ (run ++ b':' ∷ rest))
      ≡ name ++ b':' ∷ mask_from 0 (run ++ b':' ∷ rest)
unfolding match_length span
mask_from-name [] run rest hn hr = mask_from-cons b':' (run ++ b':' ∷ rest) refl
mask_from-name (c ∷ name) run rest hn hr =
    mask_from-cons c (name ++ b':' ∷ (run ++ b':' ∷ rest)) (
      match_length-runs (c ∷ name) run b':' rest hn hr refl
      ∙ match_of-colon (c ∷ name) (b':' ∷ (run ++ b':' ∷ rest)) run rest)
    ∙ ap (λ t. c ∷ t) (mask_from-name name run rest hn.1 hr)

-- No match begins in the scheme, before a name and a colon.
pub mask_from-scheme :
    (scheme user rest : List ℕ)
    → AllIn in_name scheme
    → AllIn in_password user
    → mask_from 0 (scheme ++ b':' ∷ b'/' ∷ b'/' ∷ (user ++ b':' ∷ rest))
      ≡ scheme ++ b':' ∷ b'/' ∷ b'/' ∷ mask_from 0 (user ++ b':' ∷ rest)
unfolding match_length span
mask_from-scheme scheme user rest hs hu =
    mask_from-name scheme (b'/' ∷ b'/' ∷ user) rest hs (refl, (refl, hu))
    ∙ ap (λ t. scheme ++ b':' ∷ t)
        (mask_from-cons b'/' (b'/' ∷ (user ++ b':' ∷ rest)) refl
          ∙ ap (λ t. b'/' ∷ t) (mask_from-cons b'/' (user ++ b':' ∷ rest) refl))

abbrev pub NoAt : List ℕ → Type 0
NoAt = All (λ c. eqb c b'@' ≡ false)

span-NoAt : (p : ℕ → Bool) (s : List ℕ) → NoAt s → NoAt (span p s).1
unfolding span
span-NoAt p [] h = tt
span-NoAt p (c ∷ s) h = ground (arith, span-NoAt p s h.1)

match_of-NoAt : (name after password end : List ℕ) → NoAt end → match_of name after password end ≡ 0
match_of-NoAt (n ∷ name) (c ∷ after) (p ∷ password) (e ∷ end) h = ground (arith, h.0)
match_of-NoAt [] after password end h = refl
match_of-NoAt (n ∷ name) [] password end h = refl
match_of-NoAt (n ∷ name) (c ∷ after) [] end h = refl
match_of-NoAt (n ∷ name) (c ∷ after) (p ∷ password) [] h = refl

tail-NoAt : (s : List ℕ) → NoAt s → NoAt (tail s)
tail-NoAt [] h = tt
tail-NoAt (c ∷ s) h = h.1

pub mask_from-NoAt : (s : List ℕ) → NoAt s → mask_from 0 s ≡ s
unfolding match_length mask_from
mask_from-NoAt [] h = refl
mask_from-NoAt (c ∷ s) h =
    let (name, after) = span in_name (c ∷ s) in
    let (password, end) = span in_password (tail after) in
    mask_from-cons c s (
      match_of-NoAt name after password end
        (span-NoAt in_password (tail after) (tail-NoAt after (span-NoAt in_name (c ∷ s) h))))
    ∙ ap (λ t. c ∷ t) (mask_from-NoAt s h.1)
