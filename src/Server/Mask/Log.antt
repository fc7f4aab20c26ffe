-- ===== src/Server/Mask/Log.antt =====
-- What the log of a dial shows of the URLs.
use fluent_amqp.Base.{
  ℕ, ◌≡◌, ◌≢◌, refl, sym, ap, ap₂, ◌∙◌, ◌++◌, List, [], ◌∷◌, map, Option, none, All, gather,
}
use fluent_amqp.Amqp.{Error}
use fluent_amqp.Base.Text.{bytes_of}
use fluent_amqp.Server.{Dialed, unreachable}
use fluent_amqp.Server.Mask.{
  in_name, in_password, stars, mask_from, mask, round, dial_lines, connecting, connection_error,
}
use fluent_amqp.Server.Mask.Hides.{
  AllIn, NoAt, mask_from-credentials, mask_from-name, mask_from-scheme, mask_from-NoAt,
}

-- A URL `scheme://part:...:part:name:last@host`. Without leading parts, `name` is the user and `last` the
-- password; a password with colons is cut at each.
pub record Url : Type 0 where
  pub scheme : List ℕ
  pub leading : List (List ℕ)
  pub name : List ℕ
  pub last : List ℕ
  pub host : List ℕ

abbrev pub joined : List (List ℕ) → List ℕ → List ℕ
joined [] rest = rest
joined (part ∷ parts) rest = part ++ b':' ∷ joined parts rest

abbrev pub text_with : List ℕ → Url → List ℕ
text_with end url = url.scheme ++ b':' ∷ b'/' ∷ b'/' ∷ joined url.leading end

abbrev pub text_of : Url → List ℕ
text_of url = text_with (url.name ++ b':' ∷ (url.last ++ b'@' ∷ url.host)) url

-- Stars in the place of the last two parts.
abbrev pub shown : Url → List ℕ
shown url = text_with (stars ++ url.host) url

-- The parts hold none of the characters that separate them, and the last two are not empty.
pub record IsPlain (url : Url) : Type 0 where
  pub scheme : AllIn in_name url.scheme
  pub leading : All (λ part. AllIn in_name part × AllIn in_password part) url.leading
  pub name : (url.name ≢ []) × AllIn in_name url.name × AllIn in_password url.name
  pub last : (url.last ≢ []) × AllIn in_password url.last
  pub host : NoAt url.host

-- What stands after the first of several parts.
after_first : List (List ℕ) → List ℕ → List ℕ → List ℕ
after_first [] name end = end
after_first (part ∷ parts) name end = joined parts (name ++ b':' ∷ end)

first_of : List (List ℕ) → List ℕ → List ℕ
first_of [] name = name
first_of (part ∷ parts) name = part

joined-first :
    (parts : List (List ℕ)) (name end : List ℕ)
    → joined parts (name ++ b':' ∷ end) ≡ first_of parts name ++ b':' ∷ after_first parts name end
unfolding first_of after_first
joined-first [] name end = refl
joined-first (part ∷ parts) name end = refl

first-AllIn :
    (parts : List (List ℕ)) (name : List ℕ)
    → All (λ part. AllIn in_name part × AllIn in_password part) parts
    → AllIn in_password name
    → AllIn in_password (first_of parts name)
unfolding first_of
first-AllIn [] name h n = n
first-AllIn (part ∷ parts) name h n = h.0.1

mask_from-joined :
    (parts : List (List ℕ)) (name end rest : List ℕ)
    → All (λ part. AllIn in_name part × AllIn in_password part) parts
    → AllIn in_password name
    → mask_from 0 (name ++ b':' ∷ end) ≡ rest
    → mask_from 0 (joined parts (name ++ b':' ∷ end)) ≡ joined parts rest
mask_from-joined [] name end rest h n e = e
mask_from-joined (part ∷ parts) name end rest h n e =
    ap (λ t. mask_from 0 (part ++ b':' ∷ t)) (joined-first parts name end)
    ∙ mask_from-name part (first_of parts name) (after_first parts name end) h.0.0
        (first-AllIn parts name h.1 n)
    ∙ ap (λ t. part ++ b':' ∷ mask_from 0 t) (sym (joined-first parts name end))
    ∙ ap (λ t. part ++ b':' ∷ t) (mask_from-joined parts name end rest h.1 n e)

pub mask-text_of : (url : Url) → IsPlain url → mask (text_of url) ≡ shown url
unfolding mask
mask-text_of url plain =
    let end = url.last ++ b'@' ∷ url.host in
    let (some_name, in_names, in_passwords) = plain.name in
    let (some_last, lasts) = plain.last in
    let first = joined-first url.leading url.name end in
    ap (λ t. mask_from 0 (url.scheme ++ b':' ∷ b'/' ∷ b'/' ∷ t)) first
    ∙ mask_from-scheme url.scheme (first_of url.leading url.name)
        (after_first url.leading url.name end) plain.scheme
        (first-AllIn url.leading url.name plain.leading in_passwords)
    ∙ ap (λ t. url.scheme ++ b':' ∷ b'/' ∷ b'/' ∷ mask_from 0 t) (sym first)
    ∙ ap (λ t. url.scheme ++ b':' ∷ b'/' ∷ b'/' ∷ t)
        (mask_from-joined url.leading url.name end (stars ++ url.host) plain.leading in_passwords (
          mask_from-credentials url.name url.last url.host some_name some_last in_names lasts
          ∙ ap (λ t. stars ++ t) (mask_from-NoAt url.host plain.host)))

module _ {Conn : Type 0} (dial dial' : List ℕ → Dialed Conn)
    (ctx_err ctx_err' : List ℕ → Option Error) where
  -- Two URLs that differ in the last two parts only, on networks that answer alike.
  pub record Alike (urls : Url × Url) : Type 0 where
    pub plain : IsPlain urls.0
    pub plain' : IsPlain urls.1
    pub same : shown urls.0 ≡ shown urls.1
    pub answers : dial (text_of urls.0) ≡ dial' (text_of urls.1)
    pub contexts : ctx_err (text_of urls.0) ≡ ctx_err' (text_of urls.1)

  Alike-mask : (urls : Url × Url) → Alike urls → mask (text_of urls.0) ≡ mask (text_of urls.1)
  Alike-mask (a, b) h = mask-text_of a h.plain ∙ h.same ∙ sym (mask-text_of b h.plain')

  lines_agree :
      (urls : List (Url × Url))
      → All Alike urls
      → dial_lines dial ctx_err (map (λ u. text_of u.0) urls)
        ≡ dial_lines dial' ctx_err' (map (λ u. text_of u.1) urls)
  unfolding dial_lines
  lines_agree [] h = refl
  lines_agree (u ∷ urls) (h, hs) =
      ap₂
        (λ url d.
          round url d (ctx_err (text_of u.0))
            (dial_lines dial ctx_err (map (λ v. text_of v.0) urls)))
        (Alike-mask u h) h.answers
      ∙ ap₂ (round (mask (text_of u.1)) (dial' (text_of u.1))) h.contexts (lines_agree urls hs)

  All-shown :
      (urls : List (Url × Url))
      → All Alike urls
      → map (λ u. mask (text_of u.0)) urls ≡ map (λ u. shown u.0) urls
  All-shown [] h = refl
  All-shown (u ∷ urls) (h, hs) = ap₂ ◌∷◌ (mask-text_of u.0 h.plain) (All-shown urls hs)

  -- What is written when every dial ends with one error.
  failing_lines :
      (e : Error) (urls : List (Url × Url))
      → NoAt (bytes_of e)
      → All Alike urls
      → dial_lines {Conn = Conn} (λ url. unreachable e) (λ url. none) (map (λ u. text_of u.0) urls)
        ≡ gather (λ u. connecting (shown u.0) ∷ connection_error (bytes_of e) ∷ []) urls
  unfolding dial_lines mask
  failing_lines e [] n h = refl
  failing_lines e (u ∷ urls) n (h, hs) =
      ap₂
        (λ url err.
          connecting url
          ∷ connection_error err
          ∷ dial_lines {Conn = Conn} (λ url. unreachable e) (λ url. none)
              (map (λ v. text_of v.0) urls))
        (mask-text_of u.0 h.plain) (mask_from-NoAt (bytes_of e) n)
      ∙ ap (λ l. connecting (shown u.0) ∷ connection_error (bytes_of e) ∷ l)
          (failing_lines e urls n hs)

  -- URLs `scheme://part:...:part:name:last@host`, whose parts hold no `/`, `:` or `@` (`last` may hold a `/`),
  -- with a name and a last part that are not empty: the log shows each as `scheme://part:...:part:***@host`,
  -- so of a password with two colons or more, it shows the user and all up to the last two parts. What is
  -- written of a dial of such URLs is the same for any others that differ in their names and last parts only,
  -- if the network and the context answer the same. But an error without an `@` that ends every dial is
  -- written as it is, so whatever of a URL it cites is not masked.
  pub log_shows :
      (urls : List (Url × Url)) (e : Error)
      → All Alike urls
      → NoAt (bytes_of e)
      → (map (λ u. mask (text_of u.0)) urls ≡ map (λ u. shown u.0) urls)
        × (dial_lines dial ctx_err (map (λ u. text_of u.0) urls)
            ≡ dial_lines dial' ctx_err' (map (λ u. text_of u.1) urls))
        × (dial_lines {Conn = Conn}
              (λ url. unreachable e)
              (λ url. none)
              (map (λ u. text_of u.0) urls)
            ≡ gather (λ u. connecting (shown u.0) ∷ connection_error (bytes_of e) ∷ []) urls)
  log_shows urls e h n = (All-shown urls h, lines_agree urls h, failing_lines e urls n h)
