-- ===== src/Server/Mask.antt =====
-- amqp.go, `maskPassword`, and what dialToFirstReachable writes to the log with it. A text is the list of its
-- bytes. The pattern is `[^/:]+:([^@:]+)@`; its parts cannot overlap, so a match is found without going back.
pub mod Hides
pub mod Log
mod Tests
use fluent_amqp.Base.{
  ℕ, zero, suc, ◌+◌, Bool, true, false, not, ◌||◌, eqb, if◌then◌else◌, List, [], ◌∷◌, ◌++◌, Option,
  none, some, length, tail,
}
use fluent_amqp.Base.Text.{bytes_of}
use fluent_amqp.Amqp.{Error}
use fluent_amqp.Server.{Dialed, connected, unreachable}

-- `[^/:]`
abbrev pub in_name : ℕ → Bool
in_name c = not (eqb c b'/' || eqb c b':')

-- `[^@:]`
abbrev pub in_password : ℕ → Bool
in_password c = not (eqb c b'@' || eqb c b':')

-- The longest run of bytes of a class, and what follows it.
unfoldable pub span : (ℕ → Bool) → List ℕ → List ℕ × List ℕ
span p [] = ([], [])
span p (c ∷ s) = let (run, rest) = span p s in if p c then (c ∷ run, rest) else ([], c ∷ s)

-- The length of a match of a run, a byte, a run and a byte; 0 if one of these is missing.
abbrev pub match_of : (name after password end : List ℕ) → ℕ
match_of (n ∷ name) (c ∷ after) (p ∷ password) (e ∷ end) =
    if eqb c b':'
    then if eqb e b'@' then length (n ∷ name) + length (p ∷ password) + 2 else 0
    else 0
match_of _ _ _ _ = 0

-- The length of the match at the beginning of a text, 0 if there is none.
unfoldable pub match_length : List ℕ → ℕ
unfolding span
match_length s =
    let (name, after) = span in_name s in
    let (password, end) = span in_password (tail after) in match_of name after password end

abbrev pub stars : List ℕ
unfolding bytes_of
stars = bytes_of "***@"

-- `ReplaceAllString`, where the next `k` bytes belong to the last match.
unfoldable pub mask_from : ℕ → List ℕ → List ℕ
unfolding match_length
mask_from k [] = []
mask_from (suc k) (c ∷ s) = mask_from k s
mask_from zero (c ∷ s) = elim (match_length (c ∷ s)) [
  | zero ↦ c ∷ mask_from zero s
  | suc n ↦ stars ++ mask_from n s
]

-- `maskPassword.ReplaceAllString(s, "***@")`
unfoldable pub mask : List ℕ → List ℕ
unfolding mask_from
mask s = mask_from 0 s

-- A call of the logger.
pub data Line : Type 0 where
  connecting connection_error connected_to : List ℕ → Line

-- One round of the loop: the URL without its password, the answers to it, and the rounds after it.
abbrev pub round : {Conn : Type 0} → List ℕ → Dialed Conn → Option Error → List Line → List Line
round url (connected conn) err rest = connecting url ∷ connected_to url ∷ []
round url (unreachable e) (some err) rest =
    connecting url ∷ connection_error (mask (bytes_of e)) ∷ []
round url (unreachable e) none rest = connecting url ∷ connection_error (mask (bytes_of e)) ∷ rest

-- The answers of the network to a URL, and of `ctx.Err()` after the try with it.
module _ {Conn : Type 0} (dial : List ℕ → Dialed Conn) (ctx_err : List ℕ → Option Error) where
  -- What `dialToFirstReachable` writes.
  unfoldable pub dial_lines : List (List ℕ) → List Line
  dial_lines [] = []
  dial_lines (url ∷ urls) = round (mask url) (dial url) (ctx_err url) (dial_lines urls)
