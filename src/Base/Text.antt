-- ===== src/Base/Text.antt =====
-- Text as bytes and numbers as text: `[]byte(s)` and `strconv.FormatInt(n, 10)`.
pub mod Decimal
use Prim.Native.Nat.{ℕ, zero, suc, ◌+◌, ◌/◌, ◌%◌}
use Prim.Native.Char.{code}
use Prim.Native.String
use Prim.Native.String.{String}
use mathlib.Core.Path.{◌≡◌, refl, ap, ◌∙◌, sym}
use mathlib.Core.List.{List, [], ◌∷◌, ◌++◌, append_assoc}
use text.Mathlib.TextLemmas.{nil-append, cons-append}
use fluent_amqp.Base.Tests.{ltb, if◌then◌else◌}
use fluent_amqp.Base.Int.{ℤ, pos, negsuc}

infixl 65 ◌+s◌
-- Go's `+` on strings.
abbrev pub ◌+s◌ : String → String → String
s +s t = String.◌++◌ s t

-- The UTF-8 encoding of a code point.
utf8 : ℕ → List ℕ
utf8 c =
    if ltb c 0x80
    then c ∷ []
    else if ltb c 0x800
    then (0xC0 + c / 64) ∷ (0x80 + c % 64) ∷ []
    else if ltb c 0x10000
    then (0xE0 + c / 4096) ∷ (0x80 + c / 64 % 64) ∷ (0x80 + c % 64) ∷ []
    else (0xF0 + c / 262144) ∷ (0x80 + c / 4096 % 64) ∷ (0x80 + c / 64 % 64) ∷ (0x80 + c % 64) ∷ []

-- `[]byte(s)`
unfoldable pub bytes_of : String → List ℕ
unfolding utf8
bytes_of String.[] = []
bytes_of (String.◌∷◌ c s) = utf8 (code c) ++ bytes_of s

pub bytes_of-append : (s t : String) → bytes_of (s +s t) ≡ bytes_of s ++ bytes_of t
unfolding bytes_of
bytes_of-append String.[] t = ap bytes_of (nil-append t)
bytes_of-append (String.◌∷◌ c s) t =
    ap bytes_of (cons-append c s t)
    ∙ ap (◌++◌ (utf8 (code c))) (bytes_of-append s t)
    ∙ sym (append_assoc (utf8 (code c)) (bytes_of s) (bytes_of t))

digit : ℕ → String
digit n =
    if ltb n 1
    then "0"
    else if ltb n 2
    then "1"
    else if ltb n 3
    then "2"
    else if ltb n 4
    then "3"
    else if ltb n 5
    then "4"
    else if ltb n 6
    then "5"
    else if ltb n 7
    then "6"
    else if ltb n 8
    then "7"
    else if ltb n 9
    then "8"
    else "9"

-- The decimal digits of `n`, with fuel above the number of its digits.
decimal : ℕ → ℕ → String
decimal zero n = ""
decimal (suc fuel) n =
    let more = decimal fuel (n / 10) +s digit (n % 10) in if ltb n 10 then digit n else more

-- `strconv.FormatInt(n, 10)`
unfoldable pub format_int : ℤ → String
unfolding decimal digit
format_int (pos n) = decimal (suc n) n
format_int (negsuc n) = "-" +s decimal (suc (suc n)) (suc n)

format_int_tests :
    (format_int (pos 10000) ≡ "10000")
    × (format_int (negsuc 41) ≡ "-42")
    × (format_int (pos 0) ≡ "0")
unfolding format_int
format_int_tests = (refl, refl, refl)

bytes_of_test : bytes_of "aé" ≡ 97 ∷ 195 ∷ 169 ∷ []
unfolding bytes_of
bytes_of_test = refl
