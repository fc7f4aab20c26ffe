-- ===== src/Base/Text/Decimal.antt =====
-- Decimal numerals read back.
use Prim.Native.Nat.{ℕ, zero, suc, ◌+◌, ◌-◌, ◌*◌, ◌/◌, ◌%◌, ◌<◌}
use Prim.Native.String.{String}
use mathlib.Core.Path.{◌≡◌, refl, ap, ◌∙◌}
use mathlib.Core.Bool.{◌&&◌}
use mathlib.Core.Option.{Option, none, some}
use mathlib.Core.List.{List, [], ◌∷◌, ◌++◌}
use mathlib.Core.Logic.{inl, inr}
use native.Mathlib.Omega.{arith}
use fluent_amqp.Base.Tests.{ltb, leb, if◌then◌else◌, Bool-cases}
use fluent_amqp.Base.Int.{pos}
use fluent_amqp.Base.Text.{bytes_of, bytes_of-append, digit, decimal, format_int}

-- The value of a row of digits after the digits read so far; `none` if a byte is no digit.
read_from : ℕ → List ℕ → Option ℕ
read_from acc [] = some acc
read_from acc (b ∷ bs) = if leb 48 b && ltb b 58 then read_from (acc * 10 + (b - 48)) bs else none

unfoldable pub read_decimal : String → Option ℕ
unfolding read_from bytes_of
read_decimal s = read_from 0 (bytes_of s)

read_from-snoc :
    (bs : List ℕ) (acc n d : ℕ)
    → read_from acc bs ≡ some n
    → d < 10
    → read_from acc (bs ++ (48 + d) ∷ []) ≡ some (n * 10 + d)
unfolding read_from
read_from-snoc [] acc n d e l = ground arith
read_from-snoc (b ∷ bs) acc n d e l = ground (arith, read_from-snoc bs (acc * 10 + (b - 48)) n d)

bytes_of-digit : (d : ℕ) → d < 10 → bytes_of (digit d) ≡ (48 + d) ∷ []
unfolding digit bytes_of
bytes_of-digit zero l = refl
bytes_of-digit (suc zero) l = refl
bytes_of-digit (suc (suc zero)) l = refl
bytes_of-digit (suc (suc (suc zero))) l = refl
bytes_of-digit (suc (suc (suc (suc zero)))) l = refl
bytes_of-digit (suc (suc (suc (suc (suc zero))))) l = refl
bytes_of-digit (suc (suc (suc (suc (suc (suc zero)))))) l = refl
bytes_of-digit (suc (suc (suc (suc (suc (suc (suc zero))))))) l = refl
bytes_of-digit (suc (suc (suc (suc (suc (suc (suc (suc zero)))))))) l = refl
bytes_of-digit (suc (suc (suc (suc (suc (suc (suc (suc (suc zero))))))))) l = refl
bytes_of-digit (suc (suc (suc (suc (suc (suc (suc (suc (suc (suc n)))))))))) l =
    absurd (omega arith)

read_digit : (n : ℕ) → n < 10 → read_from 0 ((48 + n) ∷ []) ≡ some n
unfolding read_from
read_digit n l = ground arith

read_decimal-decimal : (fuel n : ℕ) → n < fuel → read_from 0 (bytes_of (decimal fuel n)) ≡ some n
unfolding decimal
read_decimal-decimal zero n l = absurd (omega arith)
read_decimal-decimal (suc fuel) n l = elim (Bool-cases (ltb n 10)) [
  | inl small ↦
      rw (small) (ap (read_from 0) (bytes_of-digit n (ground arith)) ∙ read_digit n (ground arith))
  | inr large ↦ rw (large) (
      ap (read_from 0) (
        bytes_of-append (decimal fuel (n / 10)) (digit (n % 10))
        ∙ ap (λ bs. bytes_of (decimal fuel (n / 10)) ++ bs) (bytes_of-digit (n % 10) (omega arith)))
      ∙ read_from-snoc (bytes_of (decimal fuel (n / 10))) 0 (n / 10) (n % 10)
          (read_decimal-decimal fuel (n / 10) (ground arith)) (omega arith)
      ∙ ap some (omega arith))
]

-- A number that is written in decimal is read as it was.
pub read_decimal-format_int : (n : ℕ) → read_decimal (format_int (pos n)) ≡ some n
unfolding read_decimal format_int
read_decimal-format_int n = read_decimal-decimal (suc n) n (omega arith)
