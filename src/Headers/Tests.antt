-- ===== src/Headers/Tests.antt =====
-- Tests of the header accessors.
use fluent_amqp.Base.{ℕ, ◌≢◌, true, ◌⊎◌, ◌≤◌, ◌<◌, ◌-◌, ◌^◌, ◌≡◌, refl, Option, some, arith}
use fluent_amqp.Base.Int.{ℤ, pos, negsuc}
use fluent_amqp.Amqp.{
  IntKind, Value, bool, lookup?, int16, uint, uint64, integer, text, Table, empty, entry, lookup,
}
use fluent_amqp.Headers.{FloatOps, bool_header, int_header, string_header, float_header, IsSigned}
use fluent_amqp.Headers.Typed.{Reads, IsNumber, headers_are_typed}
use fluent_amqp.Headers.Range.{int_header_wraps}

abbrev sample : Option Table
sample = some (
    entry "small" (integer int16 (negsuc 4))
      (entry "big" (integer uint64 (pos (2 ^ 64 - 2))) (entry "name" (text "x") empty)))

int_header_tests :
    (int_header sample "name" (pos 7) ≡ pos 7)
    × (int_header sample "gone" (pos 7) ≡ pos 7)
    × (string_header sample "name" "d" ≡ "x")
    × (string_header sample "small" "d" ≡ "d")
unfolding int_header string_header lookup
int_header_tests = (refl, refl, refl, refl)

int_header_wraps_example :
    (int_header sample "big" (pos 7) ≡ pos (2 ^ 64 - 2))
    ⊎ ((m : ℕ) × (pos (2 ^ 64 - 2) ≡ pos m)
        × (2 ^ 63 ≤ m)
        × (m < 2 ^ 64)
        × ((uint64 ≡ uint) ⊎ (uint64 ≡ uint64))
        × (int_header sample "big" (pos 7) ≡ negsuc (2 ^ 64 - 1 - m)))
unfolding lookup
int_header_wraps_example =
    int_header_wraps sample "big" (pos 7) uint64 (pos (2 ^ 64 - 2)) refl (omega arith)

big_is_negative : int_header sample "big" (pos 7) ≡ negsuc 1
unfolding int_header lookup
big_is_negative = refl

-- Floats by their bits, with conversions that keep them.
abbrev ops : FloatOps
ops = record { of_int = λ n. 1; widen = λ n. n }

headers_are_typed_example :
    Reads bool (lookup? "big" sample) (bool_header sample "big" true) true
    × Reads text (lookup? "big" sample) (string_header sample "big" "d") "d"
    × (((kind : IntKind) × (n : ℤ) × (lookup? "big" sample ≡ some (integer kind n))
          × IsSigned 63 (int_header sample "big" (pos 7))
          × (int_header sample "big" (pos 7) ≡ int_header sample "big" (pos 8)))
        ⊎ (((kind : IntKind) (n : ℤ) → lookup? "big" sample ≢ some (integer kind n))
            × (int_header sample "big" (pos 7) ≡ pos 7)))
    × (((v : Value) × (lookup? "big" sample ≡ some v)
          × IsNumber v
          × (float_header ops sample "big" 2 ≡ float_header ops sample "big" 3))
        ⊎ (((v : Value) → lookup? "big" sample ≡ some v → ¬ IsNumber v)
            × (float_header ops sample "big" 2 ≡ 2)))
headers_are_typed_example = headers_are_typed ops sample "big" true "d" (pos 7) (pos 8) 2 3
