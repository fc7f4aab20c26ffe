-- ===== src/Headers/Range.antt =====
-- What the accessors answer, for every header value.
use fluent_amqp.Base.{
  ℕ, inl, inr, ◌≤◌, ◌<◌, ◌^◌, ◌-◌, String, ◌≡◌, refl, ◌⊎◌, Option, none, some, arith,
}
use fluent_amqp.Base.Int.{ℤ, pos, negsuc}
use fluent_amqp.Amqp.{
  IntKind, int, int8, int16, int32, int64, uint, uint8, uint16, uint32, uint64, Value, text,
  integer, Table, lookup?,
}
use fluent_amqp.Headers.{to_int64, string_header, int_header, as_int, IsSigned, InRange}

pub to_int64_range : (n : ℤ) → IsSigned 63 (to_int64 n)
to_int64_range (pos n) = ground arith
to_int64_range (negsuc n) = ground arith

as_int_range : (v : Option Value) (def : ℤ) → IsSigned 63 def → IsSigned 63 (as_int v def)
unfolding as_int
as_int_range none def h = h
as_int_range (some (integer kind n)) def h = to_int64_range n
as_int_range (some _) def h = h

-- `IntHeader` answers an int64, whatever the header holds, if the default is one.
pub int_header_range :
    (headers : Option Table) (param : String) (def : ℤ)
    → IsSigned 63 def
    → IsSigned 63 (int_header headers param def)
unfolding int_header
int_header_range headers param def h = as_int_range (lookup? param headers) def h

to_int64_exact : (n : ℤ) → IsSigned 63 n → to_int64 n ≡ n
to_int64_exact (pos n) h = ground arith
to_int64_exact (negsuc n) h = ground arith

-- Only the two widest types without sign reach beyond an int64.
abbrev Beyond : IntKind → ℤ → Type 0
Beyond kind n =
    (m : ℕ) × (n ≡ pos m) × (2 ^ 63 ≤ m) × (m < 2 ^ 64) × ((kind ≡ uint) ⊎ (kind ≡ uint64))

half : (m : ℕ) → (2 ^ 63 ≤ m) ⊎ (m < 2 ^ 63)
half m = omega arith

InRange-cases : (kind : IntKind) (n : ℤ) → InRange kind n → IsSigned 63 n ⊎ Beyond kind n
InRange-cases int n r = inl r
InRange-cases int64 n r = inl r
InRange-cases int8 (pos m) r = inl (omega arith)
InRange-cases int8 (negsuc m) r = inl (omega arith)
InRange-cases int16 (pos m) r = inl (omega arith)
InRange-cases int16 (negsuc m) r = inl (omega arith)
InRange-cases int32 (pos m) r = inl (omega arith)
InRange-cases int32 (negsuc m) r = inl (omega arith)
InRange-cases uint8 (pos m) r = inl (omega arith)
InRange-cases uint16 (pos m) r = inl (omega arith)
InRange-cases uint32 (pos m) r = inl (omega arith)
InRange-cases uint (pos m) r = elim (half m) [
  | inl big ↦ inr (m, refl, big, r, inl refl)
  | inr small ↦ inl small
]
InRange-cases uint64 (pos m) r = elim (half m) [
  | inl big ↦ inr (m, refl, big, r, inr refl)
  | inr small ↦ inl small
]
InRange-cases uint (negsuc m) r = absurd r
InRange-cases uint8 (negsuc m) r = absurd r
InRange-cases uint16 (negsuc m) r = absurd r
InRange-cases uint32 (negsuc m) r = absurd r
InRange-cases uint64 (negsuc m) r = absurd r

-- A header of any of the ten integer types: `IntHeader` answers its own value, whatever the default, unless
-- it is a `uint` or `uint64` of 2^63 or more, which comes out as the negative number smaller by 2^64.
pub int_header_wraps :
    (headers : Option Table) (param : String) (def : ℤ) (kind : IntKind) (n : ℤ)
    → lookup? param headers ≡ some (integer kind n)
    → InRange kind n
    → (int_header headers param def ≡ n)
      ⊎ ((m : ℕ) × (n ≡ pos m)
          × (2 ^ 63 ≤ m)
          × (m < 2 ^ 64)
          × ((kind ≡ uint) ⊎ (kind ≡ uint64))
          × (int_header headers param def ≡ negsuc (2 ^ 64 - 1 - m)))
unfolding int_header
int_header_wraps headers param def kind n e r = elim (InRange-cases kind n r) [
  | inl fits ↦ inl (ground (arith, to_int64_exact n fits))
  | inr (m, is, big, small, wide) ↦ inr (m, is, big, small, wide, ground (arith, is))
]

-- `StringHeader` and `BoolHeader` answer either the value that the header holds, at its own type, or
-- the default.
pub string_header_source :
    (headers : Option Table) (param : String) (def s : String)
    → string_header headers param def ≡ s
    → (lookup? param headers ≡ some (text s)) ⊎ (s ≡ def)
unfolding string_header
string_header_source headers param def s e = ground arith
