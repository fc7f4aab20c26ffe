-- ===== src/Headers.antt =====
-- utils.go: the typed accessors of message headers.
pub mod Range
pub mod Typed
mod Tests
use fluent_amqp.Base.{ℕ, ◌<◌, ◌-◌, ◌%◌, ◌^◌, String, Bool, Option, none, some, ltb, if◌then◌else◌}
use fluent_amqp.Base.Int.{ℤ, pos, negsuc}
use fluent_amqp.Amqp.{
  IntKind, int, int8, int16, int32, int64, uint, uint8, uint16, uint32, uint64, Value, bool, text,
  integer, float32, float64, Table, lookup?,
}

-- The conversion `int64(t)`: the low 64 bits, read as a two's complement number. `int` and `uint`
-- have 64 bits.
abbrev pub to_int64 : ℤ → ℤ
to_int64 (pos n) =
    if ltb (n % 2 ^ 64) (2 ^ 63) then pos (n % 2 ^ 64) else negsuc (2 ^ 64 - 1 - n % 2 ^ 64)
to_int64 (negsuc n) =
    if ltb (n % 2 ^ 64) (2 ^ 63) then negsuc (n % 2 ^ 64) else pos (2 ^ 64 - 1 - n % 2 ^ 64)

as_bool : Option Value → Bool → Bool
as_bool (some (bool b)) def = b
as_bool _ def = def

-- `BoolHeader(msg, param, def)`; the first argument is `msg.Headers`.
pub bool_header : Option Table → String → Bool → Bool
unfolding as_bool
bool_header headers param def = as_bool (lookup? param headers) def

as_string : Option Value → String → String
as_string (some (text s)) def = s
as_string _ def = def

pub string_header : Option Table → String → String → String
unfolding as_string
string_header headers param def = as_string (lookup? param headers) def

as_int : Option Value → ℤ → ℤ
as_int (some (integer kind n)) def = to_int64 n
as_int _ def = def

pub int_header : Option Table → String → ℤ → ℤ
unfolding as_int
int_header headers param def = as_int (lookup? param headers) def

-- The conversions `float64(t)` from an integer and from a float32, on IEEE bits.
pub record FloatOps : Type 0 where
  pub of_int : ℤ → ℕ
  pub widen : ℕ → ℕ

as_float : FloatOps → Option Value → ℕ → ℕ
as_float ops (some (integer kind n)) def = ops.of_int n
as_float ops (some (float32 f)) def = ops.widen f
as_float ops (some (float64 f)) def = f
as_float ops _ def = def

pub float_header : FloatOps → Option Table → String → ℕ → ℕ
unfolding as_float
float_header ops headers param def = as_float ops (lookup? param headers) def

abbrev pub IsSigned : ℕ → ℤ → Type 0
IsSigned w (pos n) = n < 2 ^ w
IsSigned w (negsuc n) = n < 2 ^ w

abbrev pub IsUnsigned : ℕ → ℤ → Type 0
IsUnsigned w (pos n) = n < 2 ^ w
IsUnsigned w (negsuc n) = ⊥

-- The values that a variable of each dynamic integer type can hold.
abbrev pub InRange : IntKind → ℤ → Type 0
InRange int n = IsSigned 63 n
InRange int8 n = IsSigned 7 n
InRange int16 n = IsSigned 15 n
InRange int32 n = IsSigned 31 n
InRange int64 n = IsSigned 63 n
InRange uint n = IsUnsigned 64 n
InRange uint8 n = IsUnsigned 8 n
InRange uint16 n = IsUnsigned 16 n
InRange uint32 n = IsUnsigned 32 n
InRange uint64 n = IsUnsigned 64 n
