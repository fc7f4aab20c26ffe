-- ===== src/Headers/Typed.antt =====
-- utils.go: which dynamic types each accessor of a header takes.
use fluent_amqp.Base.{ℕ, String, ◌≡◌, ◌≢◌, ◌⊎◌, inl, inr, refl, Bool, Option, none, some, arith}
use fluent_amqp.Base.Int.{ℤ}
use fluent_amqp.Amqp.{IntKind, Value, bool, text, integer, float32, float64, Table, lookup?}
use fluent_amqp.Headers.{
  as_bool, as_string, as_int, as_float, bool_header, string_header, int_header, FloatOps,
  float_header, IsSigned,
}
use fluent_amqp.Headers.Range.{to_int64_range}

-- The dynamic type is one of the integer types or a float.
abbrev pub IsNumber : Value → Type 0
IsNumber (integer kind n) = Unit
IsNumber (float32 f) = Unit
IsNumber (float64 f) = Unit
IsNumber _ = ⊥

-- An accessor answers what the header holds if this has the type that it asks for, and else the default.
abbrev pub Reads {ℓ} : {A : Type ℓ} → (A → Value) → Option Value → (answer default : A) → Type ℓ
Reads {A = A} of held answer default =
    ((x : A) × (held ≡ some (of x)) × (answer ≡ x))
    ⊎ (((x : A) → held ≢ some (of x)) × (answer ≡ default))

as_bool-Reads :
    (held : Option Value) (default : Bool) → Reads bool held (as_bool held default) default
unfolding as_bool
as_bool-Reads (some (bool x)) default = inl (x, refl, refl)
as_bool-Reads none default = inr (λ x e. cc, refl)
as_bool-Reads (some _) default = inr (λ x e. cc, refl)

as_string-Reads :
    (held : Option Value) (default : String) → Reads text held (as_string held default) default
unfolding as_string
as_string-Reads (some (text x)) default = inl (x, refl, refl)
as_string-Reads none default = inr (λ x e. cc, refl)
as_string-Reads (some _) default = inr (λ x e. cc, refl)

as_int_cases :
    (held : Option Value) (default another : ℤ)
    → ((kind : IntKind) × (n : ℤ) × (held ≡ some (integer kind n))
        × IsSigned 63 (as_int held default)
        × (as_int held default ≡ as_int held another))
      ⊎ (((kind : IntKind) (n : ℤ) → held ≢ some (integer kind n))
          × (as_int held default ≡ default))
unfolding as_int
as_int_cases (some (integer kind n)) default another = inl (kind, n, refl, to_int64_range n, refl)
as_int_cases none default another = inr (λ kind n e. cc, refl)
as_int_cases (some _) default another = inr (λ kind n e. cc, refl)

as_float_cases :
    (ops : FloatOps) (held : Option Value) (default another : ℕ)
    → ((v : Value) × (held ≡ some v)
        × IsNumber v
        × (as_float ops held default ≡ as_float ops held another))
      ⊎ (((v : Value) → held ≡ some v → ¬ IsNumber v) × (as_float ops held default ≡ default))
unfolding as_float
as_float_cases ops (some (integer kind n)) default another = inl (integer kind n, refl, tt, refl)
as_float_cases ops (some (float32 f)) default another = inl (float32 f, refl, tt, refl)
as_float_cases ops (some (float64 f)) default another = inl (float64 f, refl, tt, refl)
as_float_cases ops none default another = inr (λ v e. cc, refl)
as_float_cases ops (some _) default another = inr (λ v e. ground arith, refl)

-- For every header, present or not and of any dynamic type: `BoolHeader` and `StringHeader` answer its value
-- if it has their type, and else the default; `IntHeader` answers an int64, the same whatever the default, if
-- it is of an integer type, and else the default; `FloatHeader` answers the same whatever the default if it
-- is a number of any type, and else the default.
pub headers_are_typed :
    (ops : FloatOps) (headers : Option Table) (param : String) (b : Bool) (s : String) (i j : ℤ)
    (f g : ℕ)
    → let held = lookup? param headers in
      Reads bool held (bool_header headers param b) b
      × Reads text held (string_header headers param s) s
      × (((kind : IntKind) × (n : ℤ) × (held ≡ some (integer kind n))
            × IsSigned 63 (int_header headers param i)
            × (int_header headers param i ≡ int_header headers param j))
          ⊎ (((kind : IntKind) (n : ℤ) → held ≢ some (integer kind n))
              × (int_header headers param i ≡ i)))
      × (((v : Value) × (held ≡ some v)
            × IsNumber v
            × (float_header ops headers param f ≡ float_header ops headers param g))
          ⊎ (((v : Value) → held ≡ some v → ¬ IsNumber v) × (float_header ops headers param f ≡ f)))
unfolding bool_header string_header int_header float_header
headers_are_typed ops headers param b s i j f g =
    let held = lookup? param headers in
    (
      as_bool-Reads held b,
      as_string-Reads held s,
      as_int_cases held i j,
      as_float_cases ops held f g,
    )
