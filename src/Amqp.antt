-- ===== src/Amqp.antt =====
-- The values that the program hands to and takes from streadway/amqp: header values, tables,
-- deliveries and publishings, with the fields that the program reads or writes, and the table
-- operations of Go's maps.
pub mod Laws
use fluent_amqp.Base.{ℕ, String, Bool, List, Option, none, some, ◌==◌, if◌then◌else◌}
use fluent_amqp.Base.Int.{ℤ}

-- A Go `error`, by its text; `nil` is `none` in `Option Error`.
abbrev pub Error : Type 0
Error = String

-- The dynamic integer types that `IntHeader` and `FloatHeader` tell apart.
pub data IntKind : Type 0 where
  int int8 int16 int32 int64 uint uint8 uint16 uint32 uint64 : IntKind

-- An `interface{}` header value with its dynamic type. A table is an association list. A float
-- stands by its IEEE bits. `other` is a value of any type that the program never asks for.
mutual
  pub data Value : Type 0 where
    bool : Bool → Value
    text : String → Value
    bytes : List ℕ → Value
    integer : IntKind → ℤ → Value
    float32 : ℕ → Value
    float64 : ℕ → Value
    array : Values → Value
    table : Table → Value
    other : ℕ → Value

  pub data Values : Type 0 where
    nil : Values
    cons : Value → Values → Values

  pub data Table : Type 0 where
    empty : Table
    entry : String → Value → Table → Table

-- `v, ok := table[key]`
unfoldable pub lookup : String → Table → Option Value
lookup key empty = none
lookup key (entry k v rest) = if k == key then some v else lookup key rest

-- `table[key] = v`
unfoldable pub insert : String → Value → Table → Table
insert key v empty = entry key v empty
insert key v (entry k w rest) = if k == key then entry key v rest else entry k w (insert key v rest)

-- `delete(table, key)`
unfoldable pub erase : String → Table → Table
erase key empty = empty
erase key (entry k v rest) = if k == key then erase key rest else entry k v (erase key rest)

-- `make(amqp.Table)` where the map is nil.
abbrev pub made : Option Table → Table
made none = empty
made (some t) = t

-- A read of a map that may be nil.
abbrev pub lookup? : String → Option Table → Option Value
lookup? key none = none
lookup? key (some t) = lookup key t

-- amqp.Delivery
pub record Delivery : Type 0 where
  pub headers : Option Table
  pub content_type : String
  pub content_encoding : String
  pub correlation_id : String
  pub reply_to : String
  pub message_id : String
  pub timestamp : ℤ
  pub type : String
  pub routing_key : String
  pub body : List ℕ

-- amqp.Publishing
pub record Publishing : Type 0 where
  pub headers : Option Table
  pub content_type : String
  pub content_encoding : String
  pub delivery_mode : ℕ
  pub correlation_id : String
  pub reply_to : String
  pub expiration : String
  pub message_id : String
  pub timestamp : ℤ
  pub type : String
  pub body : List ℕ
