-- ===== src/Exec/Order.antt =====
-- The loops over a map of headers in cmd/amqp-exec/main.go and cmd/amqp-send/main.go: Go ranges over a map in
-- any order.
use fluent_amqp.Base.{
  String, ◌≡◌, ◌≢◌, refl, sym, ◌∙◌, ap, List, [], ◌∷◌, none, some, ◌==◌, eq_iff, if◌then◌else◌,
  arith,
}
use fluent_amqp.Amqp.{Value, text, Table, lookup, insert, made}
use fluent_amqp.Amqp.Laws.{lookup-insert}
use fluent_amqp.Writer.{Message, header}
use fluent_amqp.Exec.{add_headers}
use mathlib.Core.Quot
use mathlib.Core.Quot.{Quot}

-- Two orders of one map, whose keys are different.
pub data Reordered : List (String × String) → List (String × String) → Type 0 where
  same : {hs : List (String × String)} → Reordered hs hs
  keep :
      {h : String × String} {hs hs' : List (String × String)}
      → Reordered hs hs'
      → Reordered (h ∷ hs) (h ∷ hs')
  swap :
      {g h : String × String} {hs : List (String × String)}
      → g.0 ≢ h.0
      → Reordered (g ∷ h ∷ hs) (h ∷ g ∷ hs)
  through :
      {hs hs' hs'' : List (String × String)}
      → Reordered hs hs'
      → Reordered hs' hs''
      → Reordered hs hs''

-- Tables that hold the same values. The headers of a message are a table up to its representation.
abbrev pub SameValues : Table → Table → Type 0
SameValues t u = (name : String) → lookup name t ≡ lookup name u

abbrev pub headers_of : Message → Quot SameValues
headers_of ms = Quot.mk (made ms.msg.headers)

-- A message but for its headers.
abbrev pub headless : Message → Message
headless ms = record ms { msg = record (ms.msg) { headers = none } }

record Alike (a b : Message) : Type 0 where
  rest : headless a ≡ headless b
  values : SameValues (made a.msg.headers) (made b.msg.headers)

header-Alike :
    (k : String) (v : Value) {a b : Message} → Alike a b → Alike (header k v a) (header k v b)
unfolding header
header-Alike k v {a} {b} s = record {
  rest = s.rest;
  values = λ name.
      lookup-insert k name v (made a.msg.headers)
      ∙ ap (λ x. if k == name then some v else x) (s.values name)
      ∙ sym (lookup-insert k name v (made b.msg.headers));
}

add_headers-Alike :
    (hs : List (String × String)) {a b : Message}
    → Alike a b
    → Alike (add_headers hs a) (add_headers hs b)
unfolding add_headers
add_headers-Alike [] s = s
add_headers-Alike ((k, v) ∷ hs) s = add_headers-Alike hs (header-Alike k (text v) s)

swap-Alike :
    (j k : String) (v w : Value) (ms : Message)
    → j ≢ k
    → Alike (header k w (header j v ms)) (header j v (header k w ms))
unfolding header
swap-Alike j k v w ms n = record {
  rest = refl;
  values = λ name. ground (
    arith,
    eq_iff j name,
    eq_iff k name,
    eq_iff j k,
    lookup-insert k name w (insert j v (made ms.msg.headers)),
    lookup-insert j name v (made ms.msg.headers),
    lookup-insert j name v (insert k w (made ms.msg.headers)),
    lookup-insert k name w (made ms.msg.headers),
  );
}

Reordered-Alike :
    {hs hs' : List (String × String)}
    → Reordered hs hs'
    → (ms : Message) → Alike (add_headers hs ms) (add_headers hs' ms)
unfolding add_headers
Reordered-Alike same ms = record { rest = refl; values = λ name. refl }
Reordered-Alike (keep {h} r) ms = Reordered-Alike r (header h.0 (text h.1) ms)
Reordered-Alike (swap {g} {h} {hs} n) ms =
    add_headers-Alike hs (swap-Alike g.0 h.0 (text g.1) (text h.1) ms n)
Reordered-Alike (through r q) ms =
    let a = Reordered-Alike r ms in
    let b = Reordered-Alike q ms in
    record { rest = a.rest ∙ b.rest; values = λ name. a.values name ∙ b.values name }

-- Whatever the order in which the loop meets the headers of the map, the message is the same: its headers,
-- taken as the values that they hold, and all of its other fields.
pub order_is_forgotten :
    (hs hs' : List (String × String)) (ms : Message)
    → Reordered hs hs'
    → (headers_of (add_headers hs ms) ≡ headers_of (add_headers hs' ms))
      × (headless (add_headers hs ms) ≡ headless (add_headers hs' ms))
order_is_forgotten hs hs' ms r = let a = Reordered-Alike r ms in (Quot.sound a.values, a.rest)
