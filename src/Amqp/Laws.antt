-- ===== src/Amqp/Laws.antt =====
-- Laws of the table operations.
use fluent_amqp.Base.{
  String, ◌≡◌, refl, ◌≢◌, none, some, ◌==◌, eq_iff, eq_refl, arith, if◌then◌else◌,
}
use fluent_amqp.Amqp.{Value, Table, empty, entry, lookup, insert, erase}

pub lookup-insert :
    (k j : String) (v : Value) (t : Table)
    → lookup j (insert k v t) ≡ (if k == j then some v else lookup j t)
unfolding lookup insert
lookup-insert k j v empty = refl
lookup-insert k j v (entry i w t) =
    ground (arith, eq_iff k j, eq_iff i k, eq_iff i j, lookup-insert k j v t)

pub lookup-insert_self : (k : String) (v : Value) (t : Table) → lookup k (insert k v t) ≡ some v
lookup-insert_self k v t = ground (arith, lookup-insert k k v t, eq_refl k)

pub lookup-insert_ne :
    (k j : String) (v : Value) (t : Table) → k ≢ j → lookup j (insert k v t) ≡ lookup j t
lookup-insert_ne k j v t h = ground (arith, lookup-insert k j v t, eq_iff k j)

pub lookup-erase :
    (k j : String) (t : Table) → lookup j (erase k t) ≡ (if k == j then none else lookup j t)
unfolding lookup erase
lookup-erase k j empty = ground arith
lookup-erase k j (entry i w t) =
    ground (arith, eq_iff k j, eq_iff i k, eq_iff i j, lookup-erase k j t)
