-- ===== src/Rpc/Channels.antt =====
-- The map of the correlation ids, one delivery, and the view of one reply channel.
use fluent_amqp.Base.{
  ℕ, eqb, ◌<◌, ◌≤◌, String, ◌≡◌, ◌≢◌, refl, List, [], ◌∷◌, ◌++◌, none, some, ◌==◌, if◌then◌else◌,
  eq_iff, gather, arith,
}
use fluent_amqp.Amqp.{Delivery}
use fluent_amqp.Rpc.{
  Pending, waiting_for, register, forget, Effect, sent, delivered, closed, Rpc, Event, calls,
  arrives, on_message,
}

pub waiting_for-register :
    (id j : String) (ch : ℕ) (p : Pending)
    → waiting_for j (register id ch p) ≡ (if id == j then some ch else waiting_for j p)
unfolding waiting_for register
waiting_for-register id j ch [] = refl
waiting_for-register id j ch ((k, c) ∷ rest) =
    ground (arith, eq_iff id j, eq_iff k id, eq_iff k j, waiting_for-register id j ch rest)

pub waiting_for-forget :
    (id j : String) (p : Pending)
    → waiting_for j (forget id p) ≡ (if id == j then none else waiting_for j p)
unfolding waiting_for forget
waiting_for-forget id j [] = ground arith
waiting_for-forget id j ((k, c) ∷ rest) =
    ground (arith, eq_iff id j, eq_iff k id, eq_iff k j, waiting_for-forget id j rest)

-- What happens to one channel.
abbrev pub on_channel : ℕ → Effect → List Effect
on_channel ch (sent m) = []
on_channel ch (delivered c msg) = if eqb c ch then delivered c msg ∷ [] else []
on_channel ch (closed c) = if eqb c ch then closed c ∷ [] else []

-- The first delivery with the correlation id, handed to the channel, which is then closed.
abbrev pub first_reply : String → ℕ → List Event → List Effect
first_reply id ch [] = []
first_reply id ch (calls j now msg ∷ es) = first_reply id ch es
first_reply id ch (arrives msg ∷ es) =
    if msg.correlation_id == id then delivered ch msg ∷ closed ch ∷ [] else first_reply id ch es

-- `uuid.New` gives another id.
abbrev pub IsOther : String → Event → Type 0
IsOther id (calls j now msg) = j ≢ id
IsOther id (arrives msg) = Unit

-- All channels in the map and in the log have been made.
abbrev pub IsMade : Rpc → Type 0
IsMade rpc =
    ((j : String) (c : ℕ) → waiting_for j rpc.correlation ≡ some c → c < rpc.channels)
    × ((c : ℕ) → rpc.channels ≤ c → gather (on_channel c) rpc.log ≡ [])

-- The channel waits under this id and no other.
abbrev pub Waits : String → ℕ → Rpc → Type 0
Waits id ch rpc =
    (waiting_for id rpc.correlation ≡ some ch)
    × ((j : String) → waiting_for j rpc.correlation ≡ some ch → j ≡ id)
    × (ch < rpc.channels)

-- The channel has its reply.
abbrev pub IsOver : ℕ → Rpc → Type 0
IsOver ch rpc = ((j : String) → waiting_for j rpc.correlation ≢ some ch) × (ch < rpc.channels)

pub on_message-none :
    (msg : Delivery) (rpc : Rpc)
    → waiting_for msg.correlation_id rpc.correlation ≡ none
    → on_message msg rpc ≡ rpc
unfolding on_message
on_message-none msg rpc e = ground arith

-- The state after a delivery that the channel `c` waits for.
abbrev pub handed : Delivery → ℕ → Rpc → Rpc
handed msg c rpc = record rpc {
  correlation = forget msg.correlation_id rpc.correlation;
  log = rpc.log ++ delivered c msg ∷ closed c ∷ [];
}

pub on_message-some :
    (msg : Delivery) (rpc : Rpc) (c : ℕ)
    → waiting_for msg.correlation_id rpc.correlation ≡ some c
    → on_message msg rpc ≡ handed msg c rpc
unfolding on_message
on_message-some msg rpc c e = ground arith
