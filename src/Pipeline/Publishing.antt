-- ===== src/Pipeline/Publishing.antt =====
-- Several calls of `Publish` on one writer, with the maps of headers that the messages share with their
-- entries in the queue.
use fluent_amqp.Base.{
  ℕ, eqb, ◌≡◌, ◌≢◌, refl, sym, subst, ◌∙◌, ap, ap₂, List, [], ◌∷◌, ◌++◌, Option, none, some, Bool,
  true, false, arith, gather, map, append-nil, append_assoc, All, if◌then◌else◌, inl, inr,
  option_cases,
}
use fluent_amqp.Amqp.{Table, Publishing}
use fluent_amqp.Queue.{MessageQueue}
use fluent_amqp.Queue.Refine.{IsValid, contents}
use fluent_amqp.Writer.{WriterConfig, Outgoing, Message}
use fluent_amqp.Writer.Publish.{process_message, publish, rejected}
use fluent_amqp.Writer.Sending.{entry, publish_accepted}

-- A message and the channel that its `Publish` makes.
abbrev pub Post : Type 0
Post = ℕ × Message

-- The maps of headers by their addresses; a nil map is `none`.
abbrev pub Maps : Type 0
Maps = ℕ → Option Table

-- A call of `Publish`: its channel, its message, and the address of the map in the field `Headers` of the
-- message, whose content is that of the map.
pub record Call : Type 0 where
  pub done : ℕ
  pub message : Message
  pub address : ℕ

-- The call with the headers that the map has now.
abbrev pub read : Maps → Call → Post
read maps call =
    let msg : Publishing = record (call.message.msg) { headers = maps call.address } in
    (call.done, record (call.message) { msg = msg })

-- What the middleware leaves: it writes into the map of the message, from a nil map it makes a new one,
-- which only the copy of the message has.
abbrev pub written : Maps → Call → Publishing → Maps
written maps call m address = elim (maps call.address) [
  | none ↦ maps address
  | some t ↦ if eqb call.address address then m.headers else maps address
]

-- The address of the map that an entry shares with its message, if it shares one.
abbrev pub shared : Maps → Call → Option ℕ
shared maps call = elim (maps call.address) [ none ↦ none | some t ↦ some call.address ]

-- The entries with their headers, as the maps have them.
abbrev pub seen : Maps → List (Option ℕ) → List Outgoing → List Outgoing
seen maps rs [] = []
seen maps [] (o ∷ os) = o ∷ os
seen maps (none ∷ rs) (o ∷ os) = o ∷ seen maps rs os
seen maps (some a ∷ rs) (o ∷ os) =
    record o { msg = record (o.msg) { headers = maps a } } ∷ seen maps rs os

-- The maps, the queue, and the maps that the new entries of the queue share with their messages.
pub record State : Type 0 where
  pub maps : Maps
  pub stream : MessageQueue Outgoing
  pub shares : List (Option ℕ)

-- The queue as the loop of the publisher finds it, if nothing was in it before.
abbrev pub as_seen : State → MessageQueue Outgoing
as_seen st = record (st.stream) {
  messages = elim (st.stream.messages) [ none ↦ none | some os ↦ some (seen st.maps st.shares os) ];
}

-- No two calls have the same map.
abbrev pub AreApart : List Call → Type 0
AreApart [] = Unit
AreApart (call ∷ calls) = All (λ other. call.address ≢ other.address) calls × AreApart calls

as_seen-IsValid :
    (st : State) (messages : Option (List Outgoing))
    → st.stream.messages ≡ messages
    → IsValid st.stream
    → IsValid (as_seen st)
as_seen-IsValid st messages e v = ground (arith, v)

contents-as_seen :
    (st : State) (messages : Option (List Outgoing))
    → st.stream.messages ≡ messages
    → IsValid st.stream
    → contents (as_seen st) ≡ seen st.maps st.shares (contents st.stream)
contents-as_seen st none e v = rw e refl
contents-as_seen st (some os) e v = rw e refl

module _ (wc : WriterConfig) where
  abbrev pub entry_of : Post → Option (Bool × Publishing) → List Outgoing
  entry_of (ch, ms) (some (true, m)) = entry ms ch m ∷ []
  entry_of (ch, ms) _ = []

  -- The entry of a message that the middleware accepts; none for one that it refuses.
  abbrev pub accepted : Post → List Outgoing
  accepted post = entry_of post (process_message wc.middleware post.1.msg)

  -- The middleware does not panic.
  abbrev pub Answers : Post → Type 0
  Answers post =
      (b : Bool) × (m : Publishing) × (process_message wc.middleware post.1.msg ≡ some (b, m))

  -- `Publish` for each call; `none` is a panic of the middleware.
  unfoldable pub publish_all : List Call → Maps → MessageQueue Outgoing → Option State
  publish_all [] maps q = some (record { maps = maps; stream = q; shares = [] })
  publish_all (call ∷ calls) maps q =
      let (ch, ms) = read maps call in
      elim (process_message wc.middleware ms.msg) [
        | none ↦ none
        | some (ok, m) ↦ elim (publish wc ch ms q) [
          | none ↦ none
          | some r ↦ elim (publish_all calls (written maps call m) r.stream) [
            | none ↦ none
            | some st ↦
                some (record st { shares = if ok then shared maps call ∷ st.shares else st.shares })
          ]
        ]
      ]

  -- The maps of other calls stay as they are.
  written-other :
      (maps : Maps) (call : Call) (m : Publishing) (a : ℕ)
      → call.address ≢ a
      → written maps call m a ≡ maps a
  written-other maps call m a n = ground arith

  reads_same :
      (maps : Maps) (call : Call) (m : Publishing) (calls : List Call)
      → All (λ other. call.address ≢ other.address) calls
      → map (read (written maps call m)) calls ≡ map (read maps) calls
  reads_same maps call m [] h = refl
  reads_same maps call m (c ∷ calls) (n, h) =
      ap₂ ◌∷◌
        (ap
          (λ t.
            let msg : Publishing = record (c.message.msg) { headers = t } in
            (c.done, record (c.message) { msg = msg }))
          (written-other maps call m c.address n))
        (reads_same maps call m calls h)

  -- What `publish_all` leaves.
  record Left (calls : List Call) (maps : Maps) (q : MessageQueue Outgoing) : Type 0 where
    state : State
    ran : publish_all calls maps q ≡ some state
    valid : IsValid state.stream
    new : List Outgoing
    queued : contents state.stream ≡ contents q ++ new
    visible : seen state.maps state.shares new ≡ gather accepted (map (read maps) calls)
    kept : (a : ℕ) → All (λ other. a ≢ other.address) calls → state.maps a ≡ maps a

  -- The entry of the first call, once the maps have got their last contents.
  seen_first :
      (maps final : Maps) (call : Call) (ms : Message) (ch : ℕ) (m : Publishing)
      (rs : List (Option ℕ)) (os : List Outgoing)
      → final call.address ≡ written maps call m call.address
      → seen final (shared maps call ∷ rs) (entry ms ch m ∷ os) ≡ entry ms ch m ∷ seen final rs os
  seen_first maps final call ms ch m rs os e = elim (option_cases (maps call.address)) [
    | inl nil ↦
        let own : shared maps call ≡ none = ground (arith, nil) in
        ap (λ r. seen final (r ∷ rs) (entry ms ch m ∷ os)) own
    | inr (t, held) ↦
        let h : final call.address ≡ m.headers = ground (arith, e, held) in
        let both : shared maps call ≡ some call.address = ground (arith, held) in
        ap (λ r. seen final (r ∷ rs) (entry ms ch m ∷ os)) both
        ∙ ap
            (λ t. let o : Outgoing = entry ms ch (record m { headers = t }) in o ∷ seen final rs os)
            h
  ]

  refused_ran :
      (ch : ℕ) (ms : Message) (q : MessageQueue Outgoing) (m : Publishing)
      → process_message wc.middleware ms.msg ≡ some (false, m)
      → publish wc ch ms q ≡ some (record { stream = q; closed = true; err = some rejected })
  unfolding publish
  refused_ran ch ms q m h = ground arith

  left :
      (calls : List Call) (maps : Maps) (q : MessageQueue Outgoing)
      → All Answers (map (read maps) calls)
      → AreApart calls
      → IsValid q
      → Left calls maps q
  unfolding publish_all
  left [] maps q a d v = record {
    state = record { maps = maps; stream = q; shares = [] };
    ran = refl;
    valid = v;
    new = [];
    queued = sym (append-nil (contents q));
    visible = refl;
    kept = λ b h. refl;
  }
  left (call ∷ calls) maps q ((true, m, h), a) (apart, d) v =
      let (ch, ms) = read maps call in
      let (q₁, ran₁, v₁, same) = publish_accepted wc ch ms q m h v in
      let reads = reads_same maps call m calls apart in
      let rest = left calls (written maps call m) q₁ (subst (All Answers) (sym reads) a) d v₁ in
      record {
        state = record (rest.state) { shares = shared maps call ∷ rest.state.shares };
        ran = ground (arith, h, ran₁, rest.ran);
        valid = rest.valid;
        new = entry ms ch m ∷ rest.new;
        queued =
            rest.queued
            ∙ ap (λ c. c ++ rest.new) same
            ∙ append_assoc (contents q) (entry ms ch m ∷ []) rest.new;
        visible =
            seen_first maps rest.state.maps call ms ch m rest.state.shares rest.new
              (rest.kept call.address apart)
            ∙ ap (λ l. entry ms ch m ∷ l) (rest.visible ∙ ap (gather accepted) reads)
            ∙ ap (λ r. entry_of (ch, ms) r ++ gather accepted (map (read maps) calls)) (sym h);
        kept = λ b (n, others). rest.kept b others ∙ written-other maps call m b (λ x. n (sym x));
      }
  left (call ∷ calls) maps q ((false, m, h), a) (apart, d) v =
      let (ch, ms) = read maps call in
      let reads = reads_same maps call m calls apart in
      let rest = left calls (written maps call m) q (subst (All Answers) (sym reads) a) d v in
      record {
        state = rest.state;
        ran = ground (arith, h, rest.ran, refused_ran ch ms q m h);
        valid = rest.valid;
        new = rest.new;
        queued = rest.queued;
        visible =
            rest.visible
            ∙ ap (gather accepted) reads
            ∙ ap (λ r. entry_of (ch, ms) r ++ gather accepted (map (read maps) calls)) (sym h);
        kept = λ b (n, others). rest.kept b others ∙ written-other maps call m b (λ x. n (sym x));
      }

  -- Calls on an empty queue, with a map for each: the loop finds the messages as the middleware left them.
  pub publish_all_lem :
      (calls : List Call) (maps : Maps) (q : MessageQueue Outgoing)
      → All Answers (map (read maps) calls)
      → AreApart calls
      → IsValid q
      → contents q ≡ []
      → (st : State) × (publish_all calls maps q ≡ some st)
        × IsValid (as_seen st)
        × (contents (as_seen st) ≡ gather accepted (map (read maps) calls))
  publish_all_lem calls maps q a d v e =
      let rest = left calls maps q a d v in
      let new : contents rest.state.stream ≡ rest.new = rest.queued ∙ ap (λ c. c ++ rest.new) e in
      (
        rest.state,
        rest.ran,
        as_seen-IsValid rest.state rest.state.stream.messages refl rest.valid,
        contents-as_seen rest.state rest.state.stream.messages refl rest.valid
            ∙ ap (seen rest.state.maps rest.state.shares) new
            ∙ rest.visible,
      )
