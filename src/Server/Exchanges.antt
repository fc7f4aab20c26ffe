-- ===== src/Server/Exchanges.antt =====
-- sink.go, the methods of `*Exchange` that go on with its sink, and the chains of calls that a program makes
-- of them. A pointer to an exchange is its place among the bindings of its sink, with this sink.
use fluent_amqp.Base.{
  ℕ, ◌≡◌, refl, sym, ◌∙◌, ap, String, List, [], ◌∷◌, ◌++◌, append_assoc, append-nil, length, map,
  none,
}
use fluent_amqp.Sink
use fluent_amqp.Sink.{Exchange, SinkConfig, update_at, key, exchange}
use fluent_amqp.Server.Handlers.{StateHandler, handler_func, transact_func}

unfoldable pub topic : String → ℕ × SinkConfig → ℕ × SinkConfig
topic name (exc, snk) = Sink.topic name snk

unfoldable pub direct : String → ℕ × SinkConfig → ℕ × SinkConfig
direct name (exc, snk) = Sink.direct name snk

unfoldable pub fanout : String → ℕ × SinkConfig → ℕ × SinkConfig
fanout name (exc, snk) = Sink.fanout name snk

-- `HandlerFunc` and `Handler`
unfoldable pub handle_with : ℕ × SinkConfig → List StateHandler → List StateHandler
handle_with (exc, snk) handlers = handler_func snk handlers

-- `TransactFunc` and `Transact`
unfoldable pub transact_with : ℕ × SinkConfig → List StateHandler → List StateHandler
transact_with (exc, snk) handlers = transact_func snk handlers

-- A call of `Topic`, `Direct` or `Fanout` and one of `Key` on the exchange that it returns.
data Kind : Type 0 where
  to_topic to_direct to_fanout : Kind

record Link : Type 0 where
  kind : Kind
  name : String
  keys : List String

abbrev add : Kind → String → ℕ × SinkConfig → ℕ × SinkConfig
add to_topic = topic
add to_direct = direct
add to_fanout = fanout

abbrev go_on : Link → ℕ × SinkConfig → ℕ × SinkConfig
go_on link p = let (exc, snk) = add link.kind link.name p in (exc, key exc link.keys snk)

abbrev chain : List Link → ℕ × SinkConfig → ℕ × SinkConfig
chain [] p = p
chain (link ∷ links) p = chain links (go_on link p)

abbrev kind_name : Kind → String
kind_name to_topic = "topic"
kind_name to_direct = "direct"
kind_name to_fanout = "fanout"

abbrev exchange_of : Link → Exchange
exchange_of link = record {
  name = link.name;
  kind = kind_name link.kind;
  binding = link.keys;
  attrs = none;
}

update_at-last :
    (f : Exchange → Exchange) (xs : List Exchange) (x : Exchange)
    → update_at (length xs) f (xs ++ x ∷ []) ≡ xs ++ f x ∷ []
update_at-last f [] x = refl
update_at-last f (y ∷ xs) x = ap (λ l. y ∷ l) (update_at-last f xs x)

key-add :
    (kind : Kind) (name : String) (keys : List String) (exc : ℕ) (snk : SinkConfig)
    → (let (new, snk') = add kind name (exc, snk) in key new keys snk').bindings
      ≡ snk.bindings
        ++ record { name = name; kind = kind_name kind; binding = keys; attrs = none } ∷ []
unfolding topic direct fanout Sink.topic Sink.direct Sink.fanout exchange key
key-add to_topic name keys exc snk =
    update_at-last (λ e. record e { binding = e.binding ++ keys }) snk.bindings
      (record { name = name; kind = "topic"; binding = []; attrs = none })
key-add to_direct name keys exc snk =
    update_at-last (λ e. record e { binding = e.binding ++ keys }) snk.bindings
      (record { name = name; kind = "direct"; binding = []; attrs = none })
key-add to_fanout name keys exc snk =
    update_at-last (λ e. record e { binding = e.binding ++ keys }) snk.bindings
      (record { name = name; kind = "fanout"; binding = []; attrs = none })

go_on-bindings :
    (link : Link) (p : ℕ × SinkConfig)
    → (go_on link p).1.bindings ≡ p.1.bindings ++ exchange_of link ∷ []
go_on-bindings link (exc, snk) = key-add link.kind link.name link.keys exc snk

-- A chain of calls leaves the sink with its bindings and then those of the chain, in its order, each
-- exchange with its own keys.
chain-bindings :
    (links : List Link) (p : ℕ × SinkConfig)
    → (chain links p).1.bindings ≡ p.1.bindings ++ map exchange_of links
chain-bindings [] p = sym (append-nil p.1.bindings)
chain-bindings (link ∷ links) p =
    chain-bindings links (go_on link p)
    ∙ ap (λ l. l ++ map exchange_of links) (go_on-bindings link p)
    ∙ append_assoc p.1.bindings (exchange_of link ∷ []) (map exchange_of links)
