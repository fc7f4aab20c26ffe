-- ===== src/Server/Dial.antt =====
-- amqp.go, `dialToFirstReachable`: which URL is taken.
use fluent_amqp.Base.{
  ◌≡◌, refl, ap, ◌⊎◌, inl, inr, List, [], ◌∷◌, ◌++◌, Option, none, some, All, arith, option_cases,
}
use fluent_amqp.Amqp.{Error}
use fluent_amqp.Server.{
  Dialed, connected, unreachable, Connection, opened, failed, all_unreachable,
  dial_to_first_reachable,
}

dialed_cases :
    {Conn : Type 0} (d : Dialed Conn)
    → ((conn : Conn) × (d ≡ connected conn)) ⊎ ((e : Error) × (d ≡ unreachable e))
dialed_cases (connected conn) = inl (conn, refl)
dialed_cases (unreachable e) = inr (e, refl)

module _ {Url Conn : Type 0} (dial : Url → Dialed Conn) (ctx_err : Url → Option Error) where
  -- The URL cannot be reached, and the context still stands after the try.
  abbrev pub IsSkipped : Url → Type 0
  IsSkipped url = ((e : Error) × (dial url ≡ unreachable e)) × (ctx_err url ≡ none)

  -- What the last URL tried brings to an end.
  abbrev pub Stops : Url → Connection Conn → Type 0
  Stops url r =
      ((conn : Conn) × (dial url ≡ connected conn) × (r ≡ opened conn))
      ⊎ ((e err : Error) × (dial url ≡ unreachable e) × (ctx_err url ≡ some err) × (r ≡ failed err))

  -- The URLs are tried in their order. Either all are skipped, as unreachable under a context that still
  -- stands, and the error says so; or those before one URL are skipped, no URL after it is tried, and the
  -- result is its connection, or the context's error.
  pub dial_cases :
      (urls : List Url)
      → (All IsSkipped urls
          × (dial_to_first_reachable dial ctx_err urls ≡ (urls, failed all_unreachable)))
        ⊎ ((before : List Url) × (url : Url) × (after : List Url) × (r : Connection Conn) × (urls
              ≡ before ++ url ∷ after)
            × All IsSkipped before
            × Stops url r
            × (dial_to_first_reachable dial ctx_err urls ≡ (before ++ url ∷ [], r)))
  unfolding dial_to_first_reachable
  dial_cases [] = inl (tt, refl)
  dial_cases (url ∷ urls) = elim (dialed_cases (dial url)) [
    | inl (conn, d) ↦ inr ([], url, urls, opened conn, refl, tt, inl (conn, d, refl), ground arith)
    | inr (e, d) ↦ elim (option_cases (ctx_err url)) [
      | inr (err, c) ↦
          inr ([], url, urls, failed err, refl, tt, inr (e, err, d, c, refl), ground arith)
      | inl c ↦ elim (dial_cases urls) [
        | inl (skipped, run) ↦ inl ((((e, d), c), skipped), ground arith)
        | inr (before, u, after, r, split, skipped, stops, run) ↦ inr (
          url ∷ before,
          u,
          after,
          r,
          ap (λ us. url ∷ us) split,
          (((e, d), c), skipped),
          stops,
          ground arith,
        )
      ]
    ]
  ]
