-- ===== src/Server/Session/Onward.antt =====
-- The steps of a session that no new goroutine and no interrupt starts.
use fluent_amqp.Base.{◌≡◌, refl, sym, subst, true, List, [], ◌∷◌, All}
use fluent_amqp.Server.Session.{
  Call, open_channel, set_qos, channel_ready, close_channel, cancel_context, done, Session, Picks,
  here, other, Step, spawn, work, interrupt, loop_end, leave,
}
use fluent_amqp.Server.Session.Clean.{cancels_lem}

-- Any call but the return of a handler.
abbrev pub IsOwn : Call → Type 0
IsOwn channel_ready = ⊥
IsOwn _ = Unit

abbrev pub IsAny : Call → Type 0
IsAny c = Unit

-- A goroutine that has ended, or whose handler has not returned.
abbrev pub IsHeld : List Call → Type 0
IsHeld [] = Unit
IsHeld (channel_ready ∷ r) = Unit
IsHeld _ = ⊥

-- Steps with no new goroutine and no interrupt; the goroutines make only calls of the given kind.
abbrev pub IsOnward : (Call → Type 0) → {s t : Session} → Step s t → Type 0
IsOnward P (work s c rs p) = P c
IsOnward P (loop_end s e f) = Unit
IsOnward P (leave s e f) = Unit
IsOnward P (spawn s o q e) = ⊥
IsOnward P (interrupt s) = ⊥

pub data Onward (P : Call → Type 0) (s : Session) : Session → Type 0 where
  rest : Onward P s s
  then : {t u : Session} → Onward P s t → (st : Step t u) → IsOnward P st → Onward P s u

-- Calls of the goroutines, one after the other.
pub data Runs (P : Call → Type 0) : List (List Call) → List (List Call) → Type 0 where
  stop : {rs : List (List Call)} → Runs P rs rs
  run :
      {c : Call} {rs mid rs' : List (List Call)}
      → Picks c rs mid
      → P c
      → Runs P mid rs'
      → Runs P rs rs'

module _ (P : Call → Type 0) where
  others : {r : List Call} {rs rs' : List (List Call)} → Runs P rs rs' → Runs P (r ∷ rs) (r ∷ rs')
  others stop = stop
  others (run p o w) = run (other p) o (others w)

  -- The first goroutine can come from `r` to `r'`.
  abbrev pub Comes : List Call → List Call → Type 0
  Comes r r' = (rs rs' : List (List Call)) → Runs P rs rs' → Runs P (r ∷ rs) (r' ∷ rs')

  after_call : (c : Call) (r r' : List Call) → P c → Comes r r' → Comes (c ∷ r) r'
  after_call c r r' o w rs rs' v = run here o (w rs rs' v)

  pub drain :
      (Q : List Call → Type 0) (rs : List (List Call))
      → ((r : List Call) → (r' : List Call) × Q r' × Comes r r')
      → (rs' : List (List Call)) × Runs P rs rs' × All Q rs'
  drain Q [] each = ([], stop, tt)
  drain Q (r ∷ rs) each =
      let (r', q, w) = each r in
      let (rs', v, qs) = drain Q rs each in (r' ∷ rs', w rs rs' v, (q, qs))

  -- The session after these calls.
  pub run_all :
      {rs rs' : List (List Call)} (a s : Session)
      → Runs P rs rs'
      → Onward P a s
      → s.routines ≡ rs
      → s.is_cancelled ≡ true
      → (t : Session) × Onward P a t
        × (t.routines ≡ rs')
        × (t.is_cancelled ≡ true)
        × (t.stage ≡ s.stage)
  run_all a s stop r e k = (s, r, e, k, refl)
  run_all a s (run {c} {mid} p o w) r e k =
      run_all a _ w (then r (work s c mid (subst (λ l. Picks c l mid) (sym e) p)) o) refl
        (cancels_lem c s.is_cancelled k)

pub to_handler : (r : List Call) → (r' : List Call) × IsHeld r' × Comes IsOwn r r'
to_handler [] = ([], tt, λ rs rs' w. others IsOwn w)
to_handler (channel_ready ∷ r) = (channel_ready ∷ r, tt, λ rs rs' w. others IsOwn w)
to_handler (open_channel o ∷ r) =
    let (r', h, w) = to_handler r in (r', h, after_call IsOwn (open_channel o) r r' tt w)
to_handler (set_qos ∷ r) =
    let (r', h, w) = to_handler r in (r', h, after_call IsOwn set_qos r r' tt w)
to_handler (close_channel ∷ r) =
    let (r', h, w) = to_handler r in (r', h, after_call IsOwn close_channel r r' tt w)
to_handler (cancel_context ∷ r) =
    let (r', h, w) = to_handler r in (r', h, after_call IsOwn cancel_context r r' tt w)
to_handler (done ∷ r) = let (r', h, w) = to_handler r in (r', h, after_call IsOwn done r r' tt w)

pub to_end : (r : List Call) → (r' : List Call) × (r' ≡ []) × Comes IsAny r r'
to_end [] = ([], refl, λ rs rs' w. others IsAny w)
to_end (c ∷ r) = let (r', e, w) = to_end r in (r', e, after_call IsAny c r r' tt w)
