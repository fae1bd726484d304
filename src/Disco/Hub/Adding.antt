-- ===== src/Disco/Hub/Adding.antt =====
-- AddPeer of disco/disco.go for one key, called by several goroutines at once on a hub that is open. The
-- goroutine of number `i` makes the peer of number `i`, where it makes one. Each access to the map, and the closing
-- of a peer, is a step of its own.
pub mod Agree
use tetrapod.Base.{
  ℕ, ◌≡◌, ◌≢◌, refl, sym, subst, ap, ◌∙◌, Bool, true, false, List, [], ◌∷◌, Option, none, some,
  if◌then◌else◌, ite, ℕ_discrete, arith,
}

-- Where a call stands: before Load; with a peer of its own, before LoadOrStore; with the peer that was
-- there, before it closes its own; with its own stored, before `temporal` is false; returned.
pub data Place : Type 0 where
  loading making : Place
  losing : ℕ → Place
  winning : Place
  returned : ℕ → Place

-- The entry of the key, each call, and of each peer whether onClose still does nothing and whether it is
-- closed.
pub record Adding : Type 0 where
  pub entry : Option ℕ
  pub place : ℕ → Place
  pub temporal : ℕ → Bool
  pub closed : ℕ → Bool

abbrev pub set_at : {A : Type 0} → ℕ → A → (ℕ → A) → ℕ → A
set_at i a f j = ite (ℕ_discrete i j) a (f j)

-- No peer is there, and every call is at its start.
abbrev pub nobody : Adding
nobody = record { entry = none; place = λ i. loading; temporal = λ i. true; closed = λ i. false }

-- A peer's Close, with onClose.
unfoldable pub close_peer : ℕ → Adding → Adding
close_peer i s =
    let s' = record s { closed = set_at i true s.closed } in
    if s.temporal i then s' else record s' { entry = none }

-- The call `i` is at a place now.
abbrev pub moved : ℕ → Place → Adding → Adding
moved i p s = record s { place = set_at i p s.place }

-- Load, then NewDiscoPeer where there was none.
abbrev pub after_load : Option ℕ → ℕ → Adding → Adding
after_load (some p) i s = moved i (returned p) s
after_load none i s = moved i making s

-- LoadOrStore.
abbrev pub after_load_or_store : Option ℕ → ℕ → Adding → Adding
after_load_or_store (some p) i s = moved i (losing p) s
after_load_or_store none i s = moved i winning (record s { entry = some i })

unfoldable pub go_on : Place → ℕ → Adding → Adding
unfolding close_peer
go_on loading i s = after_load s.entry i s
go_on making i s = after_load_or_store s.entry i s
go_on (losing p) i s = moved i (returned p) (close_peer i s)
go_on winning i s = moved i (returned i) (record s { temporal = set_at i false s.temporal })
go_on (returned p) i s = s

-- The calls go on in the order of the list.
unfoldable pub run : List ℕ → Adding → Adding
unfolding go_on
run [] s = s
run (i ∷ is) s = run is (go_on (s.place i) i s)
