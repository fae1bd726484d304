-- ===== src/Disco/Hub/Adding/Agree.antt =====
-- The calls of AddPeer that run at once, and the peer that each returns.
use tetrapod.Base.{
  ℕ, ◌≡◌, ◌≢◌, refl, sym, subst, ap, ◌∙◌, true, false, List, [], ◌∷◌, Option, none, some,
  ℕ_discrete, arith,
}
use tetrapod.Disco.Hub.Adding.{
  losing, winning, returned, set_at, nobody, close_peer, moved, after_load, after_load_or_store,
  go_on, run, Place, Adding, loading, making,
}

-- What holds of the call `i` at each place.
abbrev Knows : Place → ℕ → Adding → Type 0
Knows loading i s = (s.entry ≢ some i) × (s.closed i ≡ false) × (s.temporal i ≡ true)
Knows making i s = (s.entry ≢ some i) × (s.closed i ≡ false) × (s.temporal i ≡ true)
Knows (losing p) i s = (s.entry ≡ some p) × (p ≢ i) × (s.closed i ≡ false) × (s.temporal i ≡ true)
Knows winning i s = (s.entry ≡ some i) × (s.closed i ≡ false) × (s.temporal i ≡ true)
Knows (returned p) i s = (s.entry ≡ some p) × (p ≡ i → s.closed i ≡ false)

abbrev Inv : Adding → Type 0
Inv s = (j : ℕ) → Knows (s.place j) j s

at_same : {A : Type 0} (i : ℕ) (a : A) (f : ℕ → A) → set_at i a f i ≡ a
at_same i a f = ground arith

at_other : {A : Type 0} (i j : ℕ) (a : A) (f : ℕ → A) → i ≢ j → set_at i a f j ≡ f j
at_other i j a f n = ground arith

-- A step that leaves the entry and what is of `j`.
other-Knows :
    (p : Place) (j : ℕ) (s s' : Adding)
    → s'.closed j ≡ s.closed j
    → s'.temporal j ≡ s.temporal j
    → s'.entry ≡ s.entry
    → Knows p j s
    → Knows p j s'
other-Knows loading j s s' c t e k = ground arith
other-Knows making j s s' c t e k = ground arith
other-Knows (losing p) j s s' c t e k = ground arith
other-Knows winning j s s' c t e k = ground arith
other-Knows (returned p) j s s' c t e k = ground arith

-- The step that stores a peer where there was none.
stored-Knows :
    (p : Place) (i j : ℕ) (s s' : Adding)
    → i ≢ j
    → s.entry ≡ none
    → s'.entry ≡ some i
    → s'.closed j ≡ s.closed j
    → s'.temporal j ≡ s.temporal j
    → Knows p j s
    → Knows p j s'
stored-Knows loading i j s s' n e e' c t k = ground arith
stored-Knows making i j s s' n e e' c t k = ground arith
stored-Knows (losing p) i j s s' n e e' c t k = absurd (ground arith)
stored-Knows winning i j s s' n e e' c t k = absurd (ground arith)
stored-Knows (returned p) i j s s' n e e' c t k = absurd (ground arith)

-- The call `i` at a new place, with what is known there.
moved-Knows :
    (p : Place) (i : ℕ) (s : Adding) → Knows p i s → Knows ((moved i p s).place i) i (moved i p s)
moved-Knows p i s k =
    subst (λ q. Knows q i (moved i p s)) (sym (at_same i p s.place))
      (other-Knows p i s (moved i p s) refl refl refl k)

moved_leaves :
    (p : Place) (i j : ℕ) (s : Adding)
    → i ≢ j
    → Knows (s.place j) j s
    → Knows ((moved i p s).place j) j (moved i p s)
moved_leaves p i j s n k =
    subst (λ q. Knows q j (moved i p s)) (sym (at_other i j p s.place n))
      (other-Knows (s.place j) j s (moved i p s) refl refl refl k)

close_peer-temporal :
    (i : ℕ) (s : Adding)
    → s.temporal i ≡ true
    → close_peer i s ≡ record s { closed = set_at i true s.closed }
unfolding close_peer
close_peer-temporal i s t = ground arith

-- The call that makes the step.
own-Knows :
    (p : Place) (i : ℕ) (s : Adding)
    → s.place i ≡ p
    → Knows p i s
    → Knows ((go_on p i s).place i) i (go_on p i s)
unfolding go_on
own-Knows loading i s h k = by_entry s.entry refl
  where
    by_entry :
        (o : Option ℕ) → s.entry ≡ o → Knows ((after_load o i s).place i) i (after_load o i s)
    by_entry none e = moved-Knows making i s k
    by_entry (some p) e = moved-Knows (returned p) i s (e, λ q. k.1)
own-Knows making i s h k = by_entry s.entry refl
  where
    by_entry :
        (o : Option ℕ)
        → s.entry ≡ o
        → Knows ((after_load_or_store o i s).place i) i (after_load_or_store o i s)
    by_entry none e = moved-Knows winning i (record s { entry = some i }) (refl, k.1, k.2)
    by_entry (some p) e = moved-Knows (losing p) i s (e, λ q. k.0 (e ∙ ap some q), k.1, k.2)
own-Knows (losing p) i s h k = rw (close_peer-temporal i s k.3) (
    moved-Knows (returned p) i (record s { closed = set_at i true s.closed })
      (k.0, λ q. absurd (k.1 q)))
own-Knows winning i s h k =
    moved-Knows (returned i) i (record s { temporal = set_at i false s.temporal }) (k.0, λ q. k.1)
own-Knows (returned p) i s h k = subst (λ q. Knows q i s) (sym h) k

-- Another call.
others-Knows :
    (p : Place) (i j : ℕ) (s : Adding)
    → i ≢ j
    → Knows p i s
    → Knows (s.place j) j s
    → Knows ((go_on p i s).place j) j (go_on p i s)
unfolding go_on
others-Knows loading i j s n k m = by_entry s.entry
  where
    by_entry : (o : Option ℕ) → Knows ((after_load o i s).place j) j (after_load o i s)
    by_entry none = moved_leaves making i j s n m
    by_entry (some p) = moved_leaves (returned p) i j s n m
others-Knows making i j s n k m = by_entry s.entry refl
  where
    by_entry :
        (o : Option ℕ)
        → s.entry ≡ o
        → Knows ((after_load_or_store o i s).place j) j (after_load_or_store o i s)
    by_entry none e =
        let s' = record s { entry = some i } in
        moved_leaves winning i j s' n (stored-Knows (s.place j) i j s s' n e refl refl refl m)
    by_entry (some p) e = moved_leaves (losing p) i j s n m
others-Knows (losing p) i j s n k m =
    let s' = record s { closed = set_at i true s.closed } in
    rw (close_peer-temporal i s k.3) (
      moved_leaves (returned p) i j s' n
        (other-Knows (s.place j) j s s' (at_other i j true s.closed n) refl refl m))
others-Knows winning i j s n k m =
    let s' = record s { temporal = set_at i false s.temporal } in
    moved_leaves (returned i) i j s' n
      (other-Knows (s.place j) j s s' refl (at_other i j false s.temporal n) refl m)
others-Knows (returned p) i j s n k m = m

go_on-Inv : (i : ℕ) (s : Adding) → Inv s → Inv (go_on (s.place i) i s)
go_on-Inv i s v j = elim (ℕ_discrete i j) [
  | yes e ↦
      subst (λ x. Knows ((go_on (s.place i) i s).place x) x (go_on (s.place i) i s)) e
        (own-Knows (s.place i) i s refl (v i))
  | no n ↦ others-Knows (s.place i) i j s n (v i) (v j)
]

run-Inv : (is : List ℕ) (s : Adding) → Inv s → Inv (run is s)
unfolding run
run-Inv [] s v = v
run-Inv (i ∷ is) s v = run-Inv is (go_on (s.place i) i s) (go_on-Inv i s v)

nobody-Inv : Inv nobody
nobody-Inv = λ j. (λ e. cc, refl, refl)

-- The peer of the entry is open.
entry_open : (q : Place) (p : ℕ) (s : Adding) → Knows q p s → s.entry ≡ some p → s.closed p ≡ false
entry_open loading p s k e = absurd (k.0 e)
entry_open making p s k e = absurd (k.0 e)
entry_open (losing x) p s k e = k.2
entry_open winning p s k e = k.1
entry_open (returned x) p s k e = k.1 (cc)

returned-Knows : (i p : ℕ) (s : Adding) → Inv s → s.place i ≡ returned p → s.entry ≡ some p
returned-Knows i p s v h = (subst (λ q. Knows q i s) h (v i)).0

-- However the steps of any number of calls of AddPeer for one key fall, on an open hub without the key: all
-- calls that have returned have returned one and the same peer, which is the entry of the key and is
-- open; so no call that lost closes it or takes it out of the map.
pub add_peer_agree :
    (is : List ℕ) (i j p q : ℕ)
    → let s = run is nobody in
      s.place i ≡ returned p
      → s.place j ≡ returned q
      → (p ≡ q) × (s.entry ≡ some p) × (s.closed p ≡ false)
add_peer_agree is i j p q h g =
    let s = run is nobody in
    let v = run-Inv is nobody nobody-Inv in
    let a = returned-Knows i p s v h in
    let b = returned-Knows j q s v g in (ground arith, a, entry_open (s.place p) p s (v p) a)

-- A peer that is closed between LoadOrStore and `temporal = false` stays in the map.
closed_in_window :
    (i : ℕ) (s : Adding)
    → s.entry ≡ some i
    → s.temporal i ≡ true
    → let t = go_on winning i (close_peer i s) in (t.entry ≡ some i) × (t.closed i ≡ true)
unfolding go_on
closed_in_window i s e t = ground (arith, close_peer-temporal i s t, at_same i true s.closed)
