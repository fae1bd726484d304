-- ===== src/Pkg/Alarm/Combinator.antt =====
-- pkg/alarm/combinator.go and ticker.go: a goroutine that passes the tokens of its sources on through a channel
-- without a buffer. NewTicker's is the same with one source, the time. Which ready case a select takes is an
-- argument; the sources are not closed by others.
use tetrapod.Base.{◌≡◌, refl, Bool, true, false, ◌||◌, List, [], ◌∷◌, if◌then◌else◌, arith}

-- Where the goroutine stands: at the select, at the send, after the deferred calls.
pub data Place : Type 0 where
  selecting sending returned : Place

-- `a` and `b` say that a source has a token; `passed` says that the last receive from C() got one.
pub record Combinator : Type 0 where
  pub a : Bool
  pub b : Bool
  pub closed : Bool
  pub place : Place
  pub sources_closed : Bool
  pub passed : Bool

abbrev pub new_combinator : Combinator
new_combinator = record {
  a = false;
  b = false;
  closed = false;
  place = selecting;
  sources_closed = false;
  passed = false;
}

pub data Choice : Type 0 where
  first second third : Choice

pub data Event : Type 0 where
  a_wakes b_wakes received closes : Event
  chooses : Choice → Event

-- One case of the select, where it is ready.
unfoldable pub select : Choice → Combinator → Combinator
select first c = if c.a then record c { a = false; place = sending } else c
select second c = if c.b then record c { b = false; place = sending } else c
select third c = if c.closed then record c { place = returned; sources_closed = true } else c

-- A receive from C(): it takes the value of a waiting send.
unfoldable pub receive : Place → Combinator → Combinator
receive selecting c = record c { passed = false }
receive sending c = record c { place = selecting; passed = true }
receive returned c = record c { passed = false }

abbrev at_select : Place → Choice → Combinator → Combinator
at_select selecting which c = select which c
at_select sending which c = c
at_select returned which c = c

unfoldable pub step : Combinator → Event → Combinator
unfolding select receive
step c a_wakes = record c { a = true }
step c b_wakes = record c { b = true }
step c received = receive c.place c
step c closes = record c { closed = true }
step c (chooses which) = at_select c.place which c

unfoldable pub run : List Event → Combinator → Combinator
unfolding step
run [] c = c
run (e ∷ es) c = run es (step c e)

-- It returns only when it was closed.
abbrev Returned : Combinator → Type 0
Returned c = c.place ≡ returned → c.closed ≡ true

step-Returned : (c : Combinator) (e : Event) → Returned c → Returned (step c e)
unfolding step select receive
step-Returned c a_wakes r = r
step-Returned c b_wakes r = r
step-Returned c closes r = λ h. refl
step-Returned c received r = by_place c.place refl
  where
    by_place : (p : Place) → c.place ≡ p → Returned (receive p c)
    by_place selecting e = r
    by_place sending e = ground arith
    by_place returned e = r
step-Returned c (chooses which) r = by_place c.place refl which
  where
    by_place : (p : Place) → c.place ≡ p → (which : Choice) → Returned (at_select p which c)
    by_place selecting e first = ground arith
    by_place selecting e second = ground arith
    by_place selecting e third = ground arith
    by_place sending e which = r
    by_place returned e which = r

run-Returned : (es : List Event) (c : Combinator) → Returned c → Returned (run es c)
unfolding run
run-Returned [] c r = r
run-Returned (e ∷ es) c r = run-Returned es (step c e) (step-Returned c e r)

-- A source has a token, or one is about to be passed on.
abbrev pub is_due : Combinator → Bool
is_due c = c.a || c.b || elim c.place [ selecting ↦ false | sending ↦ true | returned ↦ false ]

passes_from :
    (p : Place) (c : Combinator)
    → c.place ≡ p
    → c.closed ≡ false
    → Returned c
    → is_due c ≡ true
    → ((run (chooses first ∷ chooses second ∷ received ∷ []) c).passed ≡ true)
      × ((run (chooses second ∷ chooses first ∷ received ∷ []) c).passed ≡ true)
unfolding run step select receive
passes_from selecting c e o r h = ground arith
passes_from sending c e o r h = ground arith
passes_from returned c e o r h = absurd (ground arith)

-- Whatever the sources, the receiver and the goroutine did before: as long as the combinator is not closed
-- and a source has a token, or one of an earlier wake-up is about to be passed on, a receive from C() gets
-- a token once the goroutine has looked at both sources, in either order.
pub combined_wakeup :
    (es : List Event)
    → let c = run es new_combinator in
      c.closed ≡ false
      → is_due c ≡ true
      → ((run (chooses first ∷ chooses second ∷ received ∷ []) c).passed ≡ true)
        × ((run (chooses second ∷ chooses first ∷ received ∷ []) c).passed ≡ true)
combined_wakeup es o h =
    let c = run es new_combinator in
    passes_from c.place c refl o (run-Returned es new_combinator (λ e. absurd (cc))) h

abbrev receives_none : List Event → Bool
receives_none [] = true
receives_none (received ∷ es) = false
receives_none (a_wakes ∷ es) = receives_none es
receives_none (b_wakes ∷ es) = receives_none es
receives_none (closes ∷ es) = receives_none es
receives_none (chooses which ∷ es) = receives_none es

-- Once it is at the send, it stays there until someone receives, also when it is closed: the sources are never
-- closed.
stuck_sending :
    (es : List Event) (c : Combinator)
    → c.place ≡ sending
    → c.sources_closed ≡ false
    → receives_none es ≡ true
    → ((run es c).place ≡ sending) × ((run es c).sources_closed ≡ false)
unfolding run step
stuck_sending [] c p s h = (p, s)
stuck_sending (received ∷ es) c p s h = absurd (cc)
stuck_sending (a_wakes ∷ es) c p s h = stuck_sending es (record c { a = true }) p s h
stuck_sending (b_wakes ∷ es) c p s h = stuck_sending es (record c { b = true }) p s h
stuck_sending (closes ∷ es) c p s h = stuck_sending es (record c { closed = true }) p s h
stuck_sending (chooses which ∷ es) c p s h =
    let same : at_select c.place which c ≡ c = rw p refl in
    rw (same, run, step) (stuck_sending es c p s h)
