-- ===== src/Pkg/Alarm/Wakeups.antt =====
-- The tokens of subscribers after WakeUpAll.
use tetrapod.Base.{
  ℕ, ◌+◌, ◌%◌, ◌^◌, ◌<◌, ◌≤◌, ◌≡◌, refl, Bool, true, false, not, ◌&&◌, List, [], ◌∷◌, ℕ_discrete,
  ◌==◌, arith, Option-cases, inl, inr, length,
}
use tetrapod.Pkg.Syncmap.{load}
use tetrapod.Pkg.Syncmap.Laws.{load-store}
use tetrapod.Pkg.Alarm.{
  Chan, Alarm, new_alarm, subscribe, wake_up_all, close_subscriber, take_token, Event, subscribes,
  wakes_up_all, receives, closes, step, run,
}
use tetrapod.Pkg.Alarm.Tokens.{
  is_subscribed, is_open, has_token, OpenAt, run-OpenAt, Counted, wake_each-counter, step-Counted,
  run-Counted, wake_each-token, wake_each-gives,
}

-- No event takes the token of the subscriber or closes it.
abbrev pub leaves : ℕ → List Event → Bool
leaves id [] = true
leaves id (subscribes ∷ es) = leaves id es
leaves id (wakes_up_all ∷ es) = leaves id es
leaves id (receives j ∷ es) = not (j == id) && leaves id es
leaves id (closes j ∷ es) = not (j == id) && leaves id es

leaves-cons :
    (id : ℕ) (e : Event) (es : List Event)
    → leaves id (e ∷ es) ≡ true
    → (leaves id (e ∷ []) ≡ true) × (leaves id es ≡ true)
leaves-cons id subscribes es h = (refl, h)
leaves-cons id wakes_up_all es h = (refl, h)
leaves-cons id (receives j) es h = ground arith
leaves-cons id (closes j) es h = ground arith

-- What holds from a wake-up on: the token, and an id that is not given again.
abbrev Woken : ℕ → Alarm → Type 0
Woken id a = (has_token (load ℕ_discrete id a.chans) ≡ true) × (id ≤ a.counter)

step-Woken :
    (id : ℕ) (a : Alarm) (e : Event)
    → 1 + a.counter < 2 ^ 64
    → leaves id (e ∷ []) ≡ true
    → Woken id a
    → Woken id (step a e)
unfolding step subscribe wake_up_all close_subscriber take_token
step-Woken id a subscribes b l w =
    let c : Chan = record { full = false; closed = false } in
    ground (arith, load-store ℕ_discrete id ((a.counter + 1) % 2 ^ 64) c a.chans)
step-Woken id a wakes_up_all b l w =
    ground (arith, wake_each-token id a.m a, wake_each-counter a.m a)
step-Woken id a (receives j) b l w = elim (Option-cases (load ℕ_discrete j a.chans)) [
  | inl e ↦ ground arith
  | inr (c, e) ↦ ground (arith, load-store ℕ_discrete id j (record c { full = false }) a.chans)
]
step-Woken id a (closes j) b l w = elim (Option-cases (load ℕ_discrete j a.chans)) [
  | inl e ↦ ground arith
  | inr (c, e) ↦ ground (arith, load-store ℕ_discrete id j (record c { closed = true }) a.chans)
]

run-Woken :
    (id n : ℕ) (es : List Event) (a : Alarm)
    → length es + n < 2 ^ 64
    → Counted id n a
    → leaves id es ≡ true
    → Woken id a
    → Woken id (run es a)
unfolding run
run-Woken id n [] a b c l w = w
run-Woken id n (e ∷ es) a b c l w = ground (
  arith,
  run-Woken id (1 + n) es (step a e) (omega (arith, b))
      (step-Counted id n a e (omega (arith, b)) c),
  step-Woken id a e (omega (arith, b, c.0)),
  leaves-cons id e es,
  l,
  w,
)

run_new-Counted :
    (id : ℕ) (es : List Event) → length es < 2 ^ 64 → Counted id (length es) (run es new_alarm)
unfolding load
run_new-Counted id es b =
    ground (arith, run-Counted id 0 es new_alarm (omega (arith, b)) (ground arith))

new-OpenAt : (id : ℕ) → OpenAt id new_alarm
unfolding load
new-OpenAt id = λ h. absurd (cc)

wake_up_all-Woken :
    (id : ℕ) (a : Alarm)
    → is_open (load ℕ_discrete id a.chans) ≡ true
    → is_subscribed id a ≡ true
    → id ≤ a.counter
    → Woken id (wake_up_all a)
unfolding wake_up_all
wake_up_all-Woken id a o s c = ground (arith, wake_each-gives id a.m a s o, wake_each-counter a.m a)

take_token-has :
    (id : ℕ) (a : Alarm)
    → has_token (load ℕ_discrete id a.chans) ≡ true
    → (take_token id a).0 ≡ true
unfolding take_token
take_token-has id a h = elim (Option-cases (load ℕ_discrete id a.chans)) [
  | inl e ↦ absurd (ground arith)
  | inr (c, e) ↦ ground arith
]

-- As long as there are fewer than 2 ^ 64 events: whatever subscribers came, went and were woken before, a
-- subscriber that has not been closed and is in the map when WakeUpAll is called finds a token at its next receive,
-- whatever the others do in between.
pub wake_up_all-token :
    (id : ℕ) (es later : List Event)
    → let a = run es new_alarm in
      length later + (1 + length es) < 2 ^ 64
      → is_subscribed id a ≡ true
      → leaves id later ≡ true
      → (take_token id (run later (wake_up_all a))).0 ≡ true
unfolding step
wake_up_all-token id es later b s l =
    let a = run es new_alarm in
    let n = length es in
    let counted : Counted id n a = run_new-Counted id es (omega (arith, b)) in
    let opened : is_open (load ℕ_discrete id a.chans) ≡ true =
      run-OpenAt id es new_alarm (new-OpenAt id) s in
    let woken : Woken id (wake_up_all a) = wake_up_all-Woken id a opened s (counted.1 s) in
    take_token-has id (run later (wake_up_all a))
      (run-Woken id (1 + n) later (wake_up_all a) b
        (step-Counted id n a wakes_up_all (omega (arith, b)) counted) l woken).0
