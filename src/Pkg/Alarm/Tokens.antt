-- ===== src/Pkg/Alarm/Tokens.antt =====
-- What the operations leave of a subscriber: that it is open, its id, its token.
use tetrapod.Base.{
  ℕ, ◌+◌, ◌%◌, ◌^◌, ◌<◌, ◌≤◌, ◌≡◌, refl, Bool, true, false, not, List, [], ◌∷◌, Option, none, some,
  ℕ_discrete, is_some, arith, Option-cases, inl, inr, length,
}
use tetrapod.Pkg.Syncmap.{Map, load}
use tetrapod.Pkg.Syncmap.Laws.{load-store, load-delete}
use tetrapod.Pkg.Alarm.{
  Chan, Alarm, subscribe, wake, wake_each, wake_up_all, close_subscriber, take_token, Event,
  subscribes, wakes_up_all, receives, closes, step, run,
}

-- The subscriber is in the map, and its channel is open.
abbrev pub is_subscribed : ℕ → Alarm → Bool
is_subscribed id a = is_some (load ℕ_discrete id a.m)

abbrev pub is_open : Option Chan → Bool
is_open none = false
is_open (some c) = not c.closed

abbrev pub has_token : Option Chan → Bool
has_token none = false
has_token (some c) = c.full

-- What is subscribed is open; a channel has an id that the counter has reached.
abbrev pub OpenAt : ℕ → Alarm → Type 0
OpenAt id a = is_some (load ℕ_discrete id a.m) ≡ true → is_open (load ℕ_discrete id a.chans) ≡ true

wake-OpenAt : (id j : ℕ) (a : Alarm) → OpenAt id a → OpenAt id (wake j a)
unfolding wake
wake-OpenAt id j a o = elim (Option-cases (load ℕ_discrete j a.chans)) [
  | inl e ↦ ground arith
  | inr (c, e) ↦ ground (arith, load-store ℕ_discrete id j (record c { full = true }) a.chans)
]

wake_each-OpenAt : (id : ℕ) (m : Map ℕ Unit) (a : Alarm) → OpenAt id a → OpenAt id (wake_each m a)
unfolding wake_each
wake_each-OpenAt id [] a o = o
wake_each-OpenAt id ((j, u) ∷ m) a o = wake_each-OpenAt id m (wake j a) (wake-OpenAt id j a o)

step-OpenAt : (id : ℕ) (a : Alarm) (e : Event) → OpenAt id a → OpenAt id (step a e)
unfolding step subscribe wake_up_all close_subscriber take_token
step-OpenAt id a subscribes o =
    let n = (a.counter + 1) % 2 ^ 64 in
    ground (
      arith,
      load-store ℕ_discrete id n tt a.m,
      load-store ℕ_discrete id n (record { full = false; closed = false }) a.chans,
    )
step-OpenAt id a wakes_up_all o = wake_each-OpenAt id a.m a o
step-OpenAt id a (receives j) o = elim (Option-cases (load ℕ_discrete j a.chans)) [
  | inl e ↦ ground arith
  | inr (c, e) ↦ ground (arith, load-store ℕ_discrete id j (record c { full = false }) a.chans)
]
step-OpenAt id a (closes j) o = elim (Option-cases (load ℕ_discrete j a.chans)) [
  | inl e ↦ ground (arith, load-delete ℕ_discrete id j a.m)
  | inr (c, e) ↦ ground (
    arith,
    load-store ℕ_discrete id j (record c { closed = true }) a.chans,
    load-delete ℕ_discrete id j a.m,
  )
]

pub run-OpenAt : (id : ℕ) (es : List Event) (a : Alarm) → OpenAt id a → OpenAt id (run es a)
unfolding run
run-OpenAt id [] a o = o
run-OpenAt id (e ∷ es) a o = run-OpenAt id es (step a e) (step-OpenAt id a e o)

-- Ids are counted up to the number of events.
abbrev pub Counted : ℕ → ℕ → Alarm → Type 0
Counted id n a = (a.counter ≤ n) × (is_subscribed id a ≡ true → id ≤ a.counter)

wake-counter : (j : ℕ) (a : Alarm) → ((wake j a).counter ≡ a.counter) × ((wake j a).m ≡ a.m)
unfolding wake
wake-counter j a = elim (Option-cases (load ℕ_discrete j a.chans)) [
  | inl e ↦ ground arith
  | inr (c, e) ↦ ground arith
]

pub wake_each-counter :
    (m : Map ℕ Unit) (a : Alarm) → ((wake_each m a).counter ≡ a.counter) × ((wake_each m a).m ≡ a.m)
unfolding wake_each
wake_each-counter [] a = (refl, refl)
wake_each-counter ((j, u) ∷ m) a = ground (arith, wake-counter j a, wake_each-counter m (wake j a))

pub step-Counted :
    (id n : ℕ) (a : Alarm) (e : Event)
    → 1 + n < 2 ^ 64
    → Counted id n a
    → Counted id (1 + n) (step a e)
unfolding step subscribe wake_up_all close_subscriber take_token
step-Counted id n a subscribes b h =
    ground (arith, load-store ℕ_discrete id ((a.counter + 1) % 2 ^ 64) tt a.m)
step-Counted id n a wakes_up_all b h = ground (arith, wake_each-counter a.m a)
step-Counted id n a (receives j) b h = elim (Option-cases (load ℕ_discrete j a.chans)) [
  | inl e ↦ ground arith
  | inr (c, e) ↦ ground arith
]
step-Counted id n a (closes j) b h = elim (Option-cases (load ℕ_discrete j a.chans)) [
  | inl e ↦ ground (arith, load-delete ℕ_discrete id j a.m)
  | inr (c, e) ↦ ground (arith, load-delete ℕ_discrete id j a.m)
]

pub run-Counted :
    (id n : ℕ) (es : List Event) (a : Alarm)
    → length es + n < 2 ^ 64
    → Counted id n a
    → Counted id (length es + n) (run es a)
unfolding run
run-Counted id n [] a b h = ground arith
run-Counted id n (e ∷ es) a b h =
    ground (arith, run-Counted id (1 + n) es (step a e), step-Counted id n a e (omega (arith, b)) h)

wake-token :
    (id j : ℕ) (a : Alarm)
    → has_token (load ℕ_discrete id a.chans) ≡ true
    → has_token (load ℕ_discrete id (wake j a).chans) ≡ true
unfolding wake
wake-token id j a h = elim (Option-cases (load ℕ_discrete j a.chans)) [
  | inl e ↦ ground arith
  | inr (c, e) ↦ ground (arith, load-store ℕ_discrete id j (record c { full = true }) a.chans)
]

pub wake_each-token :
    (id : ℕ) (m : Map ℕ Unit) (a : Alarm)
    → has_token (load ℕ_discrete id a.chans) ≡ true
    → has_token (load ℕ_discrete id (wake_each m a).chans) ≡ true
unfolding wake_each
wake_each-token id [] a h = h
wake_each-token id ((j, u) ∷ m) a h = wake_each-token id m (wake j a) (wake-token id j a h)

wake-gives :
    (id : ℕ) (a : Alarm)
    → is_open (load ℕ_discrete id a.chans) ≡ true
    → has_token (load ℕ_discrete id (wake id a).chans) ≡ true
unfolding wake
wake-gives id a o = elim (Option-cases (load ℕ_discrete id a.chans)) [
  | inl e ↦ absurd (ground arith)
  | inr (c, e) ↦ ground (arith, load-store ℕ_discrete id id (record c { full = true }) a.chans)
]

wake-open :
    (id j : ℕ) (a : Alarm)
    → is_open (load ℕ_discrete id a.chans) ≡ true
    → is_open (load ℕ_discrete id (wake j a).chans) ≡ true
unfolding wake
wake-open id j a h = elim (Option-cases (load ℕ_discrete j a.chans)) [
  | inl e ↦ ground arith
  | inr (c, e) ↦ ground (arith, load-store ℕ_discrete id j (record c { full = true }) a.chans)
]

pub wake_each-gives :
    (id : ℕ) (m : Map ℕ Unit) (a : Alarm)
    → is_some (load ℕ_discrete id m) ≡ true
    → is_open (load ℕ_discrete id a.chans) ≡ true
    → has_token (load ℕ_discrete id (wake_each m a).chans) ≡ true
unfolding wake_each load
wake_each-gives id [] a s o = absurd (cc)
wake_each-gives id ((j, u) ∷ m) a s o = elim (ℕ_discrete j id) [
  | yes e ↦ ground (arith, wake_each-token id m (wake j a), wake-gives id a o)
  | no n ↦ ground (arith, wake_each-gives id m (wake j a), wake-open id j a o)
]
