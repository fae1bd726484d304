-- ===== src/Pkg/Alarm.antt =====
-- pkg/alarm/alarm.go: subscribers that are woken together. A subscriber stands for its id, its channel of one
-- token is in the record Chan; WakeUpAll visits all subscribers in one step. Add's result is below 2 ^ 64.
pub mod Tokens
pub mod Wakeups
pub mod Combinator
use tetrapod.Base.{
  ℕ, ◌+◌, ◌%◌, ◌^◌, Bool, true, false, List, [], ◌∷◌, Option, none, some, if◌then◌else◌, ℕ_discrete,
}
use tetrapod.Pkg.Syncmap.{Map, load, store, delete}

pub record Chan : Type 0 where
  pub full : Bool
  pub closed : Bool

-- `m` has the subscribers, `chans` the channel of every subscriber there ever was.
pub record Alarm : Type 0 where
  pub m : Map ℕ Unit
  pub counter : ℕ
  pub chans : Map ℕ Chan
  pub panicked : Bool

abbrev pub new_alarm : Alarm
new_alarm = record { m = []; counter = 0; chans = []; panicked = false }

-- The new subscriber, and the alarm with it.
unfoldable pub subscribe : Alarm → ℕ × Alarm
unfolding store ℕ_discrete
subscribe a =
    let id = (a.counter + 1) % 2 ^ 64 in
    (
      id,
      record a {
        m = store ℕ_discrete id tt a.m;
        counter = id;
        chans = store ℕ_discrete id (record { full = false; closed = false }) a.chans;
      },
    )

-- subscriber.wake: a send on a closed channel panics; when the channel is full, the default is taken.
unfoldable pub wake : ℕ → Alarm → Alarm
unfolding load store ℕ_discrete
wake id a = elim (load ℕ_discrete id a.chans) [
  | none ↦ a
  | some c ↦
      if c.closed
      then record a { panicked = true }
      else record a { chans = store ℕ_discrete id (record c { full = true }) a.chans }
]

-- The Range of WakeUpAll over the entries.
unfoldable pub wake_each : Map ℕ Unit → Alarm → Alarm
unfolding wake
wake_each [] a = a
wake_each ((id, u) ∷ m) a = wake_each m (wake id a)

unfoldable pub wake_up_all : Alarm → Alarm
unfolding wake_each
wake_up_all a = wake_each a.m a

-- subscriber.Close: a channel that is closed twice panics.
unfoldable pub close_subscriber : ℕ → Alarm → Alarm
unfolding load store delete ℕ_discrete
close_subscriber id a =
    let a' = record a { m = delete ℕ_discrete id a.m } in
    elim (load ℕ_discrete id a.chans) [
      | none ↦ a'
      | some c ↦
          if c.closed
          then record a' { panicked = true }
          else record a' { chans = store ℕ_discrete id (record c { closed = true }) a.chans }
    ]

-- The receive from C(): whether there was a token, and the alarm without it.
unfoldable pub take_token : ℕ → Alarm → Bool × Alarm
unfolding load store ℕ_discrete
take_token id a = elim (load ℕ_discrete id a.chans) [
  | none ↦ (false, a)
  | some c ↦ (c.full, record a { chans = store ℕ_discrete id (record c { full = false }) a.chans })
]

pub data Event : Type 0 where
  subscribes wakes_up_all : Event
  receives closes : ℕ → Event

unfoldable pub step : Alarm → Event → Alarm
unfolding subscribe wake_up_all close_subscriber take_token
step a subscribes = (subscribe a).1
step a wakes_up_all = wake_up_all a
step a (receives id) = (take_token id a).1
step a (closes id) = close_subscriber id a

unfoldable pub run : List Event → Alarm → Alarm
unfolding step
run [] a = a
run (e ∷ es) a = run es (step a e)
