-- ===== src/Disco/Ticker.antt =====
-- disco/ticker/ticker.go: when to send pings. A Duration is a number of nanoseconds. The multiplier is a
-- float64 that SetState sets to 2; doubling an interval, which is at most 10 s, is exact there, so a
-- natural number stands for it. wakeCh and reset hold one token at most, and a send to a full one is dropped.
pub mod Schedule
pub mod Backoff
pub mod Races
use tetrapod.Base.{
  ℕ, ◌+◌, ◌*◌, Bool, true, false, not, ◌&&◌, Option, none, some, ltb, leb, if◌then◌else◌, is_yes,
}

pub data State : Type 0 where
  connecting connected unset_state : State

pub data Priority : Type 0 where
  primary sub unset_priority : Priority

unfoldable pub State-discrete : Discrete State
State-discrete = hlevel

unfoldable pub Priority-discrete : Discrete Priority
Priority-discrete = hlevel

abbrev pub millisecond : ℕ
millisecond = 1_000_000

abbrev pub second : ℕ
second = 1_000_000_000

pub record Ticker : Type 0 where
  pub wake_ch : Bool
  pub reset : Bool
  pub closed : Bool
  pub multiplier : ℕ
  pub current_interval : ℕ
  pub max_interval : ℕ
  pub state : State
  pub priority : Priority

abbrev max_interval_for : Priority → ℕ
max_interval_for primary = 3 * second
max_interval_for _ = 10 * second

abbrev start_interval : State → ℕ → ℕ
start_interval connecting interval = 100 * millisecond
start_interval connected interval = 3 * second
start_interval unset_state interval = interval

-- SetState. The early return leaves all as it is, the reset token included.
unfoldable pub set_state : State → Priority → Bool → Ticker → Ticker
unfolding State-discrete Priority-discrete
set_state state priority force_reinit t =
    if not force_reinit
      && (is_yes (State-discrete t.state state) && is_yes (Priority-discrete t.priority priority))
    then t
    else record t {
      max_interval = max_interval_for priority;
      current_interval = start_interval state t.current_interval;
      multiplier = 2;
      state = state;
      priority = priority;
      reset = true;
    }

unfoldable pub wake : Ticker → Ticker
wake t = record t { wake_ch = true }

-- NewTicker, before its goroutine runs.
unfoldable pub new_ticker : Ticker
unfolding set_state wake
new_ticker = wake (
    set_state connecting primary false (record {
      wake_ch = false;
      reset = false;
      closed = false;
      multiplier = 0;
      current_interval = 0;
      max_interval = 0;
      state = unset_state;
      priority = unset_priority;
    }))

-- The locked section at the end of a round of `run`.
unfoldable pub back_off : Ticker → Ticker
back_off t =
    let interval = t.current_interval * t.multiplier in
    record t { current_interval = if ltb t.max_interval interval then t.max_interval else interval }

-- Where the goroutine `run` stands: at the head of the loop, in the select, between the wake-up and the
-- locked section that backs off, or returned.
pub data Pc : Type 0 where
  head waiting fired done : Pc

-- The ticker, with `run`'s place, the time of the last wake-up and what the timer is set to.
pub record Run : Type 0 where
  pub ticker : Ticker
  pub pc : Pc
  pub run_prev : ℕ
  pub deadline : ℕ

-- `go run()`: runPrev is the zero time.
unfoldable pub start : Run
unfolding new_ticker
start = record { ticker = new_ticker; pc = head; run_prev = 0; deadline = 0 }

-- The goroutine's next move, and the calls of others that come between. `Reset(time.Until(d))` fires at
-- the time d, or at once if it is over.
pub data Event : Type 0 where
  arm : Event
  take_reset : Event
  take_closed : Event
  timer_fired : ℕ → Event
  backs_off : Event
  sets_state : State → Priority → Bool → Event
  received : Event
  closes : Event

run_step : Pc → Event → Run → Run
unfolding back_off wake
run_step head arm r = record r { deadline = r.run_prev + r.ticker.current_interval; pc = waiting }
run_step waiting take_reset r =
    if r.ticker.reset then record r { ticker = record ticker { reset = false }; pc = head } else r
  where
    open r use {ticker}
run_step waiting take_closed r = if r.ticker.closed then record r { pc = done } else r
run_step waiting (timer_fired now) r =
    if leb r.deadline now
    then record r { ticker = wake r.ticker; run_prev = now; pc = fired }
    else r
run_step fired backs_off r = record r { ticker = back_off r.ticker; pc = head }
run_step _ _ r = r

-- One step of the goroutine or of another one. A move that its place does not allow changes nothing.
unfoldable pub step : Run → Event → Run
unfolding run_step set_state
step r (sets_state s p force) = record r { ticker = set_state s p force r.ticker }
step r received = record r { ticker = record ticker { wake_ch = false } }
  where
    open r use {ticker}
step r closes = record r { ticker = record ticker { closed = true } }
  where
    open r use {ticker}
step r e = run_step r.pc e r
