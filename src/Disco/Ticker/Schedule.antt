-- ===== src/Disco/Ticker/Schedule.antt =====
-- What holds of the ticker's timing at every point of every interleaving.
use tetrapod.Base.{ℕ, ◌+◌, ◌*◌, ◌≤◌, ◌≡◌, ◌≢◌, ◌⊎◌, true, List, [], ◌∷◌, arith, All}
use tetrapod.Disco.Ticker.{
  unset_state, primary, sub, unset_priority, State-discrete, Priority-discrete, waiting, fired, Run,
  Event, sets_state, arm, take_reset, take_closed, timer_fired, backs_off, received, closes,
  millisecond, second, start, step,
}

-- The calls that the program makes: with one of the two states and one of the two priorities.
abbrev pub IsCall : Event → Type 0
IsCall (sets_state s p force) = (s ≢ unset_state) × (p ≢ unset_priority)
IsCall _ = Unit

pub record Inv (r : Run) : Type 0 where
  pub doubles : r.ticker.multiplier ≡ 2
  pub state_set : r.ticker.state ≢ unset_state
  pub primary_cap : r.ticker.priority ≡ primary → r.ticker.max_interval ≡ 3 * second
  pub sub_cap : r.ticker.priority ≡ sub → r.ticker.max_interval ≡ 10 * second
  pub cap_low : 3 * second ≤ r.ticker.max_interval
  pub cap_high : r.ticker.max_interval ≤ 10 * second
  pub interval_low : 100 * millisecond ≤ r.ticker.current_interval
  pub interval_high : r.ticker.current_interval ≤ r.ticker.max_interval
  pub fresh_or_reset :
      r.pc ≡ waiting
      → (r.deadline ≡ r.run_prev + r.ticker.current_interval) ⊎ (r.ticker.reset ≡ true)
  pub not_early : r.pc ≡ waiting → r.run_prev + 100 * millisecond ≤ r.deadline
  pub not_late : r.pc ≡ waiting → r.deadline ≤ r.run_prev + 10 * second

start-Inv : Inv start
unfolding start State-discrete Priority-discrete
start-Inv = ground arith

step-Inv : (r : Run) (e : Event) → IsCall e → Inv r → Inv (step r e)
unfolding step
step-Inv r (sets_state s p force) c v = ground arith
step-Inv r arm c v = ground arith
step-Inv r take_reset c v = ground arith
step-Inv r take_closed c v = ground arith
step-Inv r (timer_fired now) c v = ground arith
step-Inv r backs_off c v = ground arith
step-Inv r received c v = ground arith
step-Inv r closes c v = ground arith

unfoldable pub run : Run → List Event → Run
run r [] = r
run r (e ∷ es) = run (step r e) es

run_from-Inv : (r : Run) (es : List Event) → All IsCall es → Inv r → Inv (run r es)
unfolding run
run_from-Inv r [] c v = v
run_from-Inv r (e ∷ es) c v = run_from-Inv (step r e) es c.1 (step-Inv r e c.0 v)

-- After any interleaving of the goroutine with SetState, Close and receivers, the interval lies between
-- 100 ms and the cap of the priority in force, and a timer that was set for an interval no longer in
-- force has a reset token waiting.
pub run-Inv : (es : List Event) → All IsCall es → Inv (run start es)
run-Inv es c = run_from-Inv start es c start-Inv

-- Whatever was called in between, a wake-up by the timer comes at least 100 ms after the one before.
pub wake_spacing :
    (es : List Event) (now : ℕ)
    → All IsCall es
    → (run start es).pc ≡ waiting
    → (step (run start es) (timer_fired now)).pc ≡ fired
    → (run start es).run_prev + 100 * millisecond ≤ now
unfolding step
wake_spacing es now c w h = ground (arith, run-Inv es c)

-- And 10 s after the last wake-up a timer that is still waiting does fire: it puts a token into wakeCh.
pub wakes_within_ten_seconds :
    (es : List Event) (now : ℕ)
    → All IsCall es
    → (run start es).pc ≡ waiting
    → (run start es).run_prev + 10 * second ≤ now
    → let r = step (run start es) (timer_fired now) in
      (r.pc ≡ fired) × (r.ticker.wake_ch ≡ true) × (r.run_prev ≡ now)
unfolding step
wakes_within_ten_seconds es now c w h = ground (arith, (run-Inv es c).not_late w)
