-- ===== src/Disco/Ticker/Races.antt =====
-- SetState against the goroutine: what an unlucky interleaving does, and what it cannot do.
use tetrapod.Base.{◌+◌, ◌*◌, ◌≡◌, true, arith}
use tetrapod.Disco.Ticker.{
  connecting, Priority, primary, Run, sets_state, backs_off, take_reset, arm, fired, waiting,
  millisecond, step,
}

-- A call that comes between a wake-up and its back-off has its new interval doubled: the first ping after
-- a forced restart then waits 200 ms, and not the 100 ms that SetState asked for.
pub restart_backed_off :
    (r : Run) (p : Priority)
    → r.pc ≡ fired
    → (step (step r (sets_state connecting p true)) backs_off).ticker.current_interval
      ≡ 200 * millisecond
unfolding step
restart_backed_off r primary h = ground arith
restart_backed_off r _ h = ground arith

-- A call that comes while the timer runs takes effect without waiting for it: the goroutine takes the
-- reset token and arms the timer for the new interval after the last wake-up.
pub restart_rearms :
    (r : Run) (p : Priority)
    → r.pc ≡ waiting
    → let r' = step (step (step r (sets_state connecting p true)) take_reset) arm in
      (r'.pc ≡ waiting) × (r'.deadline ≡ r.run_prev + 100 * millisecond)
unfolding step
restart_rearms r p h = ground arith
