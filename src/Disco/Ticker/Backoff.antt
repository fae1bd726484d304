-- ===== src/Disco/Ticker/Backoff.antt =====
-- The exponential back-off of the ping interval.
use tetrapod.Base.{ℕ, zero, suc, ◌*◌, ◌^◌, ◌≤◌, ◌≡◌, refl, true, arith, min, ap, ◌∙◌}
use native.Mathlib.Nat.{pow-suc}
use tetrapod.Disco.Ticker.{
  connecting, Priority, primary, sub, unset_priority, Ticker, millisecond, set_state, back_off,
}

-- The ticker after `n` wake-ups with no call in between.
pub back_offs : ℕ → Ticker → Ticker
back_offs zero t = t
back_offs (suc n) t = back_off (back_offs n t)

back_offs_frame :
    (n : ℕ) (t : Ticker)
    → ((back_offs n t).multiplier ≡ t.multiplier) × ((back_offs n t).max_interval ≡ t.max_interval)
unfolding back_offs back_off
back_offs_frame zero t = (refl, refl)
back_offs_frame (suc n) t = back_offs_frame n t

back_off-min :
    (t : Ticker)
    → t.multiplier ≡ 2
    → (back_off t).current_interval ≡ min (t.current_interval * 2) t.max_interval
unfolding back_off
back_off-min t m = ground arith

power_step : (c n : ℕ) → c * 2 ^ suc n ≡ c * 2 ^ n * 2
power_step c n = omega (arith, ap (λ (x : ℕ). c * x) (pow-suc 2 n))

-- The interval after `n` wake-ups is 2 ^ n times what it was, up to the cap.
pub back_offs-min :
    (n : ℕ) (t : Ticker)
    → t.multiplier ≡ 2
    → t.current_interval ≤ t.max_interval
    → (back_offs n t).current_interval ≡ min (t.current_interval * 2 ^ n) t.max_interval
unfolding back_offs
back_offs-min zero t m h = omega arith
back_offs-min (suc n) t m h =
    let frame = back_offs_frame n t in
    let double : (back_offs n t).multiplier ≡ 2 = frame.0 ∙ m in
    omega (
      arith,
      back_off-min (back_offs n t) double,
      frame.1,
      back_offs-min n t m h,
      power_step t.current_interval n,
    )

-- A ticker that is told to connect starts at 100 ms, doubles at each wake-up, and reaches its cap, 3 s for
-- the primary endpoint and 10 s for any other, by the seventh.
pub connecting_schedule :
    (n : ℕ) (t : Ticker) (p : Priority)
    → let t' = set_state connecting p true t in
      ((back_offs n t').current_interval ≡ min (100 * millisecond * 2 ^ n) t'.max_interval)
      × ((back_offs 7 t').current_interval ≡ t'.max_interval)
unfolding set_state
connecting_schedule n t primary =
    let t' = set_state connecting primary true t in
    (back_offs-min n t' refl (omega arith), back_offs-min 7 t' refl (omega arith))
connecting_schedule n t sub =
    let t' = set_state connecting sub true t in
    (back_offs-min n t' refl (omega arith), back_offs-min 7 t' refl (omega arith))
connecting_schedule n t unset_priority =
    let t' = set_state connecting unset_priority true t in
    (back_offs-min n t' refl (omega arith), back_offs-min 7 t' refl (omega arith))
