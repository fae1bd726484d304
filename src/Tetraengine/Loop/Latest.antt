-- ===== src/Tetraengine/Loop/Latest.antt =====
-- Between Reconfig and the loop that applies it: which configuration the last reconfig used.
use tetrapod.Base.{
  ℕ, zero, suc, ◌≡◌, ◌≢◌, refl, Bool, true, false, Option, none, some, List, [], ◌∷◌, if◌then◌else◌,
  ◌⊎◌, inl, inr, arith,
}
use tetrapod.Base.Bytes.{Bytes, Bytes-discrete}
use tetrapod.Tetraengine.Loop.{
  Place, receiving, refreshing, configured, finished, Engine, Event, config_stored,
  reconfig_triggers, trigger_called, statuses_change, status_callback, goes_on, closes,
  trigger_reconfig, init, is_latest, has_disco_status_update, disco_status_callback, run_reconfig,
  pay, step, run,
}

module _ {C S : Type 0} (hash : S → Bytes) (valid : C → Bool) where
  -- The last reconfig used the current configuration, or one is still to come.
  abbrev Fresh : Engine C S → Type 0
  Fresh e =
      (e.used ≡ some e.current_config)
      ⊎ ((e.token ≡ true) ⊎ ((e.place ≡ refreshing) ⊎ ((e.owing ≢ 0) ⊎ (e.closed ≡ true))))

  trigger-Fresh : (e : Engine C S) → Fresh (trigger_reconfig e)
  unfolding trigger_reconfig
  trigger-Fresh e = by_flag e.closed refl
    where
      by_flag :
          (c : Bool)
          → e.closed ≡ c
          → Fresh (if c then record e { panicked = true } else record e { token = true })
      by_flag true h = inr (inr (inr (inr h)))
      by_flag false h = inr (inl refl)

  callback-Fresh : (e : Engine C S) → Fresh e → Fresh (disco_status_callback hash e)
  unfolding disco_status_callback has_disco_status_update
  callback-Fresh e f = by_test (is_latest (hash e.statuses) e.latest_disco_status_hash)
    where
      updated : Engine C S
      updated = record e { latest_disco_status_hash = some (hash e.statuses) }

      by_test :
          (b : Bool)
          → Fresh (
              let r : Bool × Engine C S = if b then (false, e) else (true, updated) in
              if r.0 then trigger_reconfig r.1 else r.1)
      by_test true = f
      by_test false = trigger-Fresh updated

  go_on-Fresh :
      (p : Place) (e : Engine C S) → e.place ≡ p → Fresh e → Fresh (run_reconfig valid p e)
  unfolding run_reconfig
  go_on-Fresh receiving e h f = ground arith
  go_on-Fresh refreshing e h f = inl refl
  go_on-Fresh configured e h f = ground arith
  go_on-Fresh finished e h f = f

  pay-Fresh : (n : ℕ) (e : Engine C S) → e.owing ≡ n → Fresh e → Fresh (pay n e)
  pay-Fresh zero e h f = f
  pay-Fresh (suc n) e h f = trigger-Fresh (record e { owing = n })

  step-Fresh : (e : Engine C S) (ev : Event C S) → Fresh e → Fresh (step hash valid e ev)
  unfolding step
  step-Fresh e (config_stored c) f = inr (inr (inr (inl (omega arith))))
  step-Fresh e reconfig_triggers f = pay-Fresh e.owing e refl f
  step-Fresh e trigger_called f = trigger-Fresh e
  step-Fresh e (statuses_change s) f = f
  step-Fresh e status_callback f = callback-Fresh e f
  step-Fresh e goes_on f = go_on-Fresh e.place e refl f
  step-Fresh e closes f = inr (inr (inr (inr refl)))

  run-Fresh : (evs : List (Event C S)) (e : Engine C S) → Fresh e → Fresh (run hash valid evs e)
  unfolding run
  run-Fresh [] e f = f
  run-Fresh (ev ∷ evs) e f = run-Fresh evs (step hash valid e ev) (step-Fresh e ev f)

  -- The loop's steps that end every reconfig that is due.
  abbrev pub six : List (Event C S)
  six = goes_on ∷ goes_on ∷ goes_on ∷ goes_on ∷ goes_on ∷ goes_on ∷ []

  -- The loop goes on until it has nothing to do.
  abbrev pub Settled : Engine C S → Engine C S → Type 0
  Settled e f =
      (f.used ≡ some e.current_config)
      × (f.current_config ≡ e.current_config)
      × (f.token ≡ false)
      × (f.place ≡ receiving)

  from_receiving :
      (e : Engine C S)
      → e.closed ≡ false
      → e.token ≡ true ⊎ (e.used ≡ some e.current_config)
      → e.place ≡ receiving
      → Settled e (run hash valid six e)
  unfolding run step run_reconfig
  from_receiving e c f h = ground arith

  -- The loop ends only when the channel is closed.
  abbrev Open : Engine C S → Type 0
  Open e = e.place ≡ finished → e.closed ≡ true

  go_on-Open : (p : Place) (e : Engine C S) → e.place ≡ p → Open e → Open (run_reconfig valid p e)
  unfolding run_reconfig
  go_on-Open receiving e h o = ground arith
  go_on-Open refreshing e h o = ground arith
  go_on-Open configured e h o = ground arith
  go_on-Open finished e h o = o

  trigger-Open : (e : Engine C S) → Open e → Open (trigger_reconfig e)
  unfolding trigger_reconfig
  trigger-Open e o = ground arith

  callback-Open : (e : Engine C S) → Open e → Open (disco_status_callback hash e)
  unfolding disco_status_callback has_disco_status_update trigger_reconfig
  callback-Open e o = ground arith

  pay-Open : (n : ℕ) (e : Engine C S) → Open e → Open (pay n e)
  pay-Open zero e o = o
  pay-Open (suc n) e o = trigger-Open (record e { owing = n }) o

  step-Open : (e : Engine C S) (ev : Event C S) → Open e → Open (step hash valid e ev)
  unfolding step
  step-Open e (config_stored c) o = o
  step-Open e reconfig_triggers o = pay-Open e.owing e o
  step-Open e trigger_called o = trigger-Open e o
  step-Open e (statuses_change s) o = o
  step-Open e status_callback o = callback-Open e o
  step-Open e goes_on o = go_on-Open e.place e refl o
  step-Open e closes o = λ h. refl

  run-Open : (evs : List (Event C S)) (e : Engine C S) → Open e → Open (run hash valid evs e)
  unfolding run
  run-Open [] e o = o
  run-Open (ev ∷ evs) e o = run-Open evs (step hash valid e ev) (step-Open e ev o)

  init-Open : (c : C) (s : S) → Open (init c s)
  unfolding init trigger_reconfig
  init-Open c s = ground arith

  from_place :
      (p : Place) (e : Engine C S)
      → e.place ≡ p
      → e.closed ≡ false
      → e.owing ≡ 0
      → Open e
      → Fresh e
      → Settled e (run hash valid six e)
  unfolding run step run_reconfig
  from_place receiving e h c w o f = from_receiving e c (ground arith) h
  from_place refreshing e h c w o f = ground arith
  from_place configured e h c w o f = ground arith
  from_place finished e h c w o f = absurd (ground arith)

  -- Whatever calls of Reconfig and Trigger, changes of the statuses and callbacks there were, in any
  -- order with the loop's steps: when the engine is not closed and every call of Reconfig has made its
  -- trigger, then after six steps of the loop with nothing in between, the last reconfig used the
  -- configuration that was stored last, no trigger is left, and the loop waits for the next one.
  pub reconfig_not_lost :
      (c : C) (s : S) (evs : List (Event C S))
      → let e = run hash valid evs (init c s) in
        e.closed ≡ false → e.owing ≡ 0 → Settled e (run hash valid six e)
  unfolding init trigger_reconfig
  reconfig_not_lost c s evs h w =
      let e = run hash valid evs (init c s) in
      from_place e.place e refl h w (run-Open evs (init c s) (init-Open c s))
        (run-Fresh evs (init c s) (inr (inl refl)))

  reads_statuses :
      (p : Place) (e : Engine C S)
      → e.place ≡ p
      → e.closed ≡ false
      → e.token ≡ true
      → Open e
      → valid e.current_config ≡ true
      → let f = run hash valid six e in
        (f.read ≡ some e.statuses) × (f.used ≡ some e.current_config)
  unfolding run step run_reconfig
  reads_statuses receiving e h c t o v = ground arith
  reads_statuses refreshing e h c t o v = ground arith
  reads_statuses configured e h c t o v = ground arith
  reads_statuses finished e h c t o v = absurd (ground arith)

  unlike : (h : Bytes) (o : Option Bytes) → o ≢ some h → is_latest h o ≡ false
  unfolding is_latest Bytes-discrete
  unlike h none n = refl
  unlike h (some latest) n = ground arith

  callback-token :
      (e : Engine C S)
      → e.closed ≡ false
      → e.latest_disco_status_hash ≢ some (hash e.statuses)
      → disco_status_callback hash e
        ≡ record e { latest_disco_status_hash = some (hash e.statuses); token = true }
  unfolding disco_status_callback has_disco_status_update trigger_reconfig
  callback-token e c n = ground (arith, unlike (hash e.statuses) e.latest_disco_status_hash n)

  -- When the engine is not closed and its configuration's key is parsed, a callback that finds statuses
  -- with another hash than the one it found last makes the loop reconfigure: after six steps of the
  -- loop, the last reconfig read the statuses as they are, with the current configuration.
  pub status_update_applied :
      (c : C) (s : S) (evs : List (Event C S))
      → let e = run hash valid evs (init c s) in
        let f = run hash valid six (step hash valid e status_callback) in
        e.closed ≡ false
        → valid e.current_config ≡ true
        → e.latest_disco_status_hash ≢ some (hash e.statuses)
        → (f.read ≡ some e.statuses) × (f.used ≡ some e.current_config)
  unfolding step
  status_update_applied c s evs h v n =
      let e = run hash valid evs (init c s) in
      let called = record e { latest_disco_status_hash = some (hash e.statuses); token = true } in
      rw (callback-token e h n)
        (reads_statuses called.place called refl h refl (run-Open evs (init c s) (init-Open c s)) v)
