-- ===== src/Disco/Watch.antt =====
-- NotifyStatus of disco/discoPeer.go and disco/discoPeerEndpoint.go: a goroutine that tells a callback of a
-- status whenever it changed. Both are the same but for the type of the status. A locked section is one
-- step; the callback is called with what the section before it read.
use tetrapod.Base.{
  ◌≡◌, ◌≢◌, refl, sym, ◌∙◌, subst, Bool, true, false, List, [], ◌∷◌, if◌then◌else◌, ite,
}

-- Where notifyStatus stands: before its first section, at the head of its loop, in cond.Wait, returned.
pub data Place : Type 0 where
  starting looking waiting finished : Place

-- A step of the goroutine, setStatus, or close.
pub data Event (S : Type 0) : Type 0 where
  goes_on : Event S
  sets_status : S → Event S
  closes : Event S

-- The status with its flag, the goroutine's place and its `prev`, whether a Broadcast came since it waits,
-- and the calls of the callback, the newest first.
pub record Watch (S : Type 0) : Type 0 where
  pub value : S
  pub closed : Bool
  pub place : Place
  pub prev : S
  pub signalled : Bool
  pub told : List S

-- `go s.notifyStatus(fn)`, on a status `v`; `prev` is not set yet.
abbrev pub watch : {S : Type 0} → S → Watch S
watch v = record {
  value = v;
  closed = false;
  place = starting;
  prev = v;
  signalled = false;
  told = [];
}

module _ {S : Type 0} where
  -- The callback was last told `v`.
  abbrev pub LastTold : List S → S → Type 0
  LastTold [] v = ⊥
  LastTold (u ∷ us) v = u ≡ v

  -- No two calls in a row were told the same.
  abbrev pub NoRepeat : List S → Type 0
  NoRepeat [] = Unit
  NoRepeat (u ∷ []) = Unit
  NoRepeat (u ∷ v ∷ us) = (u ≢ v) × NoRepeat (v ∷ us)

module _ {S : Type 0} (dec : Discrete S) where
  -- fn(curr); prev = curr.
  abbrev tell : Watch S → Watch S
  tell w = record w { prev = w.value; told = w.value ∷ w.told; place = looking }

  -- The section at the head of the loop, down to the wait.
  abbrev look : Watch S → Watch S
  look w =
      if w.closed
      then record w { place = finished }
      else ite (dec w.value w.prev) (record w { place = waiting; signalled = false }) (tell w)

  -- The section after the wait.
  abbrev awake : Watch S → Watch S
  awake w =
      if w.closed
      then record w { place = finished }
      else ite (dec w.value w.prev) (record w { place = looking }) (tell w)

  abbrev go_on : Place → Watch S → Watch S
  go_on starting w = tell w
  go_on looking w = look w
  go_on waiting w = if w.signalled then awake w else w
  go_on finished w = w

  unfoldable pub step : Watch S → Event S → Watch S
  step w goes_on = go_on w.place w
  step w (sets_status v) = record w { value = v; signalled = true }
  step w closes = record w { closed = true; signalled = true }

  unfoldable pub run : List (Event S) → Watch S → Watch S
  unfolding step
  run [] w = w
  run (e ∷ es) w = run es (step w e)

  -- What holds at each place.
  abbrev Knows : Place → Watch S → Type 0
  Knows starting w = w.told ≡ []
  Knows looking w = LastTold w.told w.prev
  Knows waiting w = LastTold w.told w.prev × (w.signalled ≡ false → w.value ≡ w.prev)
  Knows finished w = w.closed ≡ true

  pub record Inv (w : Watch S) : Type 0 where
    pub knows : Knows w.place w
    pub no_repeat : NoRepeat w.told

  NoRepeat-cons : (us : List S) (v u : S) → LastTold us u → v ≢ u → NoRepeat us → NoRepeat (v ∷ us)
  NoRepeat-cons [] v u h n r = tt
  NoRepeat-cons (u' ∷ us) v u h n r = (λ e. n (e ∙ h), r)

  tell-Inv :
      (w : Watch S) → LastTold w.told w.prev → w.value ≢ w.prev → NoRepeat w.told → Inv (tell w)
  tell-Inv w h n r = record { knows = refl; no_repeat = NoRepeat-cons w.told w.value w.prev h n r }

  look-Inv : (w : Watch S) → LastTold w.told w.prev → NoRepeat w.told → Inv (look w)
  look-Inv w h r = by_flag w.closed refl (dec w.value w.prev)
    where
      by_flag :
          (c : Bool)
          → w.closed ≡ c
          → (d : Dec (w.value ≡ w.prev))
          → Inv (
              if c
              then record w { place = finished }
              else ite d (record w { place = waiting; signalled = false }) (tell w))
      by_flag true e d = record { knows = e; no_repeat = r }
      by_flag false e (yes same) = record { knows = (h, λ _. same); no_repeat = r }
      by_flag false e (no other) = tell-Inv w h other r

  awake-Inv : (w : Watch S) → LastTold w.told w.prev → NoRepeat w.told → Inv (awake w)
  awake-Inv w h r = by_flag w.closed refl (dec w.value w.prev)
    where
      by_flag :
          (c : Bool)
          → w.closed ≡ c
          → (d : Dec (w.value ≡ w.prev))
          → Inv (
              if c
              then record w { place = finished }
              else ite d (record w { place = looking }) (tell w))
      by_flag true e d = record { knows = e; no_repeat = r }
      by_flag false e (yes same) = record { knows = h; no_repeat = r }
      by_flag false e (no other) = tell-Inv w h other r

  go_on-Inv :
      (p : Place) (w : Watch S) → w.place ≡ p → Knows p w → NoRepeat w.told → Inv (go_on p w)
  go_on-Inv starting w e k r = record { knows = refl; no_repeat = rw k tt }
  go_on-Inv looking w e k r = look-Inv w k r
  go_on-Inv waiting w e k r = by_signal w.signalled refl
    where
      by_signal : (b : Bool) → w.signalled ≡ b → Inv (if b then awake w else w)
      by_signal true s = awake-Inv w k.0 r
      by_signal false s = record { knows = subst (λ p. Knows p w) (sym e) k; no_repeat = r }
  go_on-Inv finished w e k r = record { knows = subst (λ p. Knows p w) (sym e) k; no_repeat = r }

  sets-Inv :
      (p : Place) (w : Watch S) (v : S)
      → Knows p w
      → Knows p (record w { value = v; signalled = true })
  sets-Inv starting w v k = k
  sets-Inv looking w v k = k
  sets-Inv waiting w v k = (k.0, λ e. absurd (cc))
  sets-Inv finished w v k = k

  closes-Inv :
      (p : Place) (w : Watch S) → Knows p w → Knows p (record w { closed = true; signalled = true })
  closes-Inv starting w k = k
  closes-Inv looking w k = k
  closes-Inv waiting w k = (k.0, λ e. absurd (cc))
  closes-Inv finished w k = refl

  step-Inv : (w : Watch S) (e : Event S) → Inv w → Inv (step w e)
  unfolding step
  step-Inv w goes_on v = go_on-Inv w.place w refl v.knows v.no_repeat
  step-Inv w (sets_status u) v = record {
    knows = sets-Inv w.place w u v.knows;
    no_repeat = v.no_repeat;
  }
  step-Inv w closes v = record { knows = closes-Inv w.place w v.knows; no_repeat = v.no_repeat }

  run-Inv : (es : List (Event S)) (w : Watch S) → Inv w → Inv (run es w)
  unfolding run
  run-Inv [] w v = v
  run-Inv (e ∷ es) w v = run-Inv es (step w e) (step-Inv w e v)

  tell_unless :
      (c : Bool) (w w' w'' : Watch S)
      → c ≡ false
      → LastTold w.told w.prev
      → w'.told ≡ w.told
      → (d : Dec (w.value ≡ w.prev)) → LastTold (if c then w'' else ite d w' (tell w)).told w.value
  tell_unless true w w' w'' c h t d = absurd (cc)
  tell_unless false w w' w'' c h t (yes same) = rw t (rw same h)
  tell_unless false w w' w'' c h t (no other) = refl

  go_on-LastTold :
      (p : Place) (w : Watch S) → Knows p w → w.closed ≡ false → LastTold (go_on p w).told w.value
  go_on-LastTold starting w k c = refl
  go_on-LastTold looking w k c =
      tell_unless w.closed w (record w { place = waiting; signalled = false })
        (record w { place = finished }) c k refl (dec w.value w.prev)
  go_on-LastTold waiting w k c = by_signal w.signalled refl
    where
      by_signal : (b : Bool) → w.signalled ≡ b → LastTold (if b then awake w else w).told w.value
      by_signal true s =
          tell_unless w.closed w (record w { place = looking }) (record w { place = finished }) c
            k.0 refl (dec w.value w.prev)
      by_signal false s = rw (k.1 s) k.0
  go_on-LastTold finished w k c = absurd (cc)

  -- Whatever the goroutine, setStatus and close did before, in any order: unless the status is closed, one
  -- more step of the goroutine, with no other in between, leaves the callback told of the status as it is,
  -- whether it waits or not; and no two calls of it in a row were told the same.
  pub notify_status_settles :
      (v : S) (es : List (Event S))
      → let w = run es (watch v) in
        w.closed ≡ false → LastTold (step w goes_on).told w.value × NoRepeat (step w goes_on).told
  unfolding step
  notify_status_settles v es c =
      let w = run es (watch v) in
      let inv = run-Inv es (watch v) (record { knows = refl; no_repeat = tt }) in
      (go_on-LastTold w.place w inv.knows c, (step-Inv w goes_on inv).no_repeat)
