-- ===== src/Examples/Loops.antt =====
-- The loops that wait to be woken, and calls at the same time, at concrete sequences of events.
use tetrapod.Base.{ℕ, ℕ_discrete, ◌≡◌, refl, Bool, true, some, List, [], ◌∷◌, false}
use tetrapod.Base.Bytes.{Bytes}
use tetrapod.Tetraengine.Loop
use tetrapod.Tetraengine.Loop.Latest.{Settled, six, reconfig_not_lost, status_update_applied}
use tetrapod.Disco.Hub.Adding
use tetrapod.Disco.Hub.Adding.Agree.{add_peer_agree}

-- A configuration and the statuses are numbers; the hash of the statuses is their text.
abbrev hash : ℕ → Bytes
hash s = s ∷ []

abbrev every : ℕ → Bool
every c = true

-- Two calls of Reconfig meet in the middle of a reconfiguration.
abbrev busy : List (Loop.Event ℕ ℕ)
busy =
    Loop.goes_on
    ∷ Loop.config_stored 1
    ∷ Loop.goes_on
    ∷ Loop.config_stored 2
    ∷ Loop.reconfig_triggers
    ∷ Loop.statuses_change 7
    ∷ Loop.reconfig_triggers
    ∷ []

reconfig_not_lost_example :
    let e = Loop.run hash every busy (Loop.init 0 0) in
    Settled hash every e (Loop.run hash every (six hash every) e)
unfolding Loop.run Loop.init
reconfig_not_lost_example = reconfig_not_lost hash every 0 0 busy refl refl

status_update_applied_example :
    let e = Loop.run hash every busy (Loop.init 0 0) in
    let f = Loop.run hash every (six hash every) (Loop.step hash every e Loop.status_callback) in
    (f.read ≡ some 7) × (f.used ≡ some 2)
unfolding Loop.run Loop.init
status_update_applied_example = status_update_applied hash every 0 0 busy refl refl (λ e. cc)

-- Three calls of AddPeer, of which two find no peer.
add_peer_agree_example :
    let s = Adding.run (0 ∷ 1 ∷ 1 ∷ 0 ∷ 2 ∷ 1 ∷ 0 ∷ []) Adding.nobody in
    let winner : ℕ = 1 in (winner ≡ winner) × (s.entry ≡ some winner) × (s.closed winner ≡ false)
unfolding Adding.run Adding.go_on Adding.close_peer ℕ_discrete
add_peer_agree_example = add_peer_agree (0 ∷ 1 ∷ 1 ∷ 0 ∷ 2 ∷ 1 ∷ 0 ∷ []) 0 2 1 1 refl refl
