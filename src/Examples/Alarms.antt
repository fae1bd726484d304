-- ===== src/Examples/Alarms.antt =====
-- Subscribers and the XDP receivers at concrete sequences of events.
use tetrapod.Base.{
  ◌≡◌, refl, true, some, List, [], ◌∷◌, ◌+◌, arith, elem, map, ◌||◌, is_some, if◌then◌else◌,
}
use tetrapod.Base.Bytes.{Bytes, Bytes-discrete}
use tetrapod.Base.Netip.{ip4, Addr-discrete, unmap}
use tetrapod.Pkg.Syncmap.{load, contains}
use tetrapod.Pkg.Bgsingleflight.{times}
use tetrapod.Pkg.Alarm
use tetrapod.Pkg.Alarm.Wakeups.{wake_up_all-token}
use tetrapod.Hijack.Controller
use tetrapod.Hijack.Controller.Interfaces.{refresh_controller-one_each}

-- Three subscribers; the first is closed, the second took its token.
abbrev before : List Alarm.Event
before =
    Alarm.subscribes
    ∷ Alarm.subscribes
    ∷ Alarm.wakes_up_all
    ∷ Alarm.receives 2
    ∷ Alarm.closes 1
    ∷ Alarm.subscribes
    ∷ []

abbrev later : List Alarm.Event
later = Alarm.receives 3 ∷ Alarm.subscribes ∷ Alarm.closes 3 ∷ []

wake_up_all-token_example :
    (Alarm.take_token 2 (Alarm.run later (Alarm.wake_up_all (Alarm.run before Alarm.new_alarm)))).0
    ≡ true
unfolding Alarm.run Alarm.step
wake_up_all-token_example = wake_up_all-token 2 before later (omega arith) refl refl

-- The receiver of the first interface fails, and the next Refresh starts it again.
abbrev eth : Bytes
eth = 101 ∷ []

abbrev wlan : Bytes
wlan = 119 ∷ []

abbrev events : List Controller.Event
events =
    Controller.refreshes (some (ip4 1 ∷ [])) (some (eth ∷ wlan ∷ []))
    ∷ Controller.health_subscribes eth
    ∷ Controller.returns_from eth
    ∷ []

refresh_controller-one_each_example :
    let c = Controller.run_events events Controller.new_controller in
    let d = (Controller.refresh_controller (some (ip4 2 ∷ [])) (some (eth ∷ [])) c).0 in
    (times eth d.group.started
      ≡ times eth d.group.exited
        + (if elem Bytes-discrete eth (eth ∷ []) || is_some (load Bytes-discrete eth c.group.set)
            then 1
            else 0))
    × (contains Addr-discrete (ip4 2) d.front.addrs
        ≡ elem Addr-discrete (ip4 2) (map unmap (ip4 2 ∷ [])))
refresh_controller-one_each_example =
    refresh_controller-one_each events (ip4 2 ∷ []) (eth ∷ []) eth (ip4 2)

-- What it comes to: the receiver was started twice.
started_twice :
    let c = Controller.run_events events Controller.new_controller in
    times eth
      (Controller.refresh_controller (some (ip4 2 ∷ [])) (some (eth ∷ [])) c).0.group.started
    ≡ 2
unfolding Controller.run_events Controller.step Controller.refresh_controller times Bytes-discrete
started_twice = refl
