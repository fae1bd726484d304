-- ===== src/Hijack/Controller.antt =====
-- pkg/hijack/receiver/xdprecv/xdpcontroller.go: one XDP receiver for each interface, started by a background
-- single flight, and closed by a health check when the alarm wakes it. The channel, the addresses and
-- Recv are those of a Receiver.
pub mod Interfaces
use tetrapod.Base.{ℕ, Bool, true, false, List, [], ◌∷◌, Option, none, some, if◌then◌else◌, is_some}
use tetrapod.Base.Bytes.{Bytes, Bytes-discrete}
use tetrapod.Base.Netip.{Addr}
use tetrapod.Pkg.Syncmap.{Map, load, store, delete}
use tetrapod.Pkg.Bgsingleflight.{Group, run, exit, empty_group}
use tetrapod.Pkg.Alarm.{Alarm, new_alarm, subscribe, wake_up_all, close_subscriber, take_token}
use tetrapod.Hijack.Receiver.{
  Receiver, Message, Received, send_message, refresh, recv, close_receiver,
}

-- `subs` has the subscriber of the goroutine that checks the receiver of an interface; `stopped` has the
-- interfaces whose receiver that goroutine closed.
pub record Controller : Type 0 where
  pub front : Receiver
  pub group : Group
  pub alarm : Alarm
  pub subs : Map Bytes ℕ
  pub stopped : Map Bytes Unit

abbrev pub new_controller : Controller
new_controller = record {
  front = record { addrs = []; ch = []; closed = false };
  group = empty_group;
  alarm = new_alarm;
  subs = [];
  stopped = [];
}

-- The loop over the interfaces, by their names.
unfoldable pub run_each : List Bytes → Group → Group
unfolding run
run_each [] g = g
run_each (name ∷ names) g = run_each names (run name g)

-- Refresh, with what net.InterfaceAddrs and net.Interfaces return; whether there was no error.
unfoldable pub refresh_controller :
    Option (List Addr) → Option (List Bytes) → Controller → Controller × Bool
unfolding wake_up_all refresh run_each
refresh_controller addrs names c =
    let woken = record c { alarm = wake_up_all c.alarm } in
    elim (refresh addrs c.front) [
      | none ↦ (woken, false)
      | some front ↦
          let known = record woken { front = front } in
          elim names [
            | none ↦ (known, false)
            | some ns ↦ (record known { group = run_each ns c.group }, true)
          ]
    ]

-- The function of an interface returns: NewXDPReceiver failed or Recv did. The context of its health check is
-- done, which closes the subscriber.
unfoldable pub return_from : Bytes → Controller → Controller
unfolding exit load delete close_subscriber Bytes-discrete
return_from name c =
    let c' = record c {
      group = exit name c.group;
      stopped = delete Bytes-discrete name c.stopped;
    } in
    elim (load Bytes-discrete name c.subs) [
      | none ↦ c'
      | some id ↦ record c' {
        alarm = close_subscriber id c.alarm;
        subs = delete Bytes-discrete name c.subs;
      }
    ]

-- The goroutine of the health check subscribes.
unfoldable pub subscribe_health : Bytes → Controller → Controller
unfolding subscribe store Bytes-discrete
subscribe_health name c =
    let (id, alarm) = subscribe c.alarm in
    record c { alarm = alarm; subs = store Bytes-discrete name id c.subs }

-- It is woken: a receiver that is not healthy is closed, and the subscriber with it.
unfoldable pub check_health : Bytes → Bool → Controller → Controller
unfolding load store delete take_token close_subscriber Bytes-discrete
check_health name healthy c = elim (load Bytes-discrete name c.subs) [
  | none ↦ c
  | some id ↦
      let (woken, alarm) = take_token id c.alarm in
      if woken
      then (if healthy then record c { alarm = alarm } else record c {
        alarm = close_subscriber id alarm;
        subs = delete Bytes-discrete name c.subs;
        stopped = store Bytes-discrete name tt c.stopped;
      })
      else c
]

-- A message that the receiver of an interface got is put into the channel, where there is room.
unfoldable pub forward : Bytes → Message → Controller → Controller
unfolding load send_message Bytes-discrete
forward name msg c =
    if is_some (load Bytes-discrete name c.group.set)
    then record c { front = send_message msg c.front }
    else c

pub data Event : Type 0 where
  refreshes : Option (List Addr) → Option (List Bytes) → Event
  returns_from health_subscribes : Bytes → Event
  health_checked : Bytes → Bool → Event
  got : Bytes → Message → Event
  closes : Event

unfoldable pub step : Controller → Event → Controller
unfolding refresh_controller return_from subscribe_health check_health forward close_receiver
step c (refreshes addrs names) = (refresh_controller addrs names c).0
step c (returns_from name) = return_from name c
step c (health_subscribes name) = subscribe_health name c
step c (health_checked name healthy) = check_health name healthy c
step c (got name msg) = forward name msg c
step c closes = record c { front = close_receiver c.front }

unfoldable pub run_events : List Event → Controller → Controller
unfolding step
run_events [] c = c
run_events (e ∷ es) c = run_events es (step c e)

-- Recv into a buffer of `size` bytes.
unfoldable pub recv_controller : Bool → ℕ → Controller → Received
unfolding recv
recv_controller prefers_closed size c = recv prefers_closed size c.front
