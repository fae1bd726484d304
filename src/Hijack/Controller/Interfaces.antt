-- ===== src/Hijack/Controller/Interfaces.antt =====
-- The receivers of the interfaces, counted by their starts and returns.
use tetrapod.Base.{
  ◌+◌, ◌≡◌, refl, Bool, ◌||◌, List, [], ◌∷◌, Option, none, some, if◌then◌else◌, is_some, elem,
  arith, Option-cases, inl, inr, map,
}
use tetrapod.Base.Bytes.{Bytes, Bytes-discrete}
use tetrapod.Base.Netip.{Addr, Addr-discrete, unmap}
use tetrapod.Pkg.Syncmap.{load, load_or_store, contains}
use tetrapod.Pkg.Syncmap.Laws.{load-store, contains-from_slice}
use tetrapod.Pkg.Bgsingleflight.{
  Group, run, exit, times, Balanced, moves, run-Balanced, exit-Balanced, moves-Balanced,
}
use tetrapod.Hijack.Receiver.{Message, refresh}
use tetrapod.Hijack.Controller.{
  Controller, new_controller, run_each, refresh_controller, return_from, subscribe_health,
  check_health, forward, Event, refreshes, returns_from, health_subscribes, health_checked, got,
  closes, step, run_events,
}

run_each-Balanced :
    (k : Bytes) (names : List Bytes) (g : Group) → Balanced k g → Balanced k (run_each names g)
unfolding run_each
run_each-Balanced k [] g h = h
run_each-Balanced k (n ∷ names) g h = run_each-Balanced k names (run n g) (run-Balanced k n g h)

run-set :
    (k n : Bytes) (g : Group)
    → is_some (load Bytes-discrete k (run n g).set)
      ≡ (elem Bytes-discrete k (n ∷ []) || is_some (load Bytes-discrete k g.set))
unfolding run load_or_store
run-set k n g = ground (arith, load-store Bytes-discrete k n tt g.set)

run_each-set :
    (k : Bytes) (names : List Bytes) (g : Group)
    → is_some (load Bytes-discrete k (run_each names g).set)
      ≡ (elem Bytes-discrete k names || is_some (load Bytes-discrete k g.set))
unfolding run_each
run_each-set k [] g = refl
run_each-set k (n ∷ names) g = ground (arith, run_each-set k names (run n g), run-set k n g)

return_from-group : (name : Bytes) (c : Controller) → (return_from name c).group ≡ exit name c.group
unfolding return_from
return_from-group name c = elim (Option-cases (load Bytes-discrete name c.subs)) [
  | inl e ↦ ground arith
  | inr (id, e) ↦ ground arith
]

check_health-group :
    (name : Bytes) (healthy : Bool) (c : Controller) → (check_health name healthy c).group ≡ c.group
unfolding check_health
check_health-group name healthy c = elim (Option-cases (load Bytes-discrete name c.subs)) [
  | inl e ↦ ground arith
  | inr (id, e) ↦ ground arith
]

forward-group :
    (name : Bytes) (msg : Message) (c : Controller) → (forward name msg c).group ≡ c.group
unfolding forward
forward-group name msg c = ground arith

refresh_controller-Balanced :
    (k : Bytes) (addrs : Option (List Addr)) (names : Option (List Bytes)) (c : Controller)
    → Balanced k c.group
    → Balanced k (refresh_controller addrs names c).0.group
unfolding refresh_controller refresh
refresh_controller-Balanced k none names c h = h
refresh_controller-Balanced k (some addrs) none c h = h
refresh_controller-Balanced k (some addrs) (some ns) c h = run_each-Balanced k ns c.group h

step-Balanced :
    (k : Bytes) (c : Controller) (e : Event) → Balanced k c.group → Balanced k (step c e).group
unfolding step subscribe_health
step-Balanced k c (refreshes addrs names) h = refresh_controller-Balanced k addrs names c h
step-Balanced k c (returns_from name) h =
    rw (return_from-group name c) (exit-Balanced k name c.group h)
step-Balanced k c (health_subscribes name) h = h
step-Balanced k c (health_checked name healthy) h = rw (check_health-group name healthy c) h
step-Balanced k c (got name msg) h = rw (forward-group name msg c) h
step-Balanced k c closes h = h

run_events-Balanced :
    (k : Bytes) (es : List Event) (c : Controller)
    → Balanced k c.group
    → Balanced k (run_events es c).group
unfolding run_events
run_events-Balanced k [] c h = h
run_events-Balanced k (e ∷ es) c h = run_events-Balanced k es (step c e) (step-Balanced k c e h)

-- Whatever refreshes, receivers that failed and health checks there were before: when Refresh is told the
-- addresses and the interfaces, then each of these interfaces has had one start of its receiver more
-- than returns, so exactly one is running, and another interface has one start more than returns exactly
-- when it had before, and as many otherwise; and the receivers' filter lets through exactly the addresses
-- of the interfaces, unmapped.
pub refresh_controller-one_each :
    (es : List Event) (addrs : List Addr) (names : List Bytes) (k : Bytes) (a : Addr)
    → let c = run_events es new_controller in
      let d = (refresh_controller (some addrs) (some names) c).0 in
      (times k d.group.started
        ≡ times k d.group.exited
          + (if elem Bytes-discrete k names || is_some (load Bytes-discrete k c.group.set)
              then 1
              else 0))
      × (contains Addr-discrete a d.front.addrs ≡ elem Addr-discrete a (map unmap addrs))
unfolding refresh_controller refresh moves
refresh_controller-one_each es addrs names k a =
    let c = run_events es new_controller in
    ground (
      arith,
      run_each-set k names c.group,
      run_each-Balanced k names c.group
          (run_events-Balanced k es new_controller (moves-Balanced k [])),
      contains-from_slice Addr-discrete a (map unmap addrs),
    )
