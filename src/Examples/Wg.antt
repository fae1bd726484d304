-- ===== src/Examples/Wg.antt =====
-- The device of the engine at its start, and a whole reconfiguration.
use tetrapod.Base.{
  ℕ, ◌≡◌, refl, Bool, true, false, Option, none, some, [], ◌∷◌, if◌then◌else◌, arith,
}
use tetrapod.Base.Bytes.{Bytes, Bytes-discrete}
use tetrapod.Wgengine.Device.{
  Place, Found, wireguard, not_found, main_ns, wg_ns, Links, init_wireguard, garbage_collect,
}
use tetrapod.Wgengine.Device.Restart.{init_wireguard_recovers}
use tetrapod.Wgengine.Kernel.{Route, all_ok}
use tetrapod.Wgengine.Whole.Allowed.{is_allowed}
use tetrapod.Wgengine.Kernel.Differences.{holds}
use tetrapod.Wgengine.Whole.{Device, reconfig}
use tetrapod.Wgengine.Whole.Calls.{after}
use tetrapod.Wgengine.Whole.Exact.{reconfig_exact}
use tetrapod.Examples.Devices.{as_is, config, idle, takes, peer}

-- Links of one name in both namespaces; moving a link fails until LinkDel is called.
record Ends : Type 0 where
  main : Found
  wg : Found
  stuck : Bool

abbrev in_place : Place → Ends → Found
in_place main_ns s = s.main
in_place wg_ns s = s.wg

abbrev added : Ends → Option Ends
added s = some (record s { main = wireguard })

abbrev deleted : Ends → Option Ends
deleted s = some (record s { main = not_found; stuck = false })

abbrev set_ns : Ends → Option Ends
set_ns s = if s.stuck then none else some (record s { wg = s.main; main = not_found })

same_ends : (p : Place) (s s' : Ends) → some s ≡ some s' → in_place p s' ≡ in_place p s
same_ends p s s' e = ground arith

deleted_ends : (s s' : Ends) → deleted s ≡ some s' → (s'.main ≡ not_found) × (s'.wg ≡ s.wg)
deleted_ends s s' e = ground arith

added_ends : (s s' : Ends) → added s ≡ some s' → (s'.main ≡ wireguard) × (s'.wg ≡ s.wg)
added_ends s s' e = ground arith

set_ns_ends : (s s' : Ends) → set_ns s ≡ some s' → (s'.main ≡ not_found) × (s'.wg ≡ s.main)
set_ns_ends s s' e = ground arith

abbrev ends : Links
ends = record {
  State = Ends;
  link_by_name = λ p n s. in_place p s;
  link_del = λ n s. deleted s;
  link_add = λ n s. added s;
  link_set_ns_fd = λ n s. set_ns s;
  link_set_mtu = λ m n s. some s;
  link_set_up = λ n s. some s;
  link-link_del = λ n s s' e. deleted_ends s s' e;
  link-link_add = λ n s s' e. added_ends s s' e;
  link-link_set_ns_fd = λ n s s' e. set_ns_ends s s' e;
  link-link_set_mtu = λ p m n s s' e. same_ends p s s' e;
  link-link_set_up = λ p n s s' e. same_ends p s s' e;
}

abbrev tetrapod0 : Bytes
tetrapod0 = 116 ∷ 48 ∷ []

abbrev fresh : Ends
fresh = record { main = not_found; wg = not_found; stuck = true }

abbrev half_way : Ends
half_way = record { main = wireguard; wg = not_found; stuck = true }

abbrev cleared : Ends
cleared = record { main = not_found; wg = not_found; stuck = false }

abbrev made : Ends
made = record { main = wireguard; wg = not_found; stuck = false }

abbrev up : Ends
up = record { main = not_found; wg = wireguard; stuck = false }

init_wireguard_recovers_example :
    (init_wireguard ends tetrapod0 fresh ≡ (half_way, false))
    × (init_wireguard ends tetrapod0 half_way ≡ (up, true))
    × (in_place wg_ns up ≡ wireguard)
    × (in_place main_ns up ≡ not_found)
unfolding garbage_collect
init_wireguard_recovers_example =
    init_wireguard_recovers ends tetrapod0 fresh half_way cleared made up refl refl refl refl refl
      refl

abbrev route : Bytes → ℕ → Route
route dst scope = record { dst = dst; link_index = 4; table = 0; scope = scope }

abbrev kernel : Device Bytes
kernel = record {
  accepts = takes;
  addresses = some ((1 ∷ []) ∷ []);
  routes = some (route (8 ∷ []) 254 ∷ route (9 ∷ []) 0 ∷ []);
  link_index = 4;
  address_ok = λ c. true;
  route_ok = λ c. true;
}

-- An address is replaced; a route goes, one stays, and one comes.
reconfig_exact_example :
    let o =
      reconfig as_is
        (λ a. a)
        (255 ∷ [])
        kernel
        (config (peer 3 ((7 ∷ []) ∷ []) ∷ []))
        ((2 ∷ []) ∷ [])
        idle in
    (all_ok kernel.address_ok o.address_calls ≡ true)
    × (all_ok kernel.route_ok o.route_calls ≡ true)
    × (after (λ a. a) (1 ∷ []) o.address_calls (holds (λ a. a) (1 ∷ []) ((1 ∷ []) ∷ []))
        ≡ holds (λ a. a) (1 ∷ []) ((2 ∷ []) ∷ []))
    × (after
          (λ r. r.dst)
          (9 ∷ [])
          o.route_calls
          (holds (λ r. r.dst) (9 ∷ []) (route (8 ∷ []) 254 ∷ route (9 ∷ []) 0 ∷ []))
        ≡ is_allowed (9 ∷ []) (peer 3 ((7 ∷ []) ∷ []) ∷ []))
unfolding reconfig holds Bytes-discrete
reconfig_exact_example =
    reconfig_exact as_is (λ a. a) (255 ∷ []) kernel (config (peer 3 ((7 ∷ []) ∷ []) ∷ []))
      ((2 ∷ []) ∷ []) idle ((1 ∷ []) ∷ []) (route (8 ∷ []) 254 ∷ route (9 ∷ []) 0 ∷ []) (1 ∷ [])
      (9 ∷ []) refl refl (refl, tt) (refl, (refl, tt)) (refl, (refl, tt)) refl refl
