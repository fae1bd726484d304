-- ===== src/Wgengine/Whole.antt =====
-- Reconfig of tetraengine/wgengine/wgengine.go: WireGuard, then the addresses, then the routes.
pub mod Calls
pub mod Allowed
pub mod Exact
use tetrapod.Base.{ℕ, Bool, true, false, ◌&&◌, List, [], Option, if◌then◌else◌}
use tetrapod.Base.Bytes.{Bytes}
use tetrapod.Wgengine.{Config}
use tetrapod.Wgengine.Kernel.{Call, Route, reconfig_addresses, reconfig_routes}
use tetrapod.Wgengine.Peers.{Engine, reconfig_wireguard}

-- What a reconfiguration leaves and calls; `ok` says that nil is returned.
pub record Outcome (A : Type 0) : Type 0 where
  pub engine : Engine
  pub address_calls : List (Call A)
  pub route_calls : List (Call Route)
  pub ok : Bool

-- What the kernel has, when it lists it, and which calls it accepts.
pub record Device (A : Type 0) : Type 0 where
  pub accepts : Config → Bool
  pub addresses : Option (List A)
  pub routes : Option (List Route)
  pub link_index : ℕ
  pub address_ok : Call A → Bool
  pub route_ok : Call Route → Bool

-- `key_string`, `text` and `multicast` are the texts of keys, of addresses and of ff00::/8.
unfoldable pub reconfig :
    {A : Type 0}
    → (Bytes → Bytes)
    → (A → Bytes)
    → Bytes
    → Device A
    → Config
    → List A
    → Engine
    → Outcome A
unfolding reconfig_wireguard reconfig_addresses reconfig_routes
reconfig key_string text multicast d config addrs e =
    let wireguard = reconfig_wireguard key_string d.accepts config e in
    if wireguard.1
    then (let (address_calls, addresses_ok) =
          reconfig_addresses text d.address_ok addrs d.addresses in
        let (route_calls, routes_ok) =
          reconfig_routes multicast d.route_ok config d.link_index d.routes in
        record {
          engine = wireguard.0;
          address_calls = address_calls;
          route_calls = route_calls;
          ok = addresses_ok && routes_ok;
        })
    else record { engine = wireguard.0; address_calls = []; route_calls = []; ok = false }
