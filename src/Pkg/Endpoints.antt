-- ===== src/Pkg/Endpoints.antt =====
-- pkg/endpoints/endpoints.go: the addresses at which this node may be found.
use tetrapod.Base.{ℕ, ◌%◌, ◌^◌, List, [], ◌∷◌, ◌++◌, Option, none, some}
use tetrapod.Base.Netip.{Addr, AddrPort, unmap}

-- What STUN last said, over IPv4 and over IPv6.
pub record Collector : Type 0 where
  pub listen_port : ℕ
  pub addr_v4 : Option AddrPort
  pub addr_v6 : Option AddrPort

abbrev from_stun : Option AddrPort → List AddrPort
from_stun none = []
from_stun (some a) = a ∷ []

-- The addresses of the interfaces, with the listen port as a uint16.
abbrev pub at_listen_port : ℕ → List Addr → List AddrPort
at_listen_port port [] = []
at_listen_port port (a ∷ addrs) =
    record { addr = unmap a; port = port % 2 ^ 16 } ∷ at_listen_port port addrs

-- The endpoints and the global endpoints that notify calls the callback with. `interface_addrs` is what
-- net.InterfaceAddrs gives; it is empty where that fails.
unfoldable pub collect : List Addr → Collector → List AddrPort × List AddrPort
collect interface_addrs c =
    let global_endpoints = from_stun c.addr_v4 ++ from_stun c.addr_v6 in
    (
      at_listen_port c.listen_port interface_addrs ++ from_stun c.addr_v4 ++ from_stun c.addr_v6,
      global_endpoints,
    )

unfoldable pub notify_v4 :
    List Addr → AddrPort → Collector → (List AddrPort × List AddrPort) × Collector
unfolding collect
notify_v4 interface_addrs v4 c =
    let c' = record c { addr_v4 = some v4 } in (collect interface_addrs c', c')

unfoldable pub notify_v6 :
    List Addr → AddrPort → Collector → (List AddrPort × List AddrPort) × Collector
unfolding collect
notify_v6 interface_addrs v6 c =
    let c' = record c { addr_v6 = some v6 } in (collect interface_addrs c', c')
