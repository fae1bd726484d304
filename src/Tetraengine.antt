-- ===== src/Tetraengine.antt =====
-- tetraengine: which peers disco looks for, and what wgengine is told. Parsing and printing of keys and
-- addresses are the libraries' own: `Texts` is what the program calls of them.
pub mod Targets
pub mod Sockets
pub mod Publish
pub mod Loop
use tetrapod.Base.{
  ℕ, Bool, true, false, not, List, [], ◌∷◌, Option, none, some, map, if◌then◌else◌, is_some,
}
use tetrapod.Base.Bytes.{Bytes, Bytes-discrete}
use tetrapod.Base.Netip.{Addr, AddrPort, Addr-discrete, is_valid}
use tetrapod.Wgkey.{Box, parse}
use tetrapod.Pkg.Syncmap.{Map, load, store, from_slice, contains}
use tetrapod.Disco.Peer.{Peer, PeerStatus}
use tetrapod.Disco.Hub.{Hub, set_peers, get_all_statuses}
use tetrapod.Wgengine.{Config, PeerConfig}

pub record Texts : Type 0 where
  -- wgtypes.ParseKey, base64's DecodeString, netip.ParseAddrPort.
  pub parse_key : Bytes → Option Bytes
  pub decode : Bytes → Option Bytes
  pub parse_addr_port : Bytes → Option AddrPort
  -- netip.ParsePrefix, and the text of the network made from it.
  pub parse_prefix : Bytes → Option Bytes
  -- The text of net.UDPAddrFromAddrPort.
  pub udp_addr : AddrPort → Bytes

-- netlink.Addr: its IP, as netip.AddrFromSlice reads it, and the length of its mask.
pub record LinkAddr : Type 0 where
  pub ip : Addr
  pub bits : ℕ

-- PeerConfig of the engine's configuration, as texts.
pub record EnginePeer : Type 0 where
  pub endpoints : List Bytes
  pub public_key : Bytes
  pub public_disco_key : Bytes
  pub addresses : List Bytes
  pub allowed_ips : List Bytes

pub record EngineConfig : Type 0 where
  pub private_key : Bytes
  pub listen_port : ℕ
  pub stun_endpoint : Bytes
  pub addresses : List LinkAddr
  pub peers : List EnginePeer

-- What reconfig ends in: an error, a panic of SetPeers, or a hub and a configuration for wgengine.
pub data Reconfigured : Type 0 where
  failed : Reconfigured
  panicked : Reconfigured
  configured : Hub → Config → Reconfigured

-- globalAddresses; nothing where the endpoints were not collected yet.
abbrev pub addresses_of : List AddrPort → List Addr
addresses_of [] = []
addresses_of (ep ∷ eps) = ep.addr ∷ addresses_of eps

-- 30 seconds.
abbrev keepalive : ℕ
keepalive = 30_000_000_000

module _ (texts : Texts) where
  -- The endpoints of a peer that parse and do not share an address with this node's NAT.
  unfoldable pub targets_of : List Addr → List Bytes → List AddrPort
  unfolding from_slice contains Addr-discrete
  targets_of global [] = []
  targets_of global (text ∷ eps) = elim (texts.parse_addr_port text) [
    | none ↦ targets_of global eps
    | some ep ↦ elim (contains Addr-discrete ep.addr (from_slice Addr-discrete global)) [
      | true ↦ targets_of global eps
      | false ↦ ep ∷ targets_of global eps
    ]
  ]

  -- The map that reconfigDisco builds; a later peer of one disco key replaces an earlier one.
  unfoldable pub disco_targets :
      List Addr → List EnginePeer → Map Bytes (List AddrPort) → Map Bytes (List AddrPort)
  unfolding targets_of parse store Bytes-discrete
  disco_targets global [] m = m
  disco_targets global (p ∷ ps) m = elim (parse texts.decode p.public_disco_key) [
    | none ↦ disco_targets global ps m
    | some k ↦ disco_targets global ps (store Bytes-discrete k (targets_of global p.endpoints) m)
  ]

  unfoldable pub reconfig_disco : Box → List AddrPort → List EnginePeer → Hub → Option Hub
  unfolding disco_targets set_peers
  reconfig_disco box global peers h = set_peers box (disco_targets (addresses_of global) peers []) h

  unfoldable pub parse_all : List Bytes → Option (List Bytes)
  parse_all [] = some []
  parse_all (ip ∷ ips) =
      let rest = parse_all ips in
      elim (texts.parse_prefix ip) [
        | none ↦ none
        | some n ↦ elim rest [ none ↦ none | some ns ↦ some (n ∷ ns) ]
      ]

  unfoldable pub to_wg_config : EnginePeer → Option PeerConfig
  unfolding parse_all
  to_wg_config p = elim (parse_all p.allowed_ips) [
    | none ↦ none
    | some ips ↦ elim (texts.parse_key p.public_key) [
      | none ↦ none
      | some k ↦ some (record {
        public_key = k;
        remove = false;
        preshared_key = none;
        endpoint = none;
        persistent_keepalive_interval = some keepalive;
        replace_allowed_ips = true;
        allowed_ips = ips;
      })
    ]
  ]

  -- getDiscoStatus
  unfoldable pub get_disco_status : Map Bytes PeerStatus → Bytes → Option PeerStatus
  unfolding parse load Bytes-discrete
  get_disco_status statuses text = elim (parse texts.decode text) [
    | none ↦ none
    | some k ↦ load Bytes-discrete k statuses
  ]

  -- wcfg.Endpoint, from the status of the peer.
  abbrev pub endpoint_of : Option PeerStatus → Option Bytes
  endpoint_of none = none
  endpoint_of (some s) =
      if is_valid s.active_endpoint.addr then some (texts.udp_addr s.active_endpoint) else none

  unfoldable pub wg_peer_configs : Map Bytes PeerStatus → List EnginePeer → List PeerConfig
  unfolding to_wg_config get_disco_status
  wg_peer_configs statuses [] = []
  wg_peer_configs statuses (p ∷ ps) =
      let rest = wg_peer_configs statuses ps in
      elim (to_wg_config p) [
        | none ↦ rest
        | some w ↦
            record w { endpoint = endpoint_of (get_disco_status statuses p.public_disco_key) }
            ∷ rest
      ]

  -- reconfig up to the call of wgengine's Reconfig with the configuration.
  unfoldable pub reconfig : Box → List AddrPort → EngineConfig → Hub → Reconfigured
  unfolding reconfig_disco wg_peer_configs
  reconfig box global cfg h = elim (texts.parse_key cfg.private_key) [
    | none ↦ failed
    | some key ↦ elim (reconfig_disco box global cfg.peers h) [
      | none ↦ panicked
      | some h' ↦ configured h' (record {
        private_key = some key;
        listen_port = some cfg.listen_port;
        firewall_mark = none;
        replace_peers = true;
        peers = wg_peer_configs (get_all_statuses h'.peers) cfg.peers;
      })
    ]
  ]
