-- ===== src/Examples/Mesh.antt =====
-- Claims on their way from one node to the pods and the peers of another.
use tetrapod.Base.{
  zero, suc, ◌≡◌, ◌≢◌, refl, Bool, true, List, [], ◌∷◌, Option, none, some, inl, inr, In,
  if◌then◌else◌,
}
use tetrapod.Base.Bytes.{Bytes, Bytes-discrete}
use tetrapod.Base.Netip.{AddrPort, Addr, Addr-discrete, invalid, ip4, ip6, is_valid}
use tetrapod.Controlplane.CidrClaim.{ready}
use tetrapod.Tetraengine.{EnginePeer, EngineConfig, LinkAddr, Texts, targets_of}
use tetrapod.Tetraengine.Publish.{Printed, published}
use tetrapod.Tetraengine.Publish.Reached.{is_representable, reachable, targets_of-published}
use tetrapod.Tetrad.Labels.{Labels, selects, node_type_for_node, pod_cidr_type_for_node}
use tetrapod.Tetrad.Api.{Object}
use tetrapod.Tetrad.PeersSync.{PeerNode, reconfigured, publish, reconcile_peers}
use tetrapod.Tetrad.PeersSync.Claimed.{matching}
use tetrapod.Tetrad.PeersSync.Mesh.{Carries, published_node_is_peer}
use tetrapod.Examples.Packets.{here, there}
use tetrapod.Examples.Cluster.{empty_object, cluster, node, template}

abbrev other_node : Bytes
other_node = 9 ∷ []

abbrev claim_of : Labels → Bytes → Object Labels
claim_of l cidr =
    let o = empty_object (4 ∷ []) in
    let st = record o.claim.status { state = ready; cidr = cidr } in
    record o { labels = l; claim = record o.claim { status = st } }

abbrev address_claim : Object Labels
address_claim = claim_of (node_type_for_node cluster other_node template) (20 ∷ [])

abbrev pod_claim : Object Labels
pod_claim = claim_of (pod_cidr_type_for_node cluster other_node template) (21 ∷ [])

abbrev claims : List (Object Labels)
claims = address_claim ∷ pod_claim ∷ []

abbrev told : EnginePeer
told = record {
  endpoints = (1 ∷ []) ∷ [];
  public_key = 30 ∷ [];
  public_disco_key = 31 ∷ [];
  addresses = [];
  allowed_ips = [];
}

abbrev old : PeerNode Labels
old = record {
  name = [];
  labels = [];
  public_key = [];
  public_disco_key = [];
  attributes = record { host_name = []; os = []; arch = [] };
  endpoints = [];
  static_routes = [];
  claims_selector = [];
  addresses_selector = [];
}

abbrev itself : Labels → Labels
itself l = l

abbrev toy_selector : Labels → Option (Labels → Bool)
toy_selector l = some (selects l)

abbrev toy_list : (Labels → Bool) → Option (List (Object Labels))
toy_list p = some (matching p claims)

abbrev toy_parse : Bytes → Option LinkAddr
toy_parse t = none

abbrev routes : List Bytes
routes = (40 ∷ []) ∷ []

abbrev nodes : List (PeerNode Labels)
nodes =
    publish itself [] [] cluster other_node routes told old
    ∷ publish itself [] [] cluster node [] told old
    ∷ []

other_than : other_node ≢ node
other_than e = absurd (cc)

published_node_is_peer_example :
    (cfg : EngineConfig) × (pc : EnginePeer) × (reconcile_peers toy_selector toy_list toy_parse
        cluster node [] 4000 []
        (some nodes)
      ≡ reconfigured cfg)
    × In pc cfg.peers
    × (pc.public_key ≡ told.public_key)
    × (pc.public_disco_key ≡ told.public_disco_key)
    × (pc.endpoints ≡ told.endpoints)
    × Carries claims cluster other_node routes pc
published_node_is_peer_example =
    published_node_is_peer itself toy_selector toy_list claims (λ l. refl) (λ p. refl) toy_parse []
      [] cluster node other_node [] routes told told old old [] [] 4000 nodes other_than
      (inr (inl refl)) (inl refl)

-- Addresses as numbers, with a tag.
abbrev toy_addr : Addr → Bytes
toy_addr invalid = 0 ∷ []
toy_addr (ip4 n) = 1 ∷ n ∷ []
toy_addr (ip6 n) = 2 ∷ n ∷ []

abbrev toy_addr_port : AddrPort → Bytes
toy_addr_port a = a.port ∷ toy_addr a.addr

abbrev toy_parse_addr_port : Bytes → Option AddrPort
toy_parse_addr_port (p ∷ suc zero ∷ n ∷ []) = some (record { addr = ip4 n; port = p })
toy_parse_addr_port (p ∷ suc (suc zero) ∷ n ∷ []) = some (record { addr = ip6 n; port = p })
toy_parse_addr_port _ = none

abbrev toy_texts : Texts
toy_texts = record {
  parse_key = λ t. some t;
  decode = λ t. some t;
  parse_addr_port = toy_parse_addr_port;
  parse_prefix = λ t. some t;
  udp_addr = toy_addr_port;
}

abbrev toy_printed : Printed
toy_printed = record {
  link = λ a. toy_addr a.ip;
  ip = toy_addr;
  addr = toy_addr;
  addr_port = toy_addr_port;
  prefix = λ p. toy_addr p.0;
}

toy_read :
    (e : AddrPort)
    → is_representable e ≡ true
    → toy_parse_addr_port (toy_addr_port e) ≡ (if is_valid e.addr then some e else none)
toy_read e h =
    elim e.addr
      as (λ a.
        toy_parse_addr_port (toy_addr_port (record { addr = a; port = e.port }))
        ≡ (if is_valid a then some (record { addr = a; port = e.port }) else none)) [
          | invalid ↦ refl
          | ip4 n ↦ refl
          | ip6 n ↦ refl
        ]

abbrev nowhere : AddrPort
nowhere = record { addr = invalid; port = 0 }

targets_of-published_example :
    targets_of toy_texts
      (here.addr ∷ [])
      (published toy_printed (toy_addr (ip4 7) ∷ []) (here ∷ nowhere ∷ there ∷ []))
    ≡ reachable toy_printed (toy_addr (ip4 7) ∷ []) (here.addr ∷ []) (here ∷ nowhere ∷ there ∷ [])
targets_of-published_example =
    targets_of-published toy_texts toy_printed toy_read (toy_addr (ip4 7) ∷ []) (here.addr ∷ [])
      (here ∷ nowhere ∷ there ∷ []) refl

there_is_reachable :
    reachable toy_printed (toy_addr (ip4 7) ∷ []) (here.addr ∷ []) (here ∷ nowhere ∷ there ∷ [])
    ≡ there ∷ []
unfolding Bytes-discrete Addr-discrete
there_is_reachable = refl
