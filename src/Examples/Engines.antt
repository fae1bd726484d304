-- ===== src/Examples/Engines.antt =====
-- The engine's configuration handed to disco.
use tetrapod.Base.{zero, suc, ◌≡◌, refl, false, [], ◌∷◌, Option, none, some, is_some, map}
use tetrapod.Base.Bytes.{Bytes, Bytes-discrete}
use tetrapod.Base.Netip.{AddrPort}
use tetrapod.Pkg.Syncmap.{load}
use tetrapod.Disco.Hub.{Hub}
use tetrapod.Disco.Hub.Sync.{Opens, synced}
use tetrapod.Tetraengine.{
  Texts, EnginePeer, disco_targets, reconfig_disco, addresses_of, wg_peer_configs,
}
use tetrapod.Tetraengine.Targets.{Clear, configures, reconfig_disco_exact}
use tetrapod.Examples.Packets.{toy_box, here, there, alice, bob}

-- A text of one character is one of two addresses.
abbrev toy_addr_port : Bytes → Option AddrPort
toy_addr_port [] = none
toy_addr_port (zero ∷ t) = some here
toy_addr_port (suc n ∷ t) = some there

abbrev toy_texts : Texts
toy_texts = record {
  parse_key = λ t. some t;
  decode = λ t. some t;
  parse_addr_port = toy_addr_port;
  parse_prefix = λ t. some t;
  udp_addr = λ a. 7 ∷ [];
}

abbrev bobs_entry : EnginePeer
bobs_entry = record {
  endpoints = (0 ∷ []) ∷ (1 ∷ []) ∷ [] ∷ [];
  public_key = 1 ∷ [];
  public_disco_key = bob;
  addresses = [];
  allowed_ips = [];
}

-- `here` is this node's own global address.
bob_is_looked_for :
    disco_targets toy_texts (addresses_of (here ∷ [])) (bobs_entry ∷ []) [] ≡ (bob, there ∷ []) ∷ []
unfolding disco_targets
bob_is_looked_for = refl

bob_is_told :
    map
      (λ p. p.endpoint)
      (wg_peer_configs toy_texts
        ((bob, record { active_endpoint = there; active_rtt = 3 }) ∷ [])
        (bobs_entry ∷ []))
    ≡ some (7 ∷ []) ∷ []
unfolding wg_peer_configs
bob_is_told = refl

abbrev hub : Hub
hub = record { private_key = alice; closed = false; peers = [] }

reconfig_disco_exact_example :
    let targets = disco_targets toy_texts (addresses_of (here ∷ [])) (bobs_entry ∷ []) [] in
    ((j : Bytes) → Clear (addresses_of (here ∷ [])) (load Bytes-discrete j targets))
    × ((j : Bytes)
        → is_some (load Bytes-discrete j targets) ≡ configures toy_texts j (bobs_entry ∷ []))
    × Opens
        (reconfig_disco toy_texts toy_box (here ∷ []) (bobs_entry ∷ []) hub)
        hub
        (λ j. synced toy_box alice j (load Bytes-discrete j targets) (load Bytes-discrete j []))
reconfig_disco_exact_example =
    reconfig_disco_exact toy_texts toy_box (here ∷ []) (bobs_entry ∷ []) hub refl
