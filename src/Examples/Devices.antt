-- ===== src/Examples/Devices.antt =====
-- Differences of WireGuard configurations and of addresses.
use tetrapod.Base.{ℕ, ◌≡◌, refl, true, false, List, [], ◌∷◌, none, some, Bool}
use tetrapod.Base.Bytes.{Bytes}
use tetrapod.Wgengine.{PeerConfig, Config}
use tetrapod.Wgengine.Peers.{diff_peers, Engine, replaced, removed}

abbrev pub as_is : Bytes → Bytes
as_is k = k

abbrev pub peer : ℕ → List Bytes → PeerConfig
peer n ips = record {
  public_key = n ∷ [];
  remove = false;
  preshared_key = none;
  endpoint = none;
  persistent_keepalive_interval = some 25;
  replace_allowed_ips = false;
  allowed_ips = ips;
}

abbrev wanted : List PeerConfig
wanted = peer 3 ((1 ∷ []) ∷ []) ∷ peer 1 [] ∷ []

abbrev there_now : List PeerConfig
there_now = peer 2 [] ∷ peer 3 [] ∷ []

diff_wanted :
    diff_peers as_is wanted there_now
    ≡ peer 1 [] ∷ removed (peer 2 []) ∷ replaced (peer 3 ((1 ∷ []) ∷ [])) ∷ []
unfolding diff_peers
diff_wanted = refl

abbrev pub config : List PeerConfig → Config
config ps = record {
  private_key = none;
  listen_port = some 51820;
  firewall_mark = none;
  replace_peers = false;
  peers = ps;
}

abbrev pub idle : Engine
idle = record { prev_config = config []; told = [] }

abbrev pub takes : Config → Bool
takes c = true

abbrev refuses : Config → Bool
refuses c = false
