-- ===== src/Wgengine/Peers.antt =====
-- diffPeers and diffConfigs of tetraengine/wgengine/util.go. `key_string` is wgtypes.Key.String, by whose
-- values the peers are sorted and matched.
pub mod Differs
pub mod Merge
pub mod Configs
use tetrapod.Base.{
  ℕ, Bool, true, false, not, ◌||◌, List, [], ◌∷◌, ◌++◌, map, Option, none, some, is_yes, ℕ_discrete,
  length, ◌==◌, if◌then◌else◌,
}
use tetrapod.Base.Bytes.{Bytes, Bytes-discrete}
use tetrapod.Base.Order.{bytes_lt, sort_slice}
use tetrapod.Wgengine.{PeerConfig, Config}

-- One is nil and the other is not, or both point to different values.
abbrev pub options_differ {ℓ} : {A : Type ℓ} → Discrete A → Option A → Option A → Bool
options_differ dec none none = false
options_differ dec none (some b) = true
options_differ dec (some a) none = true
options_differ dec (some a) (some b) = not (is_yes (dec a b))

-- The loop over the allowed addresses, whose number is the same.
unfoldable pub ips_differ : List Bytes → List Bytes → Bool
unfolding Bytes-discrete
ips_differ [] cs = false
ips_differ (e ∷ es) [] = false
ips_differ (e ∷ es) (c ∷ cs) = not (is_yes (Bytes-discrete e c)) || ips_differ es cs

-- The function literal `differs`.
unfoldable pub differs : PeerConfig → PeerConfig → Bool
unfolding ips_differ ℕ_discrete
differs e c =
    options_differ Bytes-discrete e.endpoint c.endpoint
    || options_differ ℕ_discrete e.persistent_keepalive_interval c.persistent_keepalive_interval
    || options_differ Bytes-discrete e.preshared_key c.preshared_key
    || not (is_yes (Bytes-discrete e.public_key c.public_key))
    || not (length e.allowed_ips == length c.allowed_ips)
    || ips_differ e.allowed_ips c.allowed_ips

-- The state of wgEngine that decides what the device is told.
pub record Engine : Type 0 where
  pub prev_config : Config
  pub told : List Config

abbrev pub removed : PeerConfig → PeerConfig
removed c = record c { remove = true }

abbrev pub replaced : PeerConfig → PeerConfig
replaced e = record e { replace_allowed_ips = true }

module _ (key_string : Bytes → Bytes) where
  abbrev pub key_of : PeerConfig → Bytes
  key_of p = key_string p.public_key

  -- The loop over both sorted slices, from eIndex and cIndex on.
  unfoldable pub diff_loop : List PeerConfig → List PeerConfig → List PeerConfig
  unfolding differs bytes_lt
  diff_loop [] cs = map removed cs
  diff_loop (e ∷ es) [] = e ∷ es
  diff_loop (e ∷ es) (c ∷ cs) = elim (bytes_lt (key_of c) (key_of e)) [
    | true ↦ removed c ∷ diff_loop (e ∷ es) cs
    | false ↦ elim (bytes_lt (key_of e) (key_of c)) [
      | true ↦ e ∷ diff_loop es (c ∷ cs)
      | false ↦ elim (differs e c) [ true ↦ replaced e ∷ diff_loop es cs | false ↦ diff_loop es cs ]
    ]
  ]

  unfoldable pub diff_peers : List PeerConfig → List PeerConfig → List PeerConfig
  unfolding diff_loop sort_slice
  diff_peers expected current = diff_loop (sort_slice key_of expected) (sort_slice key_of current)

  abbrev is_empty_peers : List PeerConfig → Bool
  is_empty_peers [] = true
  is_empty_peers (p ∷ ps) = false

  -- The difference, and whether there is any.
  unfoldable pub diff_configs : Config → Config → Config × Bool
  unfolding diff_peers ℕ_discrete Bytes-discrete
  diff_configs expected current =
      let peers = diff_peers expected.peers current.peers in
      (
        record {
          private_key = expected.private_key;
          listen_port = expected.listen_port;
          firewall_mark = expected.firewall_mark;
          replace_peers = is_empty_peers current.peers;
          peers = peers;
        },
        options_differ ℕ_discrete expected.firewall_mark current.firewall_mark
            || options_differ ℕ_discrete expected.listen_port current.listen_port
            || options_differ Bytes-discrete expected.private_key current.private_key
            || not (is_empty_peers peers),
      )

  -- The configuration after diffPeers has sorted its peers in place.
  abbrev pub sorted : Config → Config
  sorted c = record c { peers = sort_slice key_of c.peers }

  -- What reconfigWireguard keeps: prevConfig, and the differences the device was told, newest first.
  -- `accepts` says whether ConfigureDevice succeeds, the namespace switch included.
  unfoldable pub reconfig_wireguard : (Config → Bool) → Config → Engine → Engine × Bool
  unfolding diff_configs sort_slice
  reconfig_wireguard accepts config e =
      let diff = diff_configs config e.prev_config in
      let e' = record e { prev_config = sorted e.prev_config } in
      if diff.1
      then (if accepts diff.0
          then (record e' { prev_config = sorted config; told = diff.0 ∷ e.told }, true)
          else (record e' { told = diff.0 ∷ e.told }, false))
      else (e', true)
