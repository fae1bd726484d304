-- ===== src/Wgengine/Peers/Configs.antt =====
-- diffConfigs and reconfigWireguard: when the device is told something, and what is remembered.
use tetrapod.Base.{◌≡◌, refl, Bool, true, false, List, [], ◌∷◌, ℕ_discrete, arith}
use tetrapod.Base.Bytes.{Bytes, Bytes-discrete}
use tetrapod.Base.Order.{sort_slice, insert_sorted, bytes_lt_irrefl, bytes_lt_asymm}
use tetrapod.Wgengine.{PeerConfig, Config}
use tetrapod.Wgengine.Peers.{
  key_of, diff_loop, diff_peers, diff_configs, sorted, Engine, reconfig_wireguard,
}
use tetrapod.Wgengine.Peers.Differs.{options_differ_same, differs_same}
use tetrapod.Wgengine.Peers.Merge.{DistinctKeys, Ascending, sort_slice-Ascending}

module _ (key_string : Bytes → Bytes) where
  diff_loop_same : (ps : List PeerConfig) → diff_loop key_string ps ps ≡ []
  unfolding diff_loop
  diff_loop_same [] = refl
  diff_loop_same (p ∷ ps) =
      ground (arith, bytes_lt_irrefl (key_of key_string p), differs_same p, diff_loop_same ps)

  sort_slice_sorted :
      (ps : List PeerConfig) → Ascending key_string ps → sort_slice (key_of key_string) ps ≡ ps
  unfolding sort_slice insert_sorted
  sort_slice_sorted [] a = refl
  sort_slice_sorted (p ∷ []) a = refl
  sort_slice_sorted (p ∷ q ∷ ps) a = ground (
    arith,
    sort_slice_sorted (q ∷ ps) a.1,
    bytes_lt_asymm (key_of key_string p) (key_of key_string q) a.0.0,
  )

  diff_configs_same :
      (c prev : Config)
      → DistinctKeys key_string c.peers
      → prev ≡ sorted key_string c
      → (diff_configs key_string c prev).1 ≡ false
  unfolding diff_configs diff_peers
  diff_configs_same c prev d e = ground (
    arith,
    options_differ_same ℕ_discrete c.firewall_mark,
    options_differ_same ℕ_discrete c.listen_port,
    options_differ_same Bytes-discrete c.private_key,
    sort_slice_sorted (sort_slice (key_of key_string) c.peers)
        (sort_slice-Ascending key_string c.peers d),
    diff_loop_same (sort_slice (key_of key_string) c.peers),
  )

  sorted-Ascending : (c : Config) → Ascending key_string c.peers → sorted key_string c ≡ c
  sorted-Ascending c a = ground (arith, sort_slice_sorted c.peers a)

  -- With the remembered peers in the order of their key texts, and with distinct key texts in the new
  -- configuration: after a call that succeeded, the same call again tells the device nothing, succeeds and
  -- changes nothing.
  pub reconfig_wireguard_settles :
      (accepts : Config → Bool) (c : Config) (e : Engine)
      → Ascending key_string e.prev_config.peers
      → DistinctKeys key_string c.peers
      → (reconfig_wireguard key_string accepts c e).1 ≡ true
      → reconfig_wireguard key_string accepts c (reconfig_wireguard key_string accepts c e).0
        ≡ ((reconfig_wireguard key_string accepts c e).0, true)
  unfolding reconfig_wireguard
  reconfig_wireguard_settles accepts c e a d ok = ground (
    arith,
    sorted-Ascending e.prev_config a,
    diff_configs_same c (sorted key_string c) d refl,
    sorted-Ascending (sorted key_string c) (sort_slice-Ascending key_string c.peers d),
  )

  -- With the remembered peers in the order of their key texts: when the device refuses, what is remembered
  -- stays, and the next call with the same configuration tells the device the same difference again.
  pub reconfig_wireguard_retries :
      (accepts accepts' : Config → Bool) (c : Config) (e : Engine)
      → Ascending key_string e.prev_config.peers
      → (reconfig_wireguard key_string accepts c e).1 ≡ false
      → let r = reconfig_wireguard key_string accepts c e in
        let diff = (diff_configs key_string c e.prev_config).0 in
        (r.0.prev_config ≡ e.prev_config)
        × (r.0.told ≡ diff ∷ e.told)
        × ((reconfig_wireguard key_string accepts' c r.0).0.told ≡ diff ∷ diff ∷ e.told)
  unfolding reconfig_wireguard
  reconfig_wireguard_retries accepts accepts' c e a refused =
      ground (arith, sorted-Ascending e.prev_config a)
