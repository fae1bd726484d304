-- ===== src/Tetrad/Config/Loaded.antt =====
-- What holds of a configuration that was loaded.
use tetrapod.Base.{ℕ, ◌≡◌, false, [], ◌∷◌, none, ◌==◌, if◌then◌else◌, arith}
use tetrapod.Base.Bytes.{Bytes}
use tetrapod.Tetrad.Labels.{is_empty}
use tetrapod.Tetrad.Config.{
  Var, wg_stun_endpoint, cluster_name_var, node_name_var, netns_var, cni_enable_extra_claims,
  Library, CnidConfig, CniConfig, default_namespace, default_stun_endpoint, default_name,
  default_netns, default_socket_path, extra_claims_key, load_from_env_bool,
  controlplane_apiendpoint, controlplane_root_ca_cert, controlplane_token, controlplane_namespace,
  load_cnid,
}

-- The first text that is not empty.
abbrev pub set_or : Bytes → Bytes → Bytes
set_or [] v = v
set_or (c ∷ cs) v = c ∷ cs

-- Each field of `c` is the environment's where that sets it, else the file's, else its default where it has
-- one. `port` is the listen port before its default.
pub record Follows (env : Var → Bytes) (cfg : CniConfig) (port : ℕ) (c : CniConfig) : Type 0 where
  pub cluster_name : c.cluster_name ≡ set_or (env cluster_name_var) cfg.cluster_name
  pub node_name : c.node_name ≡ set_or (env node_name_var) cfg.node_name
  pub network_namespace : c.network_namespace ≡ set_or (env netns_var) cfg.network_namespace
  pub api_endpoint :
      c.control_plane.api_endpoint
      ≡ set_or (env controlplane_apiendpoint) cfg.control_plane.api_endpoint
  pub root_ca_cert :
      c.control_plane.root_ca_cert
      ≡ set_or (env controlplane_root_ca_cert) cfg.control_plane.root_ca_cert
  pub token : c.control_plane.token ≡ set_or (env controlplane_token) cfg.control_plane.token
  pub namespace :
      c.control_plane.namespace
      ≡ set_or (env controlplane_namespace) (set_or cfg.control_plane.namespace default_namespace)
  pub stun_endpoint :
      c.wireguard.stun_endpoint
      ≡ set_or (env wg_stun_endpoint) (set_or cfg.wireguard.stun_endpoint default_stun_endpoint)
  pub listen_port : c.wireguard.listen_port ≡ (if port == 0 then 54321 else port)
  pub device : c.wireguard.name ≡ set_or cfg.wireguard.name default_name
  pub netns : c.wireguard.netns ≡ set_or cfg.wireguard.netns default_netns
  pub socket_path : c.cnid.socket_path ≡ set_or cfg.cnid.socket_path default_socket_path
  pub static_routes : c.static_advertised_routes ≡ cfg.static_advertised_routes

module _ (lib : Library) (env : Var → Bytes) where
  -- The name of the variable is not what ParseBool reads as a Boolean, so setting the variable to any
  -- text, also to "true", switches the extra claims off.
  pub load_cnid-extra :
      (config_path : Bytes) (c : CnidConfig)
      → lib.parse_bool extra_claims_key ≡ none
      → (load_cnid lib env config_path c).extra
        ≡ (if is_empty (env cni_enable_extra_claims) then c.extra else false)
  unfolding load_cnid load_from_env_bool
  load_cnid-extra config_path c p = ground (arith, p)
