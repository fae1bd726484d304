-- ===== src/Tetrad/Config.antt =====
-- tetrad/api/v1alpha1/cniconfig_types.go: the configuration of a node from a file and the environment. Texts are
-- split, trimmed, parsed and joined to paths by Go's standard library, the record Library. A variable of the
-- environment is a constructor; the fields that Load does not touch are left out.
pub mod Loaded
use tetrapod.Base.{
  ℕ, ◌≡◌, Bool, true, false, not, ◌&&◌, List, [], ◌∷◌, ◌++◌, Option, none, some, ◌==◌,
  if◌then◌else◌, is_yes, map,
}
use tetrapod.Base.Bytes.{Bytes, Bytes-discrete}
use tetrapod.Tetrad.Labels.{is_empty}

pub data Var : Type 0 where
  controlplane_apiendpoint controlplane_root_ca_cert controlplane_token controlplane_namespace : Var
  controlplane_kubeconfig controlplane_context controlplane_templates : Var
  wg_private_key wg_stun_endpoint wg_listen_port : Var
  cni_pod_templates cni_enable_extra_claims : Var
  cluster_name_var node_name_var netns_var : Var

pub record Library : Type 0 where
  pub split : Bytes → List Bytes
  pub trim_space : Bytes → Bytes
  -- Atoi, for numbers that are not negative, and ParseBool; none is an error.
  pub atoi : Bytes → Option ℕ
  pub parse_bool : Bytes → Option Bool
  -- ParseCIDR reads the text.
  pub is_cidr : Bytes → Bool
  pub is_abs : Bytes → Bool
  -- A file in the directory of another.
  pub beside : Bytes → Bytes → Bytes

pub record KubeConfig : Type 0 where
  pub file : Bytes
  pub has_inline : Bool
  pub context : Bytes

pub record ControlPlane : Type 0 where
  pub api_endpoint : Bytes
  pub root_ca_cert : Bytes
  pub token : Bytes
  pub namespace : Bytes
  pub kube_config : KubeConfig
  pub address_claim_templates : List Bytes

pub record Wireguard : Type 0 where
  pub private_key : Bytes
  pub listen_port : ℕ
  pub stun_endpoint : Bytes
  pub name : Bytes
  pub netns : Bytes

pub record CnidConfig : Type 0 where
  pub address_claim_templates : List Bytes
  pub extra : Bool
  pub socket_path : Bytes
  pub kube_config : KubeConfig

pub record CniConfig : Type 0 where
  pub cluster_name : Bytes
  pub node_name : Bytes
  pub network_namespace : Bytes
  pub control_plane : ControlPlane
  pub wireguard : Wireguard
  pub cnid : CnidConfig
  pub static_advertised_routes : List Bytes

-- "default", "in-cluster", "/run/tetrapod/cni.sock", "stun.l.google.com:19302", "tetrapod0", "tetrapod", and
-- "TETRAPOD_CNI_ENABLE_EXTRA_CLAIMS".
abbrev pub default_namespace : Bytes
default_namespace = 100 ∷ 101 ∷ 102 ∷ 97 ∷ 117 ∷ 108 ∷ 116 ∷ []

abbrev pub in_cluster : Bytes
in_cluster = 105 ∷ 110 ∷ 45 ∷ 99 ∷ 108 ∷ 117 ∷ 115 ∷ 116 ∷ 101 ∷ 114 ∷ []

abbrev pub default_socket_path : Bytes
default_socket_path =
    47 ∷ 114 ∷ 117 ∷ 110 ∷ 47 ∷ 116 ∷ 101 ∷ 116 ∷ 114 ∷ 97 ∷ 112 ∷ 111 ∷ 100 ∷ 47 ∷ 99 ∷ 110 ∷ 105
    ∷ 46 ∷ 115 ∷ 111 ∷ 99 ∷ 107 ∷ []

abbrev pub default_stun_endpoint : Bytes
default_stun_endpoint =
    115 ∷ 116 ∷ 117 ∷ 110 ∷ 46 ∷ 108 ∷ 46 ∷ 103 ∷ 111 ∷ 111 ∷ 103 ∷ 108 ∷ 101 ∷ 46 ∷ 99 ∷ 111 ∷ 109
    ∷ 58 ∷ 49 ∷ 57 ∷ 51 ∷ 48 ∷ 50 ∷ []

abbrev pub default_netns : Bytes
default_netns = 116 ∷ 101 ∷ 116 ∷ 114 ∷ 97 ∷ 112 ∷ 111 ∷ 100 ∷ []

abbrev pub default_name : Bytes
default_name = default_netns ++ 48 ∷ []

abbrev pub extra_claims_key : Bytes
extra_claims_key =
    84 ∷ 69 ∷ 84 ∷ 82 ∷ 65 ∷ 80 ∷ 79 ∷ 68 ∷ 95 ∷ 67 ∷ 78 ∷ 73 ∷ 95 ∷ 69 ∷ 78 ∷ 65 ∷ 66 ∷ 76 ∷ 69
    ∷ 95 ∷ 69 ∷ 88 ∷ 84 ∷ 82 ∷ 65 ∷ 95 ∷ 67 ∷ 76 ∷ 65 ∷ 73 ∷ 77 ∷ 83 ∷ []

-- What Load ends in: a panic, an error, or the configuration; without a panic, also what is now in the
-- key's file.
pub data LoadedAs : Type 0 where
  panicked : LoadedAs
  failed : Bytes → LoadedAs
  loaded : CniConfig → Bytes → LoadedAs

abbrev pub or_default : Bytes → Bytes → Bytes
or_default d v = if is_empty v then d else v

module _ (lib : Library) where
  unfoldable pub load_kube_config : Bytes → KubeConfig → KubeConfig
  unfolding Bytes-discrete
  load_kube_config config_path kc =
      if not (is_empty kc.file)
        && (not (is_yes (Bytes-discrete kc.file in_cluster)) && not (lib.is_abs kc.file))
      then record kc { file = lib.beside config_path kc.file }
      else kc

  unfoldable pub all_cidrs : List Bytes → Bool
  all_cidrs [] = true
  all_cidrs (r ∷ rs) = if lib.is_cidr r then all_cidrs rs else false

module _ (lib : Library) (env : Var → Bytes) where
  unfoldable pub load_from_env : Bytes → Var → Bytes
  load_from_env v key = or_default v (env key)

  -- ParseBool is called on the name of the variable, and gives false with an error.
  unfoldable pub load_from_env_bool : Bool → Var → Bytes → Bool
  load_from_env_bool v key name =
      if is_empty (env key) then v else elim (lib.parse_bool name) [ none ↦ false | some b ↦ b ]

  unfoldable pub load_from_env_array : List Bytes → Var → List Bytes
  load_from_env_array v key =
      if is_empty (env key) then v else v ++ map lib.trim_space (lib.split (env key))

  unfoldable pub load_control_plane : Bytes → ControlPlane → ControlPlane
  unfolding load_from_env load_from_env_array load_kube_config
  load_control_plane config_path cp = record {
    api_endpoint = load_from_env cp.api_endpoint controlplane_apiendpoint;
    root_ca_cert = load_from_env cp.root_ca_cert controlplane_root_ca_cert;
    token = load_from_env cp.token controlplane_token;
    namespace = or_default default_namespace (load_from_env cp.namespace controlplane_namespace);
    kube_config = load_kube_config lib config_path (record cp.kube_config {
      file = load_from_env cp.kube_config.file controlplane_kubeconfig;
      context = load_from_env cp.kube_config.context controlplane_context;
    });
    address_claim_templates = load_from_env_array cp.address_claim_templates controlplane_templates;
  }

  -- The listen port; none is a panic.
  unfoldable pub load_listen_port : ℕ → Option ℕ
  unfolding load_from_env
  load_listen_port port =
      let value = load_from_env [] wg_listen_port in
      elim (if is_empty value then some port else lib.atoi value) [
        | none ↦ none
        | some p ↦ some (if p == 0 then 54321 else p)
      ]

  -- The key, and what is in its file then; none is a panic. `disk` is what was in the file, empty also where it
  -- cannot be read, and `generated` what GeneratePrivateKey gives. MkdirAll and WriteFile are called with
  -- the new key and their errors are ignored: `written` is what they leave in the file.
  unfoldable pub load_private_key_from_disk :
      (Bytes → Bytes) → Bytes → Option Bytes → Bytes → Option (Bytes × Bytes)
  load_private_key_from_disk written disk generated key =
      let read = if is_empty disk then key else lib.trim_space disk in
      elim generated [ none ↦ none | some new ↦ some (new, written new) ]

  unfoldable pub load_private_key :
      (Bytes → Bytes) → Bytes → Option Bytes → Bytes → Option (Bytes × Bytes)
  unfolding load_private_key_from_disk
  load_private_key written disk generated key =
      if is_empty key
      then load_private_key_from_disk written disk generated key
      else some (key, disk)

  unfoldable pub load_wireguard :
      (Bytes → Bytes) → Bytes → Option Bytes → Wireguard → Option (Wireguard × Bytes)
  unfolding load_from_env load_listen_port load_private_key
  load_wireguard written disk generated wg = elim (load_listen_port wg.listen_port) [
    | none ↦ none
    | some port ↦
        elim (load_private_key written disk generated
          (load_from_env wg.private_key wg_private_key)) [
            | none ↦ none
            | some (key, disk') ↦ some (
              record {
                private_key = key;
                listen_port = port;
                stun_endpoint =
                    or_default default_stun_endpoint
                      (load_from_env wg.stun_endpoint wg_stun_endpoint);
                name = or_default default_name wg.name;
                netns = or_default default_netns wg.netns;
              },
              disk',
            )
          ]
  ]

  unfoldable pub load_cnid : Bytes → CnidConfig → CnidConfig
  unfolding load_from_env_array load_from_env_bool load_kube_config
  load_cnid config_path c = record {
    address_claim_templates = load_from_env_array c.address_claim_templates cni_pod_templates;
    extra = load_from_env_bool c.extra cni_enable_extra_claims extra_claims_key;
    socket_path = or_default default_socket_path c.socket_path;
    kube_config = load_kube_config lib config_path (
        if is_empty c.kube_config.file && not c.kube_config.has_inline
        then record c.kube_config { file = in_cluster }
        else c.kube_config);
  }

  unfoldable pub load_config : Bytes → (Bytes → Bytes) → Bytes → Option Bytes → CniConfig → LoadedAs
  unfolding load_from_env load_control_plane load_wireguard load_cnid all_cidrs
  load_config config_path written disk generated cfg =
      elim (load_wireguard written disk generated cfg.wireguard) [
        | none ↦ panicked
        | some (wg, disk') ↦
            if all_cidrs lib cfg.static_advertised_routes
            then loaded
                (record cfg {
                  cluster_name = load_from_env cfg.cluster_name cluster_name_var;
                  node_name = load_from_env cfg.node_name node_name_var;
                  network_namespace = load_from_env cfg.network_namespace netns_var;
                  control_plane = load_control_plane config_path cfg.control_plane;
                  wireguard = wg;
                  cnid = load_cnid config_path cfg.cnid;
                })
                disk'
            else failed disk'
      ]
