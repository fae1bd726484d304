-- ===== src/Examples/Configs.antt =====
-- A configuration loaded in an environment that sets the switch of the extra claims and the node's name.
use tetrapod.Base.{Bool, true, false, [], ◌∷◌, ◌++◌, Option, none, some, if◌then◌else◌, ◌==◌}
use tetrapod.Base.Bytes.{Bytes}
use tetrapod.Tetrad.Config.{
  Var, cni_enable_extra_claims, Library, KubeConfig, CnidConfig, CniConfig, node_name_var,
}

-- "1" is read as true.
abbrev toy_parse_bool : Bytes → Option Bool
toy_parse_bool (c ∷ []) = if c == 49 then some true else none
toy_parse_bool _ = none

abbrev toy_library : Library
toy_library = record {
  split = λ t. t ∷ [];
  trim_space = λ t. t;
  atoi = λ t. none;
  parse_bool = toy_parse_bool;
  is_cidr = λ t. true;
  is_abs = λ t. false;
  beside = λ path file. path ++ (47 ∷ file);
}

abbrev env : Var → Bytes
env cni_enable_extra_claims = 49 ∷ []
env node_name_var = 110 ∷ []
env _ = []

abbrev no_kube_config : KubeConfig
no_kube_config = record { file = []; has_inline = false; context = [] }

abbrev cnid : CnidConfig
cnid = record {
  address_claim_templates = [];
  extra = true;
  socket_path = [];
  kube_config = no_kube_config;
}

abbrev config : CniConfig
config = record {
  cluster_name = [];
  node_name = [];
  network_namespace = [];
  control_plane = record {
    api_endpoint = [];
    root_ca_cert = [];
    token = [];
    namespace = [];
    kube_config = no_kube_config;
    address_claim_templates = [];
  };
  wireguard = record {
    private_key = [];
    listen_port = 0;
    stun_endpoint = [];
    name = [];
    netns = [];
  };
  cnid = cnid;
  static_advertised_routes = [];
}

abbrev old_key : Bytes
old_key = 5 ∷ []

abbrev new_key : Bytes
new_key = 6 ∷ []

-- A directory that cannot be written: the old key stays.
abbrev unwritten : Bytes → Bytes
unwritten new = old_key
