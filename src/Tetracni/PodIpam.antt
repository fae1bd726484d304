-- ===== src/Tetracni/PodIpam.antt =====
-- tetracni/cmd/tetra-pod-ipam: the ranges of a pod's addresses, from the claims of its node. The library
-- ipaddress-go is the record Ipaddr; decoding JSON, and the plugin that is executed, are arguments.
pub mod Ranges
use tetrapod.Base.{
  ℕ, ◌+◌, ◌≤◌, ◌<◌, ◌≡◌, ◌≢◌, Bool, true, false, ◌||◌, List, [], ◌∷◌, ◌++◌, Option, none, some,
  if◌then◌else◌, is_yes,
}
use tetrapod.Base.Bytes.{Bytes, Bytes-discrete}
use tetrapod.Tetrad.Labels.{is_empty}
use tetrapod.Tetrad.Api.{Object}

-- What the program calls of ipaddress-go. `value` is an address as a number, `max` the last of its family.
-- Increment past either end gives nil; nothing is said of it.
pub record Ipaddr : Type 1 where
  pub Net : Type 0
  pub Addr : Type 0
  pub parse_cidr : Bytes → Option Net
  pub new_ip_address_from_net : Net → Addr
  pub get_lower : Addr → Addr
  pub get_upper : Addr → Addr
  pub next : Addr → Addr
  pub previous : Addr → Addr
  pub value : Addr → ℕ
  pub max : ℕ
  pub value_max : (a : Addr) → value a ≤ max
  pub value-next : (a : Addr) → value a < max → value (next a) ≡ 1 + value a
  pub value-previous : (a : Addr) → value a ≢ 0 → value a ≡ 1 + value (previous a)

-- IPAM, the part of the configuration that is this plugin's own.
pub record Ipam : Type 0 where
  pub socket_path : Bytes
  pub ipam_plugin : Bytes
  pub reserve_address : Bytes

-- The program's string constants: cniserver.DefaultSocketPath, "host-local", "last" and "off".
pub record Constants : Type 0 where
  pub default_socket_path : Bytes
  pub host_local : Bytes
  pub reserve_address_last : Bytes
  pub reserve_address_off : Bytes

abbrev pub or_default : Bytes → Bytes → Bytes
or_default default text = if is_empty text then default else text

-- LoadConfig, after JSON is decoded.
unfoldable pub load_config : Constants → Ipam → Option Ipam
unfolding Bytes-discrete
load_config k c =
    let d = record c {
      socket_path = or_default k.default_socket_path c.socket_path;
      ipam_plugin = or_default k.host_local c.ipam_plugin;
    } in
    if is_empty c.reserve_address
    then some (record d { reserve_address = k.reserve_address_last })
    else (if is_yes (Bytes-discrete c.reserve_address k.reserve_address_last)
          || is_yes (Bytes-discrete c.reserve_address k.reserve_address_off)
        then some d
        else none)

-- host-local's allocator.Range.
pub record Range (Net Addr : Type 0) : Type 0 where
  pub subnet : Net
  pub range_start : Addr
  pub range_end : Addr

module _ (ip : Ipaddr) where
  -- The range of one network; `reserves` is the test of config.IPAM.ReserveAddress.
  unfoldable pub range_of : Bool → ip.Net → Range ip.Net ip.Addr
  range_of reserves cidr =
      let addr = ip.new_ip_address_from_net cidr in
      let before = ip.previous (ip.get_upper addr) in
      record {
        subnet = cidr;
        range_start = ip.next (ip.get_lower addr);
        range_end = if reserves then ip.previous before else before;
      }

  -- The loop of MutateConfig; a set of one range for each claim.
  unfoldable pub add_ranges :
      {Selector : Type 0}
      → Bool
      → List (Object Selector)
      → List (List (Range ip.Net ip.Addr))
      → Option (List (List (Range ip.Net ip.Addr)))
  unfolding range_of
  add_ranges reserves [] ranges = some ranges
  add_ranges reserves (c ∷ claims) ranges = elim (ip.parse_cidr c.claim.status.cidr) [
    | none ↦ none
    | some cidr ↦ add_ranges reserves claims (ranges ++ ((range_of reserves cidr ∷ []) ∷ []))
  ]

  -- MutateConfig; `claims` is none where the call of the server fails. The ranges of the RuntimeConfig.
  unfoldable pub mutate_config :
      {Selector : Type 0}
      → Constants
      → Ipam
      → Option (List (Object Selector))
      → List (List (Range ip.Net ip.Addr))
      → Option (List (List (Range ip.Net ip.Addr)))
  unfolding add_ranges Bytes-discrete
  mutate_config k c none ranges = none
  mutate_config k c (some claims) ranges =
      add_ranges (is_yes (Bytes-discrete c.reserve_address k.reserve_address_last)) claims ranges

  -- prepareConfig: what the plugin of the configuration is executed with.
  unfoldable pub prepare_config :
      {Selector : Type 0}
      → Constants
      → Ipam
      → Option (List (Object Selector))
      → List (List (Range ip.Net ip.Addr))
      → Option (Ipam × List (List (Range ip.Net ip.Addr)))
  unfolding load_config mutate_config
  prepare_config k c claims ranges = elim (load_config k c) [
    | none ↦ none
    | some loaded ↦ elim (mutate_config k loaded claims ranges) [
      | none ↦ none
      | some mutated ↦ some (loaded, mutated)
    ]
  ]
