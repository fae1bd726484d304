-- ===== src/Examples/Cni.antt =====
-- The plugin for pods' addresses, with addresses of one byte.
use tetrapod.Base.{
  ℕ, suc, ◌+◌, ◌-◌, ◌≤◌, ◌<◌, ◌≡◌, ◌≢◌, refl, false, List, [], ◌∷◌, Option, none, some, arith, min,
  inl, inr,
}
use tetrapod.Base.Bytes.{Bytes, Bytes-discrete}
use tetrapod.Tetrad.Api.{Object}
use tetrapod.Tetrad.Labels.{Labels}
use tetrapod.Examples.Cluster.{empty_object}
use tetrapod.Tetracni.PodIpam
use tetrapod.Tetracni.PodIpam.Ranges.{offered, usable, is_reserving, prepare_config_offers}
use tetrapod.Tetracni.RoutePods.Commands.{host_address}
use tetrapod.Tetracni.RoutePods.Reserved.{host_address_reserved}

-- Networks and addresses of one byte: a network is its two ends, and its text is them.
abbrev low : ℕ × ℕ → ℕ
low a = min a.0 255

pub low_max : (a : ℕ × ℕ) → low a ≤ 255
low_max a = omega arith

pub low-next : (a : ℕ × ℕ) → low a < 255 → low (suc a.0, a.1) ≡ 1 + low a
low-next a h = omega (arith, h)

pub low-previous : (a : ℕ × ℕ) → low a ≢ 0 → low a ≡ 1 + low (low a - 1, a.1)
low-previous a n = ground arith

abbrev two_bytes : Bytes → Option (ℕ × ℕ)
two_bytes [] = none
two_bytes (a ∷ []) = none
two_bytes (a ∷ b ∷ cs) = some (a, b)

abbrev pub one_byte : PodIpam.Ipaddr
one_byte = record {
  Net = ℕ × ℕ;
  Addr = ℕ × ℕ;
  parse_cidr = two_bytes;
  new_ip_address_from_net = λ n. n;
  get_lower = λ a. (a.0, a.0);
  get_upper = λ a. (a.1, a.1);
  next = λ a. (suc a.0, a.1);
  previous = λ a. (low a - 1, a.1);
  value = low;
  max = 255;
  value_max = low_max;
  value-next = low-next;
  value-previous = low-previous;
}

abbrev last : Bytes
last = 108 ∷ []

abbrev ipam_constants : PodIpam.Constants
ipam_constants = record {
  default_socket_path = 47 ∷ [];
  host_local = 104 ∷ [];
  reserve_address_last = last;
  reserve_address_off = 111 ∷ [];
}

abbrev empty_ipam : PodIpam.Ipam
empty_ipam = record { socket_path = []; ipam_plugin = []; reserve_address = [] }

abbrev at_net : ℕ → ℕ → Object Labels
at_net a b =
    let o = empty_object (a ∷ []) in
    let st = record o.claim.status { cidr = a ∷ b ∷ [] } in
    record o { claim = record o.claim { status = st } }

abbrev node_claims : List (Object Labels)
node_claims = at_net 16 31 ∷ at_net 64 127 ∷ []

abbrev loaded_ipam : PodIpam.Ipam
loaded_ipam = record { socket_path = 47 ∷ []; ipam_plugin = 104 ∷ []; reserve_address = last }

abbrev pod_ranges : List (List (PodIpam.Range (ℕ × ℕ) (ℕ × ℕ)))
pod_ranges =
    (record { subnet = (16, 31); range_start = (17, 16); range_end = (29, 31) } ∷ [])
    ∷ (record { subnet = (64, 127); range_start = (65, 64); range_end = (125, 127) } ∷ [])
    ∷ []

prepared_claims :
    PodIpam.prepare_config one_byte ipam_constants empty_ipam (some node_claims) []
    ≡ some (loaded_ipam, pod_ranges)
unfolding PodIpam.prepare_config Bytes-discrete
prepared_claims = refl

prepare_config_offers_example :
    offered one_byte 29 pod_ranges
    ≡ usable one_byte (is_reserving ipam_constants empty_ipam) 29 node_claims
prepare_config_offers_example =
    prepare_config_offers one_byte ipam_constants empty_ipam loaded_ipam node_claims 29 pod_ranges
      (omega arith, (omega arith, tt)) prepared_claims

host_address_reserved_example :
    offered one_byte (low (host_address one_byte (16, 31))) pod_ranges ≡ false
host_address_reserved_example =
    host_address_reserved one_byte ipam_constants empty_ipam loaded_ipam node_claims (16, 31)
      pod_ranges refl (omega arith) (omega arith, (omega arith, tt))
      (inl refl, (inr (inr (omega arith)), tt)) prepared_claims
