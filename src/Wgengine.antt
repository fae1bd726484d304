-- ===== src/Wgengine.antt =====
-- tetraengine/wgengine: what is told to WireGuard and the kernel, as differences from what they have. A
-- wgtypes.PeerConfig or Config is a record of the fields that the program sets or compares; a pointer
-- that may be nil is an Option. Endpoints and networks stand for their String() texts.
pub mod Peers
pub mod Kernel
pub mod Device
pub mod Whole
use tetrapod.Base.{ℕ, Bool, List, Option}
use tetrapod.Base.Bytes.{Bytes}

pub record PeerConfig : Type 0 where
  pub public_key : Bytes
  pub remove : Bool
  pub preshared_key : Option Bytes
  pub endpoint : Option Bytes
  pub persistent_keepalive_interval : Option ℕ
  pub replace_allowed_ips : Bool
  pub allowed_ips : List Bytes

pub record Config : Type 0 where
  pub private_key : Option Bytes
  pub listen_port : Option ℕ
  pub firewall_mark : Option ℕ
  pub replace_peers : Bool
  pub peers : List PeerConfig
