-- ===== src/Base/Netip.antt =====
-- The values of Go's net/netip that the program stores and compares: addresses without their zones,
-- and address-port pairs. The zero Addr is `invalid`; an IPv6 address is its 128-bit number.
use Prim.Native.Nat.{ℕ, ◌/◌, ◌%◌, ◌^◌}
use mathlib.Core.Bool.{Bool, true, false}
use native.Mathlib.Decide.{ℕ_discrete}
use tetrapod.Base.Tests.{◌==◌, if◌then◌else◌}

pub data Addr : Type 0 where
  invalid : Addr
  ip4 : ℕ → Addr
  ip6 : ℕ → Addr

pub record AddrPort : Type 0 where
  pub addr : Addr
  pub port : ℕ

unfoldable pub Addr-discrete : Discrete Addr
unfolding ℕ_discrete
Addr-discrete = hlevel ℕ_discrete

unfoldable pub AddrPort-discrete : Discrete AddrPort
unfolding Addr-discrete ℕ_discrete
AddrPort-discrete = hlevel (Addr-discrete, ℕ_discrete)

-- An IPv4-mapped IPv6 address, ::ffff:a.b.c.d, becomes the IPv4 address; any other stays.
unfoldable pub unmap : Addr → Addr
unmap (ip6 n) = if n / 2 ^ 32 == 0xffff then ip4 (n % 2 ^ 32) else ip6 n
unmap a = a

abbrev pub is4 : Addr → Bool
is4 (ip4 n) = true
is4 _ = false

abbrev pub is6 : Addr → Bool
is6 (ip6 n) = true
is6 _ = false

abbrev pub is_valid : Addr → Bool
is_valid invalid = false
is_valid _ = true
