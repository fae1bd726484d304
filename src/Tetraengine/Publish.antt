-- ===== src/Tetraengine/Publish.antt =====
-- notify of tetraengine/tetraengine.go: what a node tells the other nodes of itself. Texts of addresses are the
-- standard library's.
pub mod Reached
use tetrapod.Base.{ℕ, Bool, true, false, List, [], ◌∷◌, Option, none, some, map, if◌then◌else◌}
use tetrapod.Base.Bytes.{Bytes, Bytes-discrete}
use tetrapod.Base.Netip.{Addr, AddrPort, unmap, is6}
use tetrapod.Pkg.Syncmap.{from_slice, contains}
use tetrapod.Tetraengine.{EnginePeer, EngineConfig, LinkAddr}

-- The String methods of netlink.Addr, net.IP, netip.Addr, netip.AddrPort and netip.Prefix.
pub record Printed : Type 0 where
  pub link : LinkAddr → Bytes
  pub ip : Addr → Bytes
  pub addr : Addr → Bytes
  pub addr_port : AddrPort → Bytes
  pub prefix : Addr × ℕ → Bytes

-- toAddrPrefix
unfoldable pub to_addr_prefix : Addr → Addr × ℕ
unfolding unmap
to_addr_prefix a = let addr = unmap a in (addr, if is6 addr then 128 else 32)

module _ (printed : Printed) where
  -- addressSets
  abbrev pub ips_of : List LinkAddr → List Bytes
  ips_of [] = []
  ips_of (a ∷ addrs) = printed.ip a.ip ∷ ips_of addrs

  -- The loop over the endpoints.
  unfoldable pub published : List Bytes → List AddrPort → List Bytes
  unfolding from_slice contains Bytes-discrete
  published own [] = []
  published own (e ∷ eps) =
      elim (contains Bytes-discrete (printed.addr e.addr) (from_slice Bytes-discrete own)) [
        | true ↦ published own eps
        | false ↦ printed.addr_port e ∷ published own eps
      ]

  -- What notify calls the callback with; none where it is not called. `public_key` is the text of the public key
  -- of a private key that ParseKey reads, and `public_disco_key` that of the disco key; the endpoints are
  -- empty until they are collected.
  unfoldable pub notify :
      (Bytes → Option Bytes) → Bytes → Bool → List AddrPort → EngineConfig → Option EnginePeer
  unfolding published to_addr_prefix
  notify public_key public_disco_key has_callback endpoints cfg =
      elim (public_key cfg.private_key) [
        | none ↦ none
        | some key ↦
            if has_callback
            then some (record {
              endpoints = published (ips_of cfg.addresses) endpoints;
              public_key = key;
              public_disco_key = public_disco_key;
              addresses = map printed.link cfg.addresses;
              allowed_ips = map (λ a. printed.prefix (to_addr_prefix a.ip)) cfg.addresses;
            })
            else none
      ]
