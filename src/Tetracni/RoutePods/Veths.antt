-- ===== src/Tetracni/RoutePods/Veths.antt =====
-- tetracni/cmd/route-pods/main.go: the pair of links between the host's namespace and the peers', and the
-- commands. netlink in both namespaces is the record Kernel.
use tetrapod.Base.{ℕ, ◌≡◌, ◌≢◌, Bool, true, false, List, [], ◌∷◌, Option, none, some, if◌then◌else◌}
use tetrapod.Base.Bytes.{Bytes}
use tetrapod.Tetrad.Labels.{is_empty}
use tetrapod.Tetracni.ExtraRoutes.{Interface}

-- netlink's Link, with its index.
pub data Link : Type 0 where
  veth bridge other : ℕ → Link

-- LinkByName: a LinkNotFoundError, another error, or the link.
pub data Found : Type 0 where
  not_found failed : Found
  found : Link → Found

-- What else the command calls: LinkSetMaster of the peer veth to a bridge, AddrReplace of the host veth with
-- an address and the length of its prefix, LinkSetUp of either.
pub data Change (Addr : Type 0) : Type 0 where
  set_master : ℕ → ℕ → Change Addr
  addr_replace : ℕ → Addr → ℕ → Change Addr
  host_set_up peer_set_up : ℕ → Change Addr

pub record Kernel (Addr : Type 0) : Type 1 where
  pub State : Type 0
  pub link_by_name : Bytes → State → Found
  pub peer_link_by_name : Bytes → State → Found
  -- LinkAdd of a Veth of two names; LinkSetNsFd of the link of an index, to the peers' namespace.
  pub link_add : Bytes → Bytes → State → Option State
  pub link_set_ns_fd : ℕ → State → Option State
  pub change : Change Addr → State → Option State
  pub link-link_add :
      (host peer : Bytes) (s s' : State)
      → link_add host peer s ≡ some s'
      → (h p : ℕ) × (link_by_name host s' ≡ found (veth h))
        × (link_by_name peer s' ≡ found (veth p))
  pub link-link_set_ns_fd :
      (host peer : Bytes) (link : Link) (i : ℕ) (s s' : State)
      → link_by_name peer s ≡ found (veth i)
      → link_set_ns_fd i s ≡ some s'
      → host ≢ peer
      → (peer_link_by_name peer s' ≡ found (veth i)) × (link_by_name host s' ≡ link_by_name host s)
  pub link-change :
      (c : Change Addr) (name : Bytes) (s s' : State)
      → change c s ≡ some s'
      → (link_by_name name s' ≡ link_by_name name s)
        × (peer_link_by_name name s' ≡ peer_link_by_name name s)

-- What findVeth and updateVeth return: both links, or an error with the host veth where it was found; the
-- flag says that the error is a LinkNotFoundError.
pub data Pair : Type 0 where
  both : ℕ → ℕ → Pair
  host_only : ℕ → Bool → Pair
  neither : Bool → Pair

module _ {Addr : Type 0} (k : Kernel Addr) where
  -- findVeth after the host veth.
  abbrev pub find_peer : ℕ → Found → Pair
  find_peer h not_found = host_only h true
  find_peer h failed = host_only h false
  find_peer h (found (veth p)) = both h p
  find_peer h (found (bridge i)) = host_only h false
  find_peer h (found (other i)) = host_only h false

  abbrev pub find_from : Found → Found → Pair
  find_from not_found peer = neither true
  find_from failed peer = neither false
  find_from (found (veth h)) peer = find_peer h peer
  find_from (found (bridge i)) peer = neither false
  find_from (found (other i)) peer = neither false

  unfoldable pub find_veth : Bytes → Bytes → k.State → Pair
  find_veth host peer s = find_from (k.link_by_name host s) (k.peer_link_by_name peer s)

  -- updateVeth after the peer is not found in its namespace: it may still be in the host's.
  abbrev pub move_peer : ℕ → Found → k.State → Pair × k.State
  move_peer h not_found s = (host_only h true, s)
  move_peer h failed s = (host_only h false, s)
  move_peer h (found (bridge i)) s = (neither false, s)
  move_peer h (found (other i)) s = (neither false, s)
  move_peer h (found (veth p)) s = elim (k.link_set_ns_fd p s) [
    | none ↦ (neither false, s)
    | some s' ↦ (both h p, s')
  ]

  unfoldable pub update_veth : Bytes → Bytes → k.State → Pair × k.State
  unfolding find_veth
  update_veth host peer s = elim (find_veth host peer s) [
    | both h p ↦ (both h p, s)
    | neither absent ↦ (neither absent, s)
    | host_only h absent ↦ move_peer h (k.link_by_name peer s) s
  ]

  -- setupVeth, where updateVeth returned an error.
  unfoldable pub add_veth : Bool → Bytes → Bytes → k.State → Pair × k.State
  unfolding update_veth
  add_veth absent host peer s =
      if absent
      then elim (k.link_add host peer s) [
        | none ↦ (neither false, s)
        | some s' ↦ update_veth host peer s'
      ]
      else (neither false, s)

  unfoldable pub setup_veth : Bytes → Bytes → k.State → Pair × k.State
  unfolding update_veth add_veth
  setup_veth host peer s =
      let updated = update_veth host peer s in
      elim updated.0 [
        | both h p ↦ updated
        | host_only h absent ↦ add_veth absent host peer updated.1
        | neither absent ↦ add_veth absent host peer updated.1
      ]

  -- The loop over the interfaces: the first bridge outside a sandbox; none is an error.
  unfoldable pub find_bridge : List Interface → k.State → Option ℕ
  find_bridge [] s = none
  find_bridge (i ∷ interfaces) s =
      if is_empty i.sandbox
      then elim (k.peer_link_by_name i.name s) [
        | not_found ↦ none
        | failed ↦ none
        | found link ↦ elim link [
          | bridge b ↦ some b
          | veth v ↦ find_bridge interfaces s
          | other o ↦ find_bridge interfaces s
        ]
      ]
      else find_bridge interfaces s

  -- Calls one after another, up to the first error.
  unfoldable pub changes : List (Change Addr) → k.State → k.State × Bool
  changes [] s = (s, true)
  changes (c ∷ cs) s = elim (k.change c s) [ none ↦ (s, false) | some s' ↦ changes cs s' ]
