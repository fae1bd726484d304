-- ===== src/Wgengine/Kernel.antt =====
-- diffIPs, diffRoutes, generateRoutesFromWGConfig (tetraengine/wgengine/util.go), and what
-- reconfigAddresses and reconfigRoutes do with them. An address or a route is compared by the text of
-- its network. A Go map is visited in any order; both results are sorted by the text afterwards.
pub mod Differences
use tetrapod.Base.{
  ℕ, Bool, true, false, not, ◌||◌, ◌&&◌, List, [], ◌∷◌, ◌++◌, map, Option, none, some, ◌==◌,
  if◌then◌else◌, is_yes,
}
use tetrapod.Base.Bytes.{Bytes, Bytes-discrete}
use tetrapod.Base.Order.{sort_slice}
use tetrapod.Pkg.Syncmap.{Map, load, store, delete}
use tetrapod.Wgengine.{PeerConfig, Config}

pub record Route : Type 0 where
  pub dst : Bytes
  pub link_index : ℕ
  pub table : ℕ
  pub scope : ℕ

abbrev pub values : {A : Type 0} → Map Bytes A → List A
values [] = []
values ((k, a) ∷ m) = a ∷ values m

-- What diffIPs and diffRoutes share. The map of what is wanted, by the text: a later one replaces an
-- earlier one.
module _ {A : Type 0} (text : A → Bytes) where
  unfoldable pub desired_map : List A → Map Bytes A → Map Bytes A
  unfolding store
  desired_map [] m = m
  desired_map (d ∷ ds) m = desired_map ds (store Bytes-discrete (text d) d m)

-- `differs` says that a wanted one and a current one with its text are not the same.
module _ {A : Type 0} (text : A → Bytes) (differs : A → A → Bool) where
  -- The loop over `current`: what is left of the map, and what is to be deleted.
  unfoldable pub diff_current : List A → Map Bytes A → Map Bytes A × List A
  unfolding load delete
  diff_current [] m = (m, [])
  diff_current (c ∷ cs) m = elim (load Bytes-discrete (text c) m) [
    | none ↦ let rest = diff_current cs m in (rest.0, c ∷ rest.1)
    | some r ↦ elim (differs r c) [
      | true ↦ let rest = diff_current cs m in (rest.0, c ∷ rest.1)
      | false ↦ diff_current cs (delete Bytes-discrete (text c) m)
    ]
  ]

  -- What is to be added, and what is to be deleted.
  unfoldable pub diff : List A → List A → List A × List A
  unfolding desired_map diff_current sort_slice
  diff desired current =
      let d = diff_current current (desired_map text desired []) in
      (sort_slice text (values d.0), d.1)

-- Addresses with one text are the same.
abbrev pub never : {A : Type 0} → A → A → Bool
never a b = false

unfoldable pub diff_ips : {A : Type 0} → (A → Bytes) → List A → List A → List A × List A
unfolding diff
diff_ips text desired current = diff text never desired current

-- r.LinkIndex != c.LinkIndex
abbrev pub other_link : Route → Route → Bool
other_link r c = not (r.link_index == c.link_index)

unfoldable pub diff_routes : List Route → List Route → List Route × List Route
unfolding diff
diff_routes desired current = diff (λ r. r.dst) other_link desired current

-- The routes of one peer. A new route has the scope 0.
abbrev pub routes_of : ℕ → ℕ → List Bytes → List Route
routes_of link table [] = []
routes_of link table (ip ∷ ips) =
    record { dst = ip; link_index = link; table = table; scope = 0 } ∷ routes_of link table ips

unfoldable pub generate_routes : List PeerConfig → ℕ → ℕ → List Route
generate_routes [] link table = []
generate_routes (p ∷ ps) link table =
    routes_of link table p.allowed_ips ++ generate_routes ps link table

-- The routes that reconfigRoutes never deletes: scope 254, and the multicast prefix, whose text is
-- `multicast`.
abbrev pub is_kept : Bytes → Route → Bool
is_kept multicast d = d.scope == 254 || is_yes (Bytes-discrete d.dst multicast)

-- The kernel calls of a reconfiguration, and whether each succeeded.
pub data Call (A : Type 0) : Type 0 where
  deleting : A → Call A
  adding : A → Call A

abbrev pub delete_all : {A : Type 0} → (A → Bool) → List A → List (Call A)
delete_all skips [] = []
delete_all skips (d ∷ ds) =
    if skips d then delete_all skips ds else deleting d ∷ delete_all skips ds

-- lastErr is an error when a call failed; the calls go on all the same.
abbrev pub all_ok : {A : Type 0} → (Call A → Bool) → List (Call A) → Bool
all_ok ok [] = true
all_ok ok (c ∷ cs) = ok c && all_ok ok cs

-- `current` is none when the kernel does not list them. The calls made, and whether nil is returned.
unfoldable pub reconfig_addresses :
    {A : Type 0} → (A → Bytes) → (Call A → Bool) → List A → Option (List A) → List (Call A) × Bool
unfolding diff_ips
reconfig_addresses text ok addrs none = ([], false)
reconfig_addresses text ok addrs (some current) =
    let d = diff_ips text addrs current in
    let calls = delete_all (λ a. false) d.1 ++ map adding d.0 in (calls, all_ok ok calls)

unfoldable pub reconfig_routes :
    Bytes → (Call Route → Bool) → Config → ℕ → Option (List Route) → List (Call Route) × Bool
unfolding generate_routes diff_routes
reconfig_routes multicast ok config link none = ([], false)
reconfig_routes multicast ok config link (some current) =
    let d = diff_routes (generate_routes config.peers link 0) current in
    let calls = delete_all (is_kept multicast) d.1 ++ map adding d.0 in (calls, all_ok ok calls)
