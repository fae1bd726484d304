-- ===== src/Wgengine/Whole/Exact.antt =====
-- What the device has after a reconfiguration.
use tetrapod.Base.{
  ℕ, Bool, true, ◌≡◌, refl, List, [], ◌∷◌, ◌++◌, map, some, arith, Option-cases, inl, inr,
}
use tetrapod.Base.Bytes.{Bytes, Bytes-discrete}
use tetrapod.Pkg.Syncmap.{Map, load, store, delete}
use tetrapod.Wgengine.{PeerConfig, Config}
use tetrapod.Wgengine.Peers.{Engine}
use tetrapod.Wgengine.Whole.{Device, reconfig}
use tetrapod.Wgengine.Kernel.{
  desired_map, diff_current, diff, diff_ips, never, diff_routes, other_link, Route, routes_of,
  generate_routes, is_kept, Call, adding, delete_all, all_ok, reconfig_addresses, reconfig_routes,
}
use tetrapod.Wgengine.Kernel.Differences.{holds, DistinctTexts, diff_ips_exact}
use tetrapod.Wgengine.Whole.Allowed.{is_allowed, holds-generate_routes}
use tetrapod.Wgengine.Whole.Calls.{
  after, after-append, after-adding, unkept, after-delete_all, diff_current-unkept,
  reconfig_addresses-after,
}

-- Every entry, every route, is of the link.
abbrev LinkedMap : ℕ → Map Bytes Route → Type 0
LinkedMap i [] = Unit
LinkedMap i ((k, r) ∷ m) = (r.link_index ≡ i) × LinkedMap i m

abbrev pub Linked : ℕ → List Route → Type 0
Linked i [] = Unit
Linked i (r ∷ rs) = (r.link_index ≡ i) × Linked i rs

store-LinkedMap :
    (i : ℕ) (k : Bytes) (r : Route) (m : Map Bytes Route)
    → r.link_index ≡ i
    → LinkedMap i m
    → LinkedMap i (store Bytes-discrete k r m)
unfolding store
store-LinkedMap i k r [] e h = (e, tt)
store-LinkedMap i k r ((j, q) ∷ m) e h = ground (arith, store-LinkedMap i k r m e h.1)

delete-LinkedMap :
    (i : ℕ) (k : Bytes) (m : Map Bytes Route)
    → LinkedMap i m
    → LinkedMap i (delete Bytes-discrete k m)
unfolding delete
delete-LinkedMap i k [] h = tt
delete-LinkedMap i k ((j, q) ∷ m) h = ground (arith, delete-LinkedMap i k m h.1)

load-LinkedMap :
    (i : ℕ) (k : Bytes) (r : Route) (m : Map Bytes Route)
    → LinkedMap i m
    → load Bytes-discrete k m ≡ some r
    → r.link_index ≡ i
unfolding load
load-LinkedMap i k r [] h e = absurd (cc)
load-LinkedMap i k r ((j, q) ∷ m) h e = ground (arith, load-LinkedMap i k r m h.1)

desired_map-LinkedMap :
    (i : ℕ) (ds : List Route) (m : Map Bytes Route)
    → Linked i ds
    → LinkedMap i m
    → LinkedMap i (desired_map (λ r. r.dst) ds m)
unfolding desired_map
desired_map-LinkedMap i [] m l h = h
desired_map-LinkedMap i (d ∷ ds) m l h =
    desired_map-LinkedMap i ds (store Bytes-discrete d.dst d m) l.1
      (store-LinkedMap i d.dst d m l.0 h)

-- Routes of one link differ in nothing but their texts.
diff_current-never :
    (i : ℕ) (cs : List Route) (m : Map Bytes Route)
    → Linked i cs
    → LinkedMap i m
    → diff_current (λ r. r.dst) other_link cs m ≡ diff_current (λ r. r.dst) never cs m
unfolding diff_current
diff_current-never i [] m l h = refl
diff_current-never i (c ∷ cs) m l h = elim (Option-cases (load Bytes-discrete c.dst m)) [
  | inl e ↦ ground (arith, diff_current-never i cs m l.1 h)
  | inr (r, e) ↦ ground (
    arith,
    load-LinkedMap i c.dst r m h e,
    diff_current-never i cs (delete Bytes-discrete c.dst m) l.1 (delete-LinkedMap i c.dst m h),
  )
]

diff_routes-Linked :
    (i : ℕ) (desired current : List Route)
    → Linked i desired
    → Linked i current
    → diff_routes desired current ≡ diff_ips (λ r. r.dst) desired current
unfolding diff_routes diff_ips diff
diff_routes-Linked i desired current d c = ground (
  arith,
  diff_current-never i current (desired_map (λ r. r.dst) desired []) c
      (desired_map-LinkedMap i desired [] d tt),
)

Linked-append : (i : ℕ) (xs ys : List Route) → Linked i xs → Linked i ys → Linked i (xs ++ ys)
Linked-append i [] ys a b = b
Linked-append i (x ∷ xs) ys a b = (a.0, Linked-append i xs ys a.1 b)

routes_of-Linked : (i table : ℕ) (ips : List Bytes) → Linked i (routes_of i table ips)
routes_of-Linked i table [] = tt
routes_of-Linked i table (ip ∷ ips) = (refl, routes_of-Linked i table ips)

generate_routes-Linked :
    (i table : ℕ) (ps : List PeerConfig) → Linked i (generate_routes ps i table)
unfolding generate_routes
generate_routes-Linked i table [] = tt
generate_routes-Linked i table (p ∷ ps) =
    Linked-append i (routes_of i table p.allowed_ips) (generate_routes ps i table)
      (routes_of-Linked i table p.allowed_ips) (generate_routes-Linked i table ps)

-- The calls for the routes leave exactly the texts that are wanted, where no route of the text is kept.
reconfig_routes-after :
    (t multicast : Bytes) (ok : Call Route → Bool) (config : Config) (i : ℕ) (current : List Route)
    → DistinctTexts (λ r. r.dst) current
    → Linked i current
    → unkept (λ r. r.dst) (is_kept multicast) t current ≡ true
    → after
        (λ r. r.dst)
        t
        (reconfig_routes multicast ok config i (some current)).0
        (holds (λ r. r.dst) t current)
      ≡ is_allowed t config.peers
unfolding reconfig_routes diff_ips diff
reconfig_routes-after t multicast ok config i current d l k =
    let wanted = generate_routes config.peers i 0 in
    let df = diff_ips (λ r. r.dst) wanted current in
    let was = holds (λ r. r.dst) t current in
    let deleted = delete_all (is_kept multicast) df.1 in
    ground (
      arith,
      diff_routes-Linked i wanted current (generate_routes-Linked i 0 config.peers) l,
      after-append (λ r. r.dst) t deleted (map adding df.0) was,
      after-adding (λ r. r.dst) t df.0 (after (λ r. r.dst) t deleted was),
      after-delete_all (λ r. r.dst) t (is_kept multicast) df.1 was
          (diff_current-unkept (λ r. r.dst) (is_kept multicast) t current
            (desired_map (λ r. r.dst) wanted []) k),
      diff_ips_exact (λ r. r.dst) t wanted current d,
      holds-generate_routes t i 0 config.peers,
    )

-- When a reconfiguration returns no error, where no two addresses and no two routes that the kernel listed had one
-- text, and the routes were of the device's link: every call for an address and for a route was
-- accepted; after the calls an address's text is there exactly when it is wanted; and a route's text,
-- unless a listed route of it is one that is never deleted, is there exactly when some peer of the
-- configuration has it among its allowed networks.
pub reconfig_exact :
    {A : Type 0} (key_string : Bytes → Bytes) (text : A → Bytes) (multicast : Bytes) (d : Device A)
    (config : Config) (addrs : List A) (e : Engine) (current : List A) (listed : List Route)
    (t u : Bytes)
    → let o = reconfig key_string text multicast d config addrs e in
      d.addresses ≡ some current
      → d.routes ≡ some listed
      → DistinctTexts text current
      → DistinctTexts (λ r. r.dst) listed
      → Linked d.link_index listed
      → unkept (λ r. r.dst) (is_kept multicast) u listed ≡ true
      → o.ok ≡ true
      → (all_ok d.address_ok o.address_calls ≡ true)
        × (all_ok d.route_ok o.route_calls ≡ true)
        × (after text t o.address_calls (holds text t current) ≡ holds text t addrs)
        × (after (λ r. r.dst) u o.route_calls (holds (λ r. r.dst) u listed)
            ≡ is_allowed u config.peers)
unfolding reconfig reconfig_addresses reconfig_routes
reconfig_exact key_string text multicast d config addrs e current listed t u a r da dr l k h =
    ground (
      arith,
      reconfig_addresses-after text t d.address_ok addrs current da,
      reconfig_routes-after u multicast d.route_ok config d.link_index listed dr l k,
    )
