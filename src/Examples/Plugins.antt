-- ===== src/Examples/Plugins.antt =====
-- The CNI plugins on a kernel with one veth and one VRF.
use tetrapod.Base.{
  ℕ, zero, suc, ◌≡◌, refl, sym, true, List, [], ◌∷◌, Option, none, some, In, inl, inr,
}
use tetrapod.Base.Bytes.{Bytes, Bytes-discrete}
use tetrapod.Pkg.Syncmap.{from_slice, contains, add_all, store, load}
use tetrapod.Tetrad.Labels.{Labels}
use tetrapod.Tetrad.Api.{Object}
use tetrapod.Tetracni.ExtraRoutes.{
  Kernel, Link, veth, vrf, Interface, vrf_table, cmd_add, cmd_check,
}
use tetrapod.Tetracni.ExtraRoutes.Checked.{cmd_check-cmd_add}
use tetrapod.Examples.Cluster.{empty_object}

abbrev toy_link : Bytes → List Bytes → Option Link
toy_link [] s = none
toy_link (zero ∷ n) s = some (veth 3)
toy_link (suc c ∷ n) s = some (vrf 7)

toy_routes :
    (dst : Bytes) (s s' listed : List Bytes)
    → some (dst ∷ s) ≡ some s'
    → some s ≡ some listed
    → (now : List Bytes) × (some s' ≡ some now)
      × In dst now
      × ((d : Bytes) → In d listed → In d now)
toy_routes dst s s' listed e h =
    let same : (dst ∷ s) ≡ s' = cc in
    let old : s ≡ listed = cc in
    (s', refl, rw (sym same) (inl refl), λ d i. rw (sym same) (rw old (inr i)))

abbrev toy_kernel : Kernel
toy_kernel = record {
  State = List Bytes;
  link_by_name = toy_link;
  routes = λ table s. some s;
  route_add = λ dst index table s. some (dst ∷ s);
  routes-route_add = λ dst index table s s' listed e h. toy_routes dst s s' listed e h;
  link-route_add = λ dst index table s s' name e. same_link s s' name;
}
  where
    same_link : (s s' : List Bytes) (name : Bytes) → toy_link name s' ≡ toy_link name s
    same_link s s' [] = refl
    same_link s s' (zero ∷ n) = refl
    same_link s s' (suc c ∷ n) = refl

abbrev toy_parse : Bytes → Option Bytes
toy_parse t = some t

abbrev interfaces : List Interface
interfaces = record { name = 0 ∷ []; sandbox = [] } ∷ []

abbrev claims : Option (List (Object Labels))
claims =
    let o = empty_object (4 ∷ []) in
    let st = record o.claim.status { cidr = 21 ∷ [] } in
    some (record o { claim = record o.claim { status = st } } ∷ o ∷ [])

abbrev before : List Bytes
before = (20 ∷ []) ∷ []

abbrev vrf_name : Bytes
vrf_name = 1 ∷ []

one_route_added :
    cmd_add toy_kernel toy_parse vrf_name interfaces claims before ≡ ((21 ∷ []) ∷ before, true)
unfolding cmd_add from_slice contains add_all store load Bytes-discrete
one_route_added = refl

cmd_check-cmd_add_example :
    let r = cmd_add toy_kernel toy_parse vrf_name interfaces claims before in
    (r.1 ≡ true → cmd_check toy_kernel toy_parse vrf_name interfaces claims r.0 ≡ true)
    × ((table : ℕ) (listed : List Bytes)
        → vrf_table toy_kernel vrf_name before ≡ some table
        → some before ≡ some listed
        → (now : List Bytes) × (some r.0 ≡ some now) × ((d : Bytes) → In d listed → In d now))
cmd_check-cmd_add_example = cmd_check-cmd_add toy_kernel toy_parse vrf_name interfaces claims before
