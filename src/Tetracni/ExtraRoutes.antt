-- ===== src/Tetracni/ExtraRoutes.antt =====
-- tetracni/cmd/tetra-extra-routes: routes in a pod's VRF for the claims of its annotation. The kernel's
-- links and routes are the record Kernel; a network is its text.
pub mod Lookup
pub mod Checked
use tetrapod.Base.{
  ℕ, ◌≡◌, Bool, true, false, List, [], ◌∷◌, Option, none, some, if◌then◌else◌, is_yes, In,
}
use tetrapod.Base.Bytes.{Bytes, Bytes-discrete}
use tetrapod.Pkg.Syncmap.{from_slice, contains}
use tetrapod.Tetrad.Labels.{is_empty}
use tetrapod.Tetrad.Api.{Object}

-- netlink's Link.
pub data Link : Type 0 where
  veth : ℕ → Link
  vrf : ℕ → Link
  other : Link

pub record Kernel : Type 1 where
  pub State : Type 0
  -- LinkByName; none is an error.
  pub link_by_name : Bytes → State → Option Link
  -- RouteListFiltered on a table: the texts of the destinations.
  pub routes : ℕ → State → Option (List Bytes)
  -- RouteAdd of a destination to a link in a table.
  pub route_add : Bytes → ℕ → ℕ → State → Option State
  -- A route that was added is listed with those from before, and the links are as they were.
  pub routes-route_add :
      (dst : Bytes) (index table : ℕ) (s s' : State) (listed : List Bytes)
      → route_add dst index table s ≡ some s'
      → routes table s ≡ some listed
      → (now : List Bytes) × (routes table s' ≡ some now)
        × In dst now
        × ((d : Bytes) → In d listed → In d now)
  pub link-route_add :
      (dst : Bytes) (index table : ℕ) (s s' : State) (name : Bytes)
      → route_add dst index table s ≡ some s'
      → link_by_name name s' ≡ link_by_name name s

-- An interface of the result of the plugin before: its name and its sandbox.
pub record Interface : Type 0 where
  pub name : Bytes
  pub sandbox : Bytes

-- loadExtraRoutes, from the claims that the server returns.
unfoldable pub extra_routes : {Selector : Type 0} → List (Object Selector) → List Bytes
extra_routes [] = []
extra_routes (o ∷ claims) =
    if is_empty o.claim.status.cidr
    then extra_routes claims
    else o.claim.status.cidr ∷ extra_routes claims

module _ (k : Kernel) where
  -- The loop over the interfaces: an error, or the last veth outside a sandbox after the one found so far.
  unfoldable pub find_veth : List Interface → Option ℕ → k.State → Option (Option ℕ)
  find_veth [] found s = some found
  find_veth (i ∷ interfaces) found s =
      if is_empty i.sandbox
      then elim (k.link_by_name i.name s) [
        | none ↦ none
        | some link ↦ elim link [
          | veth index ↦ find_veth interfaces (some index) s
          | vrf table ↦ find_veth interfaces found s
          | other ↦ find_veth interfaces found s
        ]
      ]
      else find_veth interfaces found s

  unfoldable pub vrf_table : Bytes → k.State → Option ℕ
  vrf_table name s = if is_empty name then some 0 else elim (k.link_by_name name s) [
    | none ↦ none
    | some link ↦ elim link [ veth index ↦ none | vrf table ↦ some table | other ↦ none ]
  ]

  -- What both commands look up: the veth, the table, and the routes of the table.
  unfoldable pub prepared : Bytes → List Interface → k.State → Option (ℕ × ℕ × List Bytes)
  unfolding find_veth vrf_table
  prepared vrf_name interfaces s = elim (find_veth interfaces none s) [
    | none ↦ none
    | some found ↦ elim found [
      | none ↦ none
      | some index ↦ elim (vrf_table vrf_name s) [
        | none ↦ none
        | some table ↦ elim (k.routes table s) [
          | none ↦ none
          | some listed ↦ some (index, table, listed)
        ]
      ]
    ]
  ]

module _ (k : Kernel) (parse_cidr : Bytes → Option Bytes) where
  -- The loop of cmdAdd over the extra routes, with the routes that were there: the kernel then, and whether there
  -- was no error.
  unfoldable pub add_routes : List Bytes → ℕ → ℕ → List Bytes → k.State → k.State × Bool
  unfolding from_slice contains Bytes-discrete
  add_routes listed index table [] s = (s, true)
  add_routes listed index table (r ∷ rs) s = elim (parse_cidr r) [
    | none ↦ (s, false)
    | some cidr ↦ elim (contains Bytes-discrete cidr (from_slice Bytes-discrete listed)) [
      | true ↦ add_routes listed index table rs s
      | false ↦ elim (k.route_add cidr index table s) [
        | none ↦ (s, false)
        | some s' ↦ add_routes listed index table rs s'
      ]
    ]
  ]

  -- The loop of cmdCheck.
  unfoldable pub check_routes : List Bytes → List Bytes → Bool
  unfolding from_slice contains Bytes-discrete
  check_routes listed [] = true
  check_routes listed (r ∷ rs) = elim (parse_cidr r) [
    | none ↦ false
    | some cidr ↦ elim (contains Bytes-discrete cidr (from_slice Bytes-discrete listed)) [
      | true ↦ check_routes listed rs
      | false ↦ false
    ]
  ]

  -- cmdAdd; `claims` is none where the call of the server fails.
  unfoldable pub cmd_add :
      {Selector : Type 0}
      → Bytes
      → List Interface
      → Option (List (Object Selector))
      → k.State
      → k.State × Bool
  unfolding prepared add_routes extra_routes
  cmd_add vrf_name interfaces none s = (s, false)
  cmd_add vrf_name interfaces (some claims) s = elim (prepared k vrf_name interfaces s) [
    | none ↦ (s, false)
    | some (index, table, listed) ↦ add_routes listed index table (extra_routes claims) s
  ]

  unfoldable pub cmd_check :
      {Selector : Type 0}
      → Bytes
      → List Interface
      → Option (List (Object Selector))
      → k.State
      → Bool
  unfolding prepared check_routes extra_routes
  cmd_check vrf_name interfaces none s = false
  cmd_check vrf_name interfaces (some claims) s = elim (prepared k vrf_name interfaces s) [
    | none ↦ false
    | some (index, table, listed) ↦ check_routes listed (extra_routes claims)
  ]
