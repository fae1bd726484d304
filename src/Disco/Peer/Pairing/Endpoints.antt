-- ===== src/Disco/Peer/Pairing/Endpoints.antt =====
-- SetEndpoints as a whole: what is added, what is closed and what stays.
use tetrapod.Base.{
  ℕ, ◌+◌, ◌^◌, ◌≤◌, ◌<◌, ◌≡◌, refl, ◌↔◌, ◌⊎◌, inl, inr, true, ◌||◌, List, [], ◌∷◌, none, some,
  arith, is_some, ℕ_discrete, if◌then◌else◌, ite, length, elem, Bool-cases, Option-cases,
}
use tetrapod.Base.Netip.{AddrPort, AddrPort-discrete}
use tetrapod.Pkg.Syncmap.{load, from_slice, contains}
use tetrapod.Pkg.Syncmap.Laws.{load-store, load-delete, Distinct, contains-from_slice}
use tetrapod.Disco.Endpoint.{Endpoint}
use tetrapod.Disco.Peer.{Peer, drop_endpoint, add_endpoint, add_endpoints, prune_visited}
use tetrapod.Disco.Peer.Pairing.{
  id_of, made, Inv, drop_endpoint-Inv, add_endpoint-Inv, add_endpoint-old, add_endpoint-new,
}

abbrev pub Unused : ℕ → Peer → Type 0
Unused id p = (load ℕ_discrete id p.endpoints ≡ none) × (id ≤ p.endpoint_id_counter)

add_endpoint-count :
    (ep : AddrPort) (id : ℕ) (p : Peer)
    → (add_endpoint ep id p).1.endpoint_id_counter ≤ p.endpoint_id_counter + 1
add_endpoint-count ep id p = elim (Option-cases (id_of p ep)) [
  | inr (old, e) ↦ rw (add_endpoint-old ep id p e) (omega arith)
  | inl e ↦ rw (add_endpoint-new ep id p e) (omega arith)
]

add_endpoint-keeps :
    (ep : AddrPort) (id i : ℕ) (pe : Endpoint) (p : Peer)
    → Unused id p
    → load ℕ_discrete i p.endpoints ≡ some pe
    → load ℕ_discrete i (add_endpoint ep id p).1.endpoints ≡ some pe
add_endpoint-keeps ep id i pe p u h = elim (Option-cases (id_of p ep)) [
  | inr (old, e) ↦ rw (add_endpoint-old ep id p e) h
  | inl e ↦
      rw (add_endpoint-new ep id p e)
        (ground (arith, load-store ℕ_discrete i id (made ep id p) p.endpoints))
]

-- The loop keeps the invariant, and the endpoints that there were.
pub add_endpoints-Inv :
    (eps : List AddrPort) (id : ℕ) (p : Peer)
    → Inv p
    → Unused id p
    → p.endpoint_id_counter + length eps < 2 ^ 32
    → Inv (add_endpoints eps id p)
      × ((i : ℕ) (pe : Endpoint)
          → load ℕ_discrete i p.endpoints ≡ some pe
          → load ℕ_discrete i (add_endpoints eps id p).endpoints ≡ some pe)
unfolding add_endpoints
add_endpoints-Inv [] id p v u room = (v, λ i pe h. h)
add_endpoints-Inv (ep ∷ eps) id p v u room =
    let (v', none', low') = add_endpoint-Inv ep id p v u.0 u.1 (omega arith) in
    let (v'', keeps) =
      add_endpoints-Inv eps (add_endpoint ep id p).0 (add_endpoint ep id p).1 v' (none', low')
        (omega (arith, add_endpoint-count ep id p)) in
    (v'', λ i pe h. keeps i pe (add_endpoint-keeps ep id i pe p u h))

-- The loop gives every listed address an id, and no other address that had none.
id_of-add_endpoint :
    (a ep : AddrPort) (id : ℕ) (p : Peer)
    → is_some (id_of (add_endpoint ep id p).1 a)
      ≡ (elem AddrPort-discrete a (ep ∷ []) || is_some (id_of p a))
id_of-add_endpoint a ep id p = elim (Option-cases (id_of p ep)) [
  | inr (old, e) ↦ rw (add_endpoint-old ep id p e) (ground arith)
  | inl e ↦
      rw (add_endpoint-new ep id p e)
        (ground (arith, load-store AddrPort-discrete a ep id p.endpoint_to_endpoint_id))
]

pub id_of-add_endpoints :
    (a : AddrPort) (eps : List AddrPort) (id : ℕ) (p : Peer)
    → is_some (id_of (add_endpoints eps id p) a)
      ≡ (elem AddrPort-discrete a eps || is_some (id_of p a))
unfolding add_endpoints
id_of-add_endpoints a [] id p = refl
id_of-add_endpoints a (ep ∷ eps) id p = ground (
  arith,
  id_of-add_endpoints a eps (add_endpoint ep id p).0 (add_endpoint ep id p).1,
  id_of-add_endpoint a ep id p,
)

-- Every entry that is still to be visited is in the map.
abbrev pub Visits : List (ℕ × Endpoint) → Peer → Type 0
Visits es p =
    (i : ℕ) (pe : Endpoint)
    → load ℕ_discrete i es ≡ some pe
    → load ℕ_discrete i p.endpoints ≡ some pe

-- What one visit of the closing Range does.
abbrev visit : List AddrPort → ℕ → Endpoint → Peer → Peer
visit eps key value p =
    if contains AddrPort-discrete value.endpoint (from_slice AddrPort-discrete eps)
    then p
    else drop_endpoint key value.endpoint p

module _ (eps : List AddrPort) where
  abbrev pub IsListed : Endpoint → Type 0
  IsListed pe = elem AddrPort-discrete pe.endpoint eps ≡ true

  visit-endpoints :
      (key i : ℕ) (value : Endpoint) (p : Peer)
      → load ℕ_discrete i (visit eps key value p).endpoints ≡ (
          if elem AddrPort-discrete value.endpoint eps
          then load ℕ_discrete i p.endpoints
          else ite (ℕ_discrete key i) none (load ℕ_discrete i p.endpoints))
  unfolding drop_endpoint
  visit-endpoints key i value p = ground (
    arith,
    contains-from_slice AddrPort-discrete value.endpoint eps,
    load-delete ℕ_discrete i key p.endpoints,
  )

  visit-Inv :
      (key : ℕ) (value : Endpoint) (p : Peer)
      → Inv p
      → load ℕ_discrete key p.endpoints ≡ some value
      → Inv (visit eps key value p)
  visit-Inv key value p v h =
      elim (Bool-cases
        (contains AddrPort-discrete value.endpoint (from_slice AddrPort-discrete eps))) [
          | inl c ↦ rw c v
          | inr c ↦ rw c (drop_endpoint-Inv key value.endpoint p (rw h refl) v)
        ]

  -- After the Range only listed endpoints are left, all listed ones are, and the maps still agree.
  pub prune_visited-Inv :
      (es : List (ℕ × Endpoint)) (p : Peer)
      → Distinct ℕ_discrete es
      → Visits es p
      → Inv p
      → ((i : ℕ) (pe : Endpoint)
          → load ℕ_discrete i p.endpoints ≡ some pe
          → IsListed pe ⊎ (load ℕ_discrete i es ≡ some pe))
      → let p' = prune_visited eps es p in
        Inv p'
        × ((i : ℕ) (pe : Endpoint)
            → (load ℕ_discrete i p'.endpoints ≡ some pe)
              ↔ ((load ℕ_discrete i p.endpoints ≡ some pe) × IsListed pe))
  unfolding prune_visited load
  prune_visited-Inv [] p d vis v left =
      (v, λ i pe. (λ h. (h, ground (arith, left i pe h)), λ h. h.0))
  prune_visited-Inv ((key, value) ∷ es) p d vis v left =
      let here : load ℕ_discrete key p.endpoints ≡ some value = vis key value (ground arith) in
      let (v', same) =
        prune_visited-Inv es (visit eps key value p) d.1
          (λ i pe h. ground (arith, vis i pe, visit-endpoints key i value p, d.0))
          (visit-Inv key value p v here)
          (λ i pe h. ground (arith, left i pe, visit-endpoints key i value p)) in
      (v', λ i pe. ground (arith, same i pe, visit-endpoints key i value p, here))
