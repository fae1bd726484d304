-- ===== src/Disco/Peer/Pairing.antt =====
-- SetEndpoints keeps the two maps of a peer inverse to one another and leaves exactly the listed addresses.
pub mod Endpoints
pub mod Exact
use tetrapod.Base.{
  ℕ, suc, ◌+◌, ◌%◌, ◌^◌, ◌≤◌, ◌<◌, ◌≡◌, refl, ◌≢◌, ◌↔◌, ◌⊎◌, inl, inr, Bool, true, false, List, [],
  ◌∷◌, Option, none, some, arith, is_some, ℕ_discrete, if◌then◌else◌, ite, length, Bool-cases,
  Option-cases,
}
use tetrapod.Base.Netip.{AddrPort, AddrPort-discrete}
use tetrapod.Pkg.Syncmap.{Map, load, store, delete, load_or_store}
use tetrapod.Pkg.Syncmap.Laws.{load-store, load-delete, Distinct, store-Distinct, delete-Distinct}
use tetrapod.Disco.Endpoint.{Endpoint, new_endpoint}
use tetrapod.Disco.Peer.{Peer, drop_endpoint, add_endpoint, next_id, add_endpoints}

abbrev pub address : Option Endpoint → Option AddrPort
address none = none
address (some pe) = some pe.endpoint

-- The address of the endpoint with an id, and the id that an address has.
abbrev pub address_of : Peer → ℕ → Option AddrPort
address_of p id = address (load ℕ_discrete id p.endpoints)

abbrev pub id_of : Peer → AddrPort → Option ℕ
id_of p ep = load AddrPort-discrete ep p.endpoint_to_endpoint_id

-- The maps are inverse to one another.
abbrev pub Paired : Peer → Type 0
Paired p = (id : ℕ) (ep : AddrPort) → (address_of p id ≡ some ep) ↔ (id_of p ep ≡ some id)

-- Ids above the counter have not been given out.
abbrev pub Fresh : Peer → Type 0
Fresh p = (id : ℕ) → p.endpoint_id_counter < id → load ℕ_discrete id p.endpoints ≡ none

pub record Inv (p : Peer) : Type 0 where
  pub paired : Paired p
  pub fresh : Fresh p
  pub distinct : Distinct ℕ_discrete p.endpoints

drop_endpoint-Inv :
    (key : ℕ) (ep : AddrPort) (p : Peer)
    → address_of p key ≡ some ep
    → Inv p
    → Inv (drop_endpoint key ep p)
unfolding drop_endpoint
drop_endpoint-Inv key ep p e v = record {
  paired = λ id a. ground (
    arith,
    v.paired id a,
    v.paired key a,
    v.paired id ep,
    v.paired key ep,
    load-delete ℕ_discrete id key p.endpoints,
    load-delete AddrPort-discrete a ep p.endpoint_to_endpoint_id,
  );
  fresh = λ id h. ground (arith, v.fresh id, load-delete ℕ_discrete id key p.endpoints);
  distinct = delete-Distinct ℕ_discrete key p.endpoints v.distinct;
}

new_endpoint-endpoint :
    (id : ℕ) (ep : AddrPort) (k s : List ℕ) → (new_endpoint id ep k s).endpoint ≡ ep
unfolding new_endpoint
new_endpoint-endpoint id ep k s = refl

-- The endpoint that a round of the loop makes, and the peer with it.
abbrev pub made : AddrPort → ℕ → Peer → Endpoint
made ep id p = new_endpoint id ep p.local_public_disco_key p.shared_key

abbrev with_made : AddrPort → ℕ → Peer → Peer
with_made ep id p = record p {
  endpoint_id_counter = (p.endpoint_id_counter + 1) % 2 ^ 32;
  endpoint_to_endpoint_id = store AddrPort-discrete ep id p.endpoint_to_endpoint_id;
  endpoints = store ℕ_discrete id (made ep id p) p.endpoints;
}

pub add_endpoint-old :
    (ep : AddrPort) (id : ℕ) (p : Peer) {old : ℕ}
    → id_of p ep ≡ some old
    → add_endpoint ep id p ≡ (id, p)
unfolding add_endpoint
add_endpoint-old ep id p e = rw (e, load_or_store)

pub add_endpoint-new :
    (ep : AddrPort) (id : ℕ) (p : Peer)
    → id_of p ep ≡ none
    → add_endpoint ep id p ≡ ((p.endpoint_id_counter + 1) % 2 ^ 32, with_made ep id p)
unfolding add_endpoint
add_endpoint-new ep id p e = rw (e, load_or_store)

with_made-Inv :
    (ep : AddrPort) (id : ℕ) (p : Peer)
    → Inv p
    → id_of p ep ≡ none
    → load ℕ_discrete id p.endpoints ≡ none
    → id ≤ p.endpoint_id_counter
    → p.endpoint_id_counter + 1 < 2 ^ 32
    → Inv (with_made ep id p)
with_made-Inv ep id p v new unused low room = record {
  paired = λ i a. ground (
    arith,
    v.paired i a,
    v.paired id a,
    v.paired i ep,
    load-store ℕ_discrete i id (made ep id p) p.endpoints,
    load-store AddrPort-discrete a ep id p.endpoint_to_endpoint_id,
    new_endpoint-endpoint id ep p.local_public_disco_key p.shared_key,
  );
  fresh = λ i h. ground (arith, v.fresh i, load-store ℕ_discrete i id (made ep id p) p.endpoints);
  distinct = store-Distinct ℕ_discrete id (made ep id p) p.endpoints v.distinct;
}

-- A round of the loop, with the local `id` not in use, keeps the invariant and leaves an unused id.
pub add_endpoint-Inv :
    (ep : AddrPort) (id : ℕ) (p : Peer)
    → Inv p
    → load ℕ_discrete id p.endpoints ≡ none
    → id ≤ p.endpoint_id_counter
    → p.endpoint_id_counter + 1 < 2 ^ 32
    → let (id', p') = add_endpoint ep id p in
      Inv p' × (load ℕ_discrete id' p'.endpoints ≡ none) × (id' ≤ p'.endpoint_id_counter)
add_endpoint-Inv ep id p v unused low room = elim (Option-cases (id_of p ep)) [
  | inr (old, e) ↦ rw (add_endpoint-old ep id p e) (v, unused, low)
  | inl e ↦ rw (add_endpoint-new ep id p e) (
    with_made-Inv ep id p v e unused low room,
    ground (
      arith,
      v.fresh (p.endpoint_id_counter + 1),
      load-store ℕ_discrete (p.endpoint_id_counter + 1) id (made ep id p) p.endpoints,
    ),
    omega arith,
  )
]
