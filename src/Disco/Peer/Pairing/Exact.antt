-- ===== src/Disco/Peer/Pairing/Exact.antt =====
-- SetEndpoints against its specification: the peer has one endpoint for each listed address.
use tetrapod.Base.{
  ℕ, ◌+◌, ◌%◌, ◌^◌, ◌<◌, ◌≡◌, refl, ◌↔◌, inr, true, false, List, [], ◌∷◌, Option, none, some, arith,
  is_some, ℕ_discrete, length, elem,
}
use tetrapod.Base.Netip.{AddrPort, AddrPort-discrete}
use tetrapod.Base.Bytes.{Bytes}
use tetrapod.Wgkey.{Box}
use tetrapod.Pkg.Syncmap.{load}
use tetrapod.Disco.Endpoint.{Endpoint}
use tetrapod.Disco.Peer.{
  Peer, next_id, add_endpoint, add_endpoints, prune_visited, prune_endpoints, set_endpoints,
  new_peer,
}
use tetrapod.Disco.Peer.Pairing.{id_of, Inv}
use tetrapod.Disco.Peer.Pairing.Endpoints.{
  IsListed, add_endpoints-Inv, id_of-add_endpoints, prune_visited-Inv,
}

pub new_peer-Inv : (box : Box) (priv key : Bytes) → Inv (new_peer box priv key)
unfolding new_peer load
new_peer-Inv box priv key = record {
  paired = λ id ep. ground arith;
  fresh = λ id h. refl;
  distinct = tt;
}

add_endpoints-closed :
    (eps : List AddrPort) (id : ℕ) (p : Peer) → (add_endpoints eps id p).closed ≡ p.closed
unfolding add_endpoints add_endpoint
add_endpoints-closed [] id p = refl
add_endpoints-closed (ep ∷ eps) id p =
    ground (arith, add_endpoints-closed eps (add_endpoint ep id p).0 (add_endpoint ep id p).1)

-- The listed addresses among the endpoints of `q` are those that keep an id in `p`.
module _ (eps : List AddrPort) (p q : Peer) (v : Inv p) (w : Inv q) where
  abbrev IsPruned : Type 0
  IsPruned =
      (i : ℕ) (pe : Endpoint)
      → (load ℕ_discrete i p.endpoints ≡ some pe)
        ↔ ((load ℕ_discrete i q.endpoints ≡ some pe) × IsListed eps pe)

  id_of_pruned :
      (a : AddrPort) (i : ℕ) (o : Option Endpoint)
      → IsPruned
      → load ℕ_discrete i p.endpoints ≡ o
      → id_of p a ≡ some i
      → elem AddrPort-discrete a eps ≡ true
  id_of_pruned a i none same e h = ground (arith, v.paired i a)
  id_of_pruned a i (some pe) same e h = ground (arith, v.paired i a, same i pe)

  pruned_id_of :
      (a : AddrPort) (i : ℕ) (o : Option Endpoint)
      → IsPruned
      → load ℕ_discrete i q.endpoints ≡ o
      → id_of q a ≡ some i
      → elem AddrPort-discrete a eps ≡ true
      → id_of p a ≡ some i
  pruned_id_of a i none same e h l = ground (arith, w.paired i a)
  pruned_id_of a i (some pe) same e h l = ground (arith, w.paired i a, same i pe, v.paired i a)

  ids_pruned :
      (a : AddrPort)
      → IsPruned
      → (elem AddrPort-discrete a eps ≡ true → is_some (id_of q a) ≡ true)
      → is_some (id_of p a) ≡ elem AddrPort-discrete a eps
  ids_pruned a same given = ids (id_of p a) (id_of q a) refl refl
    where
      ids :
          (o o' : Option ℕ)
          → id_of p a ≡ o
          → id_of q a ≡ o'
          → is_some (id_of p a) ≡ elem AddrPort-discrete a eps
      ids (some i) o' e e' =
          ground (arith, id_of_pruned a i (load ℕ_discrete i p.endpoints) same refl e)
      ids none none e e' = ground (arith, given)
      ids none (some i) e e' =
          ground (arith, pruned_id_of a i (load ℕ_discrete i q.endpoints) same refl e')

-- On an open peer, with ids left below 2 ^ 32, SetEndpoints leaves an id and an endpoint to exactly the
-- listed addresses, the two maps inverse to one another; an endpoint whose address is listed again is kept
-- as it was, with its id.
pub set_endpoints_exact :
    (eps : List AddrPort) (p : Peer)
    → Inv p
    → p.closed ≡ false
    → p.endpoint_id_counter + length eps + 1 < 2 ^ 32
    → let p' = set_endpoints eps p in
      Inv p'
      × ((a : AddrPort) → is_some (id_of p' a) ≡ elem AddrPort-discrete a eps)
      × ((i : ℕ) (pe : Endpoint)
          → load ℕ_discrete i p.endpoints ≡ some pe
          → elem AddrPort-discrete pe.endpoint eps ≡ true
          → load ℕ_discrete i p'.endpoints ≡ some pe)
unfolding set_endpoints next_id prune_endpoints
set_endpoints_exact eps p v is_open room = rw shape (pruned.0, ids, keeps)
  where
    id : ℕ
    id = (p.endpoint_id_counter + 1) % 2 ^ 32

    bumped : Peer
    bumped = record p { endpoint_id_counter = id }

    bumped-Inv : Inv bumped
    bumped-Inv = record {
      paired = v.paired;
      fresh = λ i h. v.fresh i (omega arith);
      distinct = v.distinct;
    }

    added : Peer
    added = add_endpoints eps id bumped

    loop :
        Inv added
        × ((i : ℕ) (pe : Endpoint)
            → load ℕ_discrete i bumped.endpoints ≡ some pe
            → load ℕ_discrete i added.endpoints ≡ some pe)
    loop =
        add_endpoints-Inv eps id bumped bumped-Inv (v.fresh id (omega arith), omega arith)
          (omega arith)

    left : Peer
    left = prune_visited eps added.endpoints added

    shape : set_endpoints eps p ≡ left
    shape = ground (arith, add_endpoints-closed eps id bumped)

    pruned :
        Inv left
        × ((i : ℕ) (pe : Endpoint)
            → (load ℕ_discrete i left.endpoints ≡ some pe)
              ↔ ((load ℕ_discrete i added.endpoints ≡ some pe) × IsListed eps pe))
    pruned =
        prune_visited-Inv eps added.endpoints added loop.0.distinct (λ i pe h. h) loop.0
          (λ i pe h. inr h)

    ids : (a : AddrPort) → is_some (id_of left a) ≡ elem AddrPort-discrete a eps
    ids a =
        ids_pruned eps left added pruned.0 loop.0 a pruned.1
          (λ h. ground (arith, id_of-add_endpoints a eps id bumped))

    keeps :
        (i : ℕ) (pe : Endpoint)
        → load ℕ_discrete i p.endpoints ≡ some pe
        → elem AddrPort-discrete pe.endpoint eps ≡ true
        → load ℕ_discrete i left.endpoints ≡ some pe
    keeps i pe h l = (pruned.1 i pe).1 (loop.1 i pe h, l)
