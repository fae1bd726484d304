-- ===== src/Examples/Peers.antt =====
-- The peer at work.
use tetrapod.Base.{ℕ, ◌≡◌, refl, true, [], ◌∷◌, none, some, arith, is_some, elem, ℕ_discrete}
use tetrapod.Base.Netip.{AddrPort, AddrPort-discrete, ip6}
use tetrapod.Pkg.Syncmap.{load}
use tetrapod.Disco.Endpoint.{Endpoint}
use tetrapod.Disco.Peer.{Peer, new_peer, set_endpoints}
use tetrapod.Disco.Peer.Pairing.{Inv, id_of}
use tetrapod.Disco.Peer.Pairing.Exact.{new_peer-Inv, set_endpoints_exact}
use tetrapod.Examples.Packets.{toy_box, here, there, alice, bob}

abbrev elsewhere : AddrPort
elsewhere = record { addr = ip6 1; port = 4000 }

abbrev newcomer : Peer
unfolding new_peer
newcomer = new_peer toy_box alice bob

-- The second call closes the endpoint of `here` and keeps the one of `there` under its id.
moved_on :
    let p = set_endpoints (there ∷ elsewhere ∷ []) (set_endpoints (here ∷ there ∷ []) newcomer) in
    (id_of p here ≡ none) × (id_of p there ≡ some 2) × (id_of p elsewhere ≡ some 4)
unfolding set_endpoints newcomer load
moved_on = (refl, refl, refl)

set_endpoints_exact_example :
    let p' = set_endpoints (here ∷ there ∷ here ∷ []) newcomer in
    Inv p'
    × ((a : AddrPort) → is_some (id_of p' a) ≡ elem AddrPort-discrete a (here ∷ there ∷ here ∷ []))
    × ((i : ℕ) (pe : Endpoint)
        → load ℕ_discrete i newcomer.endpoints ≡ some pe
        → elem AddrPort-discrete pe.endpoint (here ∷ there ∷ here ∷ []) ≡ true
        → load ℕ_discrete i p'.endpoints ≡ some pe)
unfolding newcomer
set_endpoints_exact_example =
    set_endpoints_exact (here ∷ there ∷ here ∷ []) newcomer (new_peer-Inv toy_box alice bob) refl
      (omega arith)
