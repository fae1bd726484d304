-- ===== src/Disco/Hub/Closed.antt =====
-- A hub that was closed.
use tetrapod.Base.{ℕ, ◌≡◌, refl, List, [], ◌∷◌, Option, none, if◌then◌else◌, is_some, arith}
use tetrapod.Base.Bytes.{Bytes, Bytes-discrete}
use tetrapod.Base.Netip.{AddrPort}
use tetrapod.Wgkey.{Box}
use tetrapod.Pkg.Syncmap.{Map, load, delete}
use tetrapod.Pkg.Syncmap.Laws.{load-delete}
use tetrapod.Disco.Peer.{Peer}
use tetrapod.Disco.Hub.{
  Hub, add_peer, set_peer, set_each, set_peers, close_all_peers, close_hub, receive_datagram,
}

load-close_all_peers :
    (j : Bytes) (visited m : Map Bytes Peer)
    → load Bytes-discrete j (close_all_peers visited m)
      ≡ (if is_some (load Bytes-discrete j visited) then none else load Bytes-discrete j m)
unfolding close_all_peers load
load-close_all_peers j [] m = refl
load-close_all_peers j ((k, p) ∷ visited) m = ground (
  arith,
  load-close_all_peers j visited (delete Bytes-discrete k m),
  load-delete Bytes-discrete j k m,
)

load-close_hub : (j : Bytes) (h : Hub) → load Bytes-discrete j (close_hub h).peers ≡ none
unfolding close_hub
load-close_hub j h = ground (arith, load-close_all_peers j h.peers h.peers)

-- After Close no key leads to a peer, datagrams change nothing and are not answered, and SetPeers with at
-- least one key panics: AddPeer returns no peer to set the endpoints of.
pub set_peers_after_close :
    (box : Box) (h : Hub) (k : Bytes) (eps : List AddrPort) (rest : Map Bytes (List AddrPort))
    → ((j : Bytes) → load Bytes-discrete j (close_hub h).peers ≡ none)
      × ((now : ℕ) (random : Option Bytes) (from : AddrPort) (b : Bytes)
          → receive_datagram box now random from b (close_hub h) ≡ (close_hub h, []))
      × (set_peers box ((k, eps) ∷ rest) (close_hub h) ≡ none)
unfolding set_peers set_each set_peer add_peer close_hub receive_datagram
set_peers_after_close box h k eps rest = (
  λ j. load-close_hub j h,
  λ now random from b. refl,
  ground (arith, load-close_all_peers k h.peers h.peers),
)
