-- ===== src/Disco/Hub.antt =====
-- disco/disco.go: the peers under their keys, and the datagrams that go to them. A peer is reached through
-- the map alone. AddPeer runs here with no other call of it in between, so LoadOrStore stores (Adding has them at once). A
-- packet given to a peer is processed at once; the packets to send are the result.
pub mod Sync
pub mod Closed
pub mod Adding
use tetrapod.Base.{ℕ, Bool, true, false, List, [], ◌∷◌, Option, none, some, if◌then◌else◌, is_some}
use tetrapod.Base.Bytes.{Bytes, Bytes-discrete}
use tetrapod.Base.Netip.{AddrPort, unmap}
use tetrapod.Wgkey.{Box}
use tetrapod.Pkg.Syncmap.{Map, load, store, delete}
use tetrapod.Disco.Packet.{EncryptedDiscoPacket, marshal, unmarshal}
use tetrapod.Disco.Peer.{Peer, new_peer, set_endpoints, PeerStatus}
use tetrapod.Disco.Peer.Messages.{receive, zero_key}

pub record Hub : Type 0 where
  pub private_key : Bytes
  pub closed : Bool
  pub peers : Map Bytes Peer

-- `addr` after Unmap, with its port, and the packet that a datagram is read into.
abbrev pub blank_packet : AddrPort → EncryptedDiscoPacket
blank_packet from = record {
  header = 0;
  src_public_disco_key = zero_key;
  encrypted_payload = [];
  endpoint = record from { addr = unmap from.addr };
}

-- The closing Range of SetPeers over the entries that it visits. Closing a peer calls its onClose, which
-- takes it out of the map.
unfoldable pub close_others :
    Map Bytes (List AddrPort) → Map Bytes Peer → Map Bytes Peer → Map Bytes Peer
unfolding load delete Bytes-discrete
close_others listed [] m = m
close_others listed ((k, p) ∷ visited) m = elim (is_some (load Bytes-discrete k listed)) [
  | true ↦ close_others listed visited m
  | false ↦ close_others listed visited (delete Bytes-discrete k m)
]

-- GetAllStatuses
abbrev pub get_all_statuses : Map Bytes Peer → Map Bytes PeerStatus
get_all_statuses [] = []
get_all_statuses ((k, p) ∷ m) = (k, p.status) ∷ get_all_statuses m

-- closeAllPeers over the entries that it visits.
unfoldable pub close_all_peers : Map Bytes Peer → Map Bytes Peer → Map Bytes Peer
unfolding delete Bytes-discrete
close_all_peers [] m = m
close_all_peers ((k, p) ∷ visited) m = close_all_peers visited (delete Bytes-discrete k m)

-- Close, the first time.
unfoldable pub close_hub : Hub → Hub
unfolding close_all_peers
close_hub h = record h { closed = true; peers = close_all_peers h.peers h.peers }

-- runSender: the datagrams that are written for the packets of sendChan, with their addresses. An error of
-- WriteTo is passed over.
unfoldable pub run_sender : List EncryptedDiscoPacket → List (Bytes × AddrPort)
unfolding marshal
run_sender [] = []
run_sender (pkt ∷ pkts) = elim (marshal pkt) [
  | none ↦ run_sender pkts
  | some b ↦ (b, pkt.endpoint) ∷ run_sender pkts
]

module _ (box : Box) where
  -- Whether a peer is returned (it is nil otherwise), and the hub.
  unfoldable pub add_peer : Bytes → Hub → Bool × Hub
  unfolding load store delete new_peer Bytes-discrete
  add_peer k h =
      let h' = record h { peers = store Bytes-discrete k (new_peer box h.private_key k) h.peers } in
      elim (load Bytes-discrete k h.peers) [
        | some p ↦ (true, h)
        | none ↦
            if h.closed
            then (false, record h { peers = delete Bytes-discrete k h'.peers })
            else (true, h')
      ]

  abbrev pub modify_peer : Bytes → Option Peer → (Peer → Peer) → Hub → Hub
  unfolding store Bytes-discrete
  modify_peer k none f h = h
  modify_peer k (some p) f h = record h { peers = store Bytes-discrete k (f p) h.peers }

  -- A round of the loop of SetPeers; none is the panic of SetEndpoints on a nil peer.
  unfoldable pub set_peer : Bytes → List AddrPort → Hub → Option Hub
  unfolding add_peer set_endpoints load Bytes-discrete
  set_peer k eps h =
      let r = add_peer k h in
      if r.0
      then some (modify_peer k (load Bytes-discrete k r.1.peers) (set_endpoints eps) r.1)
      else none

  unfoldable pub set_each : Map Bytes (List AddrPort) → Hub → Option Hub
  unfolding set_peer
  set_each [] h = some h
  set_each ((k, eps) ∷ rest) h = elim (set_peer k eps h) [
    | none ↦ none
    | some h' ↦ set_each rest h'
  ]

  unfoldable pub set_peers : Map Bytes (List AddrPort) → Hub → Option Hub
  unfolding set_each close_others
  set_peers peers h = elim (set_each peers h) [
    | none ↦ none
    | some h' ↦ some (record h' { peers = close_others peers h'.peers h'.peers })
  ]

  -- A datagram read by runReceiver.
  unfoldable pub receive_datagram :
      ℕ → Option Bytes → AddrPort → Bytes → Hub → Hub × List EncryptedDiscoPacket
  unfolding unmarshal receive load store Bytes-discrete
  receive_datagram now random from b h =
      let (pkt, ok) = unmarshal (blank_packet from) b in
      if h.closed
      then (h, [])
      else (if ok
          then elim (load Bytes-discrete pkt.src_public_disco_key h.peers) [
            | none ↦ (h, [])
            | some p ↦
                let r = receive box now random pkt p in
                (
                  record h { peers = store Bytes-discrete pkt.src_public_disco_key r.0 h.peers },
                  r.1,
                )
          ]
          else (h, []))
