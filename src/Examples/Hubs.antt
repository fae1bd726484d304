-- ===== src/Examples/Hubs.antt =====
-- The hub and two peers that find one another.
use tetrapod.Base.{ℕ, ◌≡◌, refl, false, List, [], ◌∷◌, Option, none, some, arith, ℕ_discrete, ◌-◌}
use tetrapod.Base.Bytes.{Bytes, Bytes-discrete}
use tetrapod.Base.Netip.{AddrPort}
use tetrapod.Pkg.Syncmap.{Map, load, store}
use tetrapod.Disco.Packet.{EncryptedDiscoPacket}
use tetrapod.Disco.Ticker.{connected}
use tetrapod.Disco.Endpoint.{Endpoint, new_endpoint, send_disco_ping}
use tetrapod.Disco.Endpoint.Timeouts.{elapse}
use tetrapod.Disco.Peer.{Peer, new_peer}
use tetrapod.Disco.Peer.Messages.{receive}
use tetrapod.Disco.Peer.Selection.{update_status}
use tetrapod.Disco.Peer.Selection.Optimal.{Selects, update_status-Selects}
use tetrapod.Disco.Peer.Messages.Exchange.{Session, Attached, ping_connects}
use tetrapod.Disco.Hub.{Hub, set_peers, close_hub, receive_datagram}
use tetrapod.Disco.Hub.Sync.{Opens, synced, set_peers_exact}
use tetrapod.Disco.Hub.Closed.{set_peers_after_close}
use tetrapod.Examples.Packets.{toy_box, here, there, nonce, alice, bob}

abbrev hub : Hub
unfolding new_peer
hub = record { private_key = alice; closed = false; peers = (bob, new_peer toy_box alice bob) ∷ [] }

abbrev listed : Map Bytes (List AddrPort)
listed = (nonce, there ∷ []) ∷ (bob, here ∷ []) ∷ []

set_peers_exact_example :
    Opens
      (set_peers toy_box listed hub)
      hub
      (λ j. synced toy_box alice j (load Bytes-discrete j listed) (load Bytes-discrete j hub.peers))
unfolding load hub Bytes-discrete
set_peers_exact_example = set_peers_exact toy_box listed hub (refl, (refl, tt)) refl

set_peers_after_close_example :
    ((j : Bytes) → load Bytes-discrete j (close_hub hub).peers ≡ none)
    × ((now : ℕ) (random : Option Bytes) (from : AddrPort) (b : Bytes)
        → receive_datagram toy_box now random from b (close_hub hub) ≡ (close_hub hub, []))
    × (set_peers toy_box ((bob, []) ∷ []) (close_hub hub) ≡ none)
unfolding hub
set_peers_after_close_example = set_peers_after_close toy_box hub bob [] []

abbrev alices : Peer
unfolding new_peer
alices =
    let p = new_peer toy_box alice bob in
    record p {
      endpoints = (1, new_endpoint 1 there p.local_public_disco_key p.shared_key) ∷ [];
      endpoint_status_map =
          (1, record { state = connected; rtt = 30 })
          ∷ (4, record { state = connected; rtt = 20 })
          ∷ [];
    }

abbrev bobs : Peer
unfolding new_peer
bobs = new_peer toy_box bob alice

abbrev theirs : Endpoint
unfolding new_endpoint new_peer
theirs =
    let p = new_peer toy_box alice bob in new_endpoint 1 there p.local_public_disco_key p.shared_key

alices-Attached : Attached alices 1 theirs
unfolding alices theirs load ℕ_discrete new_endpoint
alices-Attached = record {
  held = refl;
  its_id = refl;
  id_word = omega arith;
  packet_word = omega arith;
  its_key = refl;
  its_shared = refl;
  waiting_distinct = tt;
}

alices-Session : Session toy_box alice bob alices
unfolding alices new_peer
alices-Session = record { is_open = refl; own_key = refl; key_full = refl; key_shared = refl }

bobs-Session : Session toy_box bob alice bobs
unfolding bobs new_peer
bobs-Session = record { is_open = refl; own_key = refl; key_full = refl; key_shared = refl }

ping_connects_example :
    let sent = send_disco_ping toy_box 100 (some nonce) theirs in
    let pa' = record alices {
      endpoints = store ℕ_discrete 1 (elapse 130 sent.0) alices.endpoints;
    } in
    (request : EncryptedDiscoPacket) × (answer : EncryptedDiscoPacket) × (pe' : Endpoint) × (sent.1
      ≡ request ∷ [])
    × ((receive toy_box 7 (some nonce) (record request { endpoint = here }) bobs).1 ≡ answer ∷ [])
    × (load ℕ_discrete 1
          (receive toy_box 130 none (record answer { endpoint = there }) pa').0.endpoints
        ≡ some pe')
    × (pe'.status ≡ record { state = connected; rtt = 130 - 100 })
ping_connects_example =
    ping_connects toy_box alice bob alices bobs 1 theirs 100 7 130 nonce nonce none here there
      alices-Session bobs-Session alices-Attached refl refl (omega arith) (omega arith)

update_status-Selects_example : Selects alices (update_status alices)
update_status-Selects_example = update_status-Selects alices
