-- ===== src/Disco/Peer.antt =====
-- disco/discoPeer.go: a peer and the endpoints through which it may be reached. Endpoints are shared
-- objects, but only the map `endpoints` leads to them, so an update of one is an update of its entry. A
-- packet handed to an endpoint through its channel is processed at once. Log lines are left out.
pub mod Selection
pub mod Messages
pub mod Pairing
use tetrapod.Base.{
  ℕ, ◌+◌, ◌%◌, ◌^◌, Bool, true, false, not, ◌&&◌, ◌||◌, List, [], ◌∷◌, Option, none, some, ltb,
  ◌==◌, if◌then◌else◌, is_yes, ℕ_discrete,
}
use tetrapod.Base.Bytes.{Bytes}
use tetrapod.Base.Netip.{AddrPort, AddrPort-discrete, invalid}
use tetrapod.Wgkey.{Box, shared}
use tetrapod.Pkg.Syncmap.{Map, load, store, delete, load_or_store, from_slice, contains}
use tetrapod.Disco.Packet.{
  DiscoPacket, EncryptedDiscoPacket, ping_message, pong_message, encrypt_packet, decrypt_packet,
}
use tetrapod.Disco.Ticker.{State, connected, State-discrete, Priority, primary, sub}
use tetrapod.Disco.Endpoint.{
  Endpoint, Status, new_endpoint, receive_packet, receive_ping, set_priority,
}

-- DiscoPeerStatusReadOnly.
pub record PeerStatus : Type 0 where
  pub active_endpoint : AddrPort
  pub active_rtt : ℕ

pub record Peer : Type 0 where
  pub closed : Bool
  pub peer_public_disco_key : Bytes
  pub local_public_disco_key : Bytes
  pub shared_key : Bytes
  pub endpoint_id_counter : ℕ  -- uint32
  pub endpoint_to_endpoint_id : Map AddrPort ℕ
  pub endpoints : Map ℕ Endpoint
  pub endpoint_status_map : Map ℕ Status
  pub status : PeerStatus
  pub status_closed : Bool

abbrev zero_addr_port : AddrPort
zero_addr_port = record { addr = invalid; port = 0 }

-- NewDiscoPeer, with the goroutine's first step still to come.
unfoldable pub new_peer : Box → Bytes → Bytes → Peer
unfolding shared
new_peer box private_key pub_key = record {
  closed = false;
  peer_public_disco_key = pub_key;
  local_public_disco_key = box.public_key private_key;
  shared_key = shared box private_key pub_key;
  endpoint_id_counter = 0;
  endpoint_to_endpoint_id = [];
  endpoints = [];
  endpoint_status_map = [];
  status = record { active_endpoint = zero_addr_port; active_rtt = 0 };
  status_closed = false;
}

-- One visit of a Range that takes an endpoint out: its address, then itself.
unfoldable pub drop_endpoint : ℕ → AddrPort → Peer → Peer
unfolding delete ℕ_discrete AddrPort-discrete
drop_endpoint key ep p = record p {
  endpoint_to_endpoint_id = delete AddrPort-discrete ep p.endpoint_to_endpoint_id;
  endpoints = delete ℕ_discrete key p.endpoints;
}

close_visited : List (ℕ × Endpoint) → Peer → Peer
unfolding drop_endpoint
close_visited [] p = p
close_visited ((key, value) ∷ visited) p =
    close_visited visited (drop_endpoint key value.endpoint p)

unfoldable pub close_all_endpoints : Peer → Peer
unfolding close_visited
close_all_endpoints p = close_visited p.endpoints p

-- `atomic.AddUint32(&p.endpointIDCounter, 1)`: the counter is the new id.
unfoldable pub next_id : Peer → Peer
next_id p = record p { endpoint_id_counter = (p.endpoint_id_counter + 1) % 2 ^ 32 }

-- A round of the loop over the endpoints; `id` is the local variable of that name.
unfoldable pub add_endpoint : AddrPort → ℕ → Peer → ℕ × Peer
unfolding next_id load_or_store store ℕ_discrete AddrPort-discrete new_endpoint
add_endpoint ep id p =
    let (endpoint_id, loaded, m) =
      load_or_store AddrPort-discrete ep id p.endpoint_to_endpoint_id in
    let p' = next_id p in
    let pe = new_endpoint endpoint_id ep p.local_public_disco_key p.shared_key in
    if loaded then (id, p) else (
      p'.endpoint_id_counter,
      record p' {
        endpoint_to_endpoint_id = m;
        endpoints = store ℕ_discrete endpoint_id pe p.endpoints;
      },
    )

unfoldable pub add_endpoints : List AddrPort → ℕ → Peer → Peer
unfolding add_endpoint
add_endpoints [] id p = p
add_endpoints (ep ∷ eps) id p = let (id', p') = add_endpoint ep id p in add_endpoints eps id' p'

-- The closing Range of SetEndpoints over the entries that it visits.
unfoldable pub prune_visited : List AddrPort → List (ℕ × Endpoint) → Peer → Peer
unfolding drop_endpoint from_slice contains AddrPort-discrete
prune_visited eps [] p = p
prune_visited eps ((key, value) ∷ visited) p = prune_visited eps visited (
    if contains AddrPort-discrete value.endpoint (from_slice AddrPort-discrete eps)
    then p
    else drop_endpoint key value.endpoint p)

-- SetEndpoints after the loop, where `closed` is looked at again.
unfoldable pub prune_endpoints : List AddrPort → Peer → Peer
unfolding prune_visited close_all_endpoints
prune_endpoints eps p = if p.closed then close_all_endpoints p else prune_visited eps p.endpoints p

unfoldable pub set_endpoints : List AddrPort → Peer → Peer
unfolding close_all_endpoints next_id add_endpoints prune_endpoints
set_endpoints eps p =
    let p' = next_id p in
    if p.closed
    then close_all_endpoints p
    else prune_endpoints eps (add_endpoints eps p'.endpoint_id_counter p')
