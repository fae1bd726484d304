-- ===== src/Disco/Peer/Messages.antt =====
-- The receiving loop of disco/discoPeer.go, handlePing and Close.
pub mod Exchange
use tetrapod.Base.{
  ℕ, Bool, true, false, List, [], ◌∷◌, Option, none, some, ltb, ◌==◌, if◌then◌else◌, is_yes,
  ℕ_discrete, replicate,
}
use tetrapod.Base.Bytes.{Bytes}
use tetrapod.Base.Netip.{AddrPort, AddrPort-discrete}
use tetrapod.Wgkey.{Box}
use tetrapod.Pkg.Syncmap.{Map, load, store}
use tetrapod.Disco.Packet.{
  DiscoPacket, EncryptedDiscoPacket, ping_message, pong_message, encrypt_packet, decrypt_packet,
}
use tetrapod.Disco.Endpoint.{Endpoint, receive_packet, is_connecting, receive_ping}
use tetrapod.Disco.Peer.{Peer, zero_addr_port, close_all_endpoints}

-- A method call on the endpoint that the map holds for an id; nothing happens if it holds none.
abbrev modify : ℕ → Option Endpoint → (Endpoint → Endpoint) → Peer → Peer
modify id none f p = p
modify id (some pe) f p = record p { endpoints = store ℕ_discrete id (f pe) p.endpoints }

abbrev modify_at : Option ℕ → (Endpoint → Endpoint) → Peer → Peer
modify_at none f p = p
modify_at (some id) f p = modify id (load ℕ_discrete id p.endpoints) f p

abbrev pub pong_for : Peer → DiscoPacket → DiscoPacket
pong_for p pkt = record {
  header = pong_message;
  src_public_disco_key = p.local_public_disco_key;
  endpoint_id = pkt.endpoint_id;
  id = pkt.id;
  endpoint = pkt.endpoint;
  shared_key = p.shared_key;
}

-- The answer is sent before the endpoint is looked up; a failed encryption ends the handler. No other step comes
-- within this run of ReceivePing; Disco/Endpoint/Interleaving has those where one does.
abbrev answer :
    ℕ → DiscoPacket → Peer → Option EncryptedDiscoPacket → Peer × List EncryptedDiscoPacket
answer now pkt p none = (p, [])
answer now pkt p (some e) = (
  modify_at (load AddrPort-discrete pkt.endpoint p.endpoint_to_endpoint_id)
      (λ pe. receive_ping (is_connecting pe) now pe) p,
  e ∷ [],
)

-- `DiscoPacket{SharedKey: p.sharedKey}`: a zero packet to decrypt into.
abbrev pub zero_key : Bytes
zero_key = replicate 32 0

abbrev pub blank : Bytes → DiscoPacket
blank shared_key = record {
  header = 0;
  src_public_disco_key = zero_key;
  endpoint_id = 0;
  id = 0;
  endpoint = zero_addr_port;
  shared_key = shared_key;
}

module _ (box : Box) where
  -- The peer, and the packets given to its sender.
  unfoldable pub handle_ping :
      ℕ → Option Bytes → DiscoPacket → Peer → Peer × List EncryptedDiscoPacket
  unfolding encrypt_packet load store receive_ping ℕ_discrete AddrPort-discrete
  handle_ping now random pkt p = answer now pkt p (encrypt_packet box random (pong_for p pkt))

  abbrev dispatch : ℕ → Option Bytes → DiscoPacket × Bool → Peer → Peer × List EncryptedDiscoPacket
  dispatch now random (decrypted, false) p = (p, [])
  dispatch now random (decrypted, true) p =
      if decrypted.header == ping_message then handle_ping now random decrypted p else (
        modify decrypted.endpoint_id (load ℕ_discrete decrypted.endpoint_id p.endpoints)
            (receive_packet now decrypted) p,
        [],
      )

  -- One packet from recvChan. A closed peer has left the loop.
  unfoldable pub receive :
      ℕ → Option Bytes → EncryptedDiscoPacket → Peer → Peer × List EncryptedDiscoPacket
  unfolding decrypt_packet handle_ping receive_packet load store ℕ_discrete
  receive now random pkt p =
      if p.closed
      then (p, [])
      else dispatch now random (decrypt_packet box (blank p.shared_key) pkt) p

-- Close; a second call panics at the closed channel and recovers.
unfoldable pub close_peer : Peer → Peer
unfolding close_all_endpoints
close_peer p =
    if p.closed
    then p
    else record (close_all_endpoints (record p { closed = true })) { status_closed = true }
