-- ===== src/Disco/Peer/Messages/Exchange.antt =====
-- Two peers and a ping between them, through encryption, the receiving loops and the packet manager.
use tetrapod.Base.{
  sym, ◌∙◌, ℕ, ◌+◌, ◌-◌, ◌%◌, ◌^◌, ◌<◌, ◌≤◌, ◌≡◌, refl, false, [], ◌∷◌, Option, some, ℕ_discrete,
  length, arith,
}
use tetrapod.Base.Bytes.{Bytes}
use tetrapod.Base.Netip.{AddrPort}
use tetrapod.Wgkey.{Box, shared}
use tetrapod.Pkg.Syncmap.{load, store}
use tetrapod.Pkg.Syncmap.Laws.{load-store_self, Distinct, store-Distinct}
use tetrapod.Disco.Packet.{DiscoPacket, EncryptedDiscoPacket, ping_message, pong_message, key_len}
use tetrapod.Disco.Packet.Secrecy.{
  IsSendable, envelope, encrypt_packet-envelope, decrypt_packet-envelope,
}
use tetrapod.Disco.Pktmgr.{add_packet}
use tetrapod.Disco.Pktmgr.Laws.{recv_ack_waiting}
use tetrapod.Disco.Ticker.{connected}
use tetrapod.Disco.Endpoint.{Endpoint, ping, send_disco_ping, receive_packet}
use tetrapod.Disco.Endpoint.Timeouts.{timeout, elapse, elapse-waiting}
use tetrapod.Disco.Peer.{Peer}
use tetrapod.Disco.Peer.Messages.{blank, pong_for, receive}

-- The peer at one end of a session: the two keys of the exchange, and an open loop.
pub record Session (box : Box) (mine theirs : Bytes) (p : Peer) : Type 0 where
  pub is_open : p.closed ≡ false
  pub own_key : p.local_public_disco_key ≡ box.public_key mine
  pub key_full : length p.local_public_disco_key ≡ key_len
  pub key_shared : p.shared_key ≡ shared box mine (box.public_key theirs)

-- An endpoint that the peer made, under its id.
pub record Attached (p : Peer) (i : ℕ) (pe : Endpoint) : Type 0 where
  pub held : load ℕ_discrete i p.endpoints ≡ some pe
  pub its_id : pe.endpoint_id ≡ i
  pub id_word : i < 2 ^ 32
  pub packet_word : pe.packet_id < 2 ^ 32
  pub its_key : pe.local_pub_key ≡ p.local_public_disco_key
  pub its_shared : pe.shared_key ≡ p.shared_key
  pub waiting_distinct : Distinct ℕ_discrete pe.packet_manager

module _ (box : Box) where
  -- What a sender's ping or pong decrypts to at the other peer.
  abbrev read_as : DiscoPacket → AddrPort → Bytes → DiscoPacket
  read_as p from key = record (blank key) {
    header = p.header;
    src_public_disco_key = p.src_public_disco_key;
    endpoint_id = p.endpoint_id;
    id = p.id;
    endpoint = from;
  }

  -- A genuine ping is answered by the pong that echoes its two ids, to the address that it came from.
  receive_ping_answers :
      (now : ℕ) (nonce nonce' : Bytes) (pkt : DiscoPacket) (from : AddrPort) (p : Peer)
      → p.closed ≡ false
      → pkt.header ≡ ping_message
      → p.shared_key ≡ pkt.shared_key
      → IsSendable pkt
      → length nonce ≡ 24
      → (receive box now (some nonce') (record (envelope box nonce pkt) { endpoint = from }) p).1
        ≡ envelope box nonce' (pong_for p (read_as pkt from p.shared_key)) ∷ []
  unfolding receive
  receive_ping_answers now nonce nonce' pkt from p is_open h same s full = ground (
    arith,
    decrypt_packet-envelope box pkt (blank p.shared_key) nonce from s full same,
    encrypt_packet-envelope box nonce' (pong_for p (read_as pkt from p.shared_key)),
  )

  -- A genuine pong goes to the endpoint that its endpoint id names.
  receive_pong_dispatched :
      (now : ℕ) (random : Option Bytes) (nonce : Bytes) (pkt : DiscoPacket) (from : AddrPort)
      (p : Peer) (pe : Endpoint)
      → p.closed ≡ false
      → pkt.header ≡ pong_message
      → p.shared_key ≡ pkt.shared_key
      → IsSendable pkt
      → length nonce ≡ 24
      → load ℕ_discrete pkt.endpoint_id p.endpoints ≡ some pe
      → (receive box now random (record (envelope box nonce pkt) { endpoint = from }) p).0.endpoints
        ≡ store ℕ_discrete pkt.endpoint_id
            (receive_packet now (read_as pkt from p.shared_key) pe)
            p.endpoints
  unfolding receive
  receive_pong_dispatched now random nonce pkt from p pe is_open h same s full found =
      ground (arith, decrypt_packet-envelope box pkt (blank p.shared_key) nonce from s full same)

  handle_pong_connects :
      (now t : ℕ) (pkt : DiscoPacket) (pe : Endpoint)
      → pkt.header ≡ pong_message
      → Distinct ℕ_discrete pe.packet_manager
      → load ℕ_discrete pkt.id pe.packet_manager ≡ some t
      → (receive_packet now pkt pe).status ≡ record { state = connected; rtt = now - t }
  unfolding receive_packet
  handle_pong_connects now t pkt pe h d w =
      ground (arith, (recv_ack_waiting now pkt.id t pe.packet_manager d w).0)

  -- The sender's endpoint once the ping is out.
  abbrev pinged : ℕ → Endpoint → Endpoint
  pinged t pe = record pe {
    packet_id = (pe.packet_id + 1) % 2 ^ 32;
    packet_manager = add_packet t pe.packet_id pe.packet_manager;
  }

  send_disco_ping-envelope :
      (t : ℕ) (nonce : Bytes) (pe : Endpoint)
      → send_disco_ping box t (some nonce) pe ≡ (pinged t pe, envelope box nonce (ping pe) ∷ [])
  unfolding send_disco_ping
  send_disco_ping-envelope t nonce pe = ground (arith, encrypt_packet-envelope box nonce (ping pe))

  same_key :
      (a b : Bytes) (pa pb : Peer)
      → Session box a b pa
      → Session box b a pb
      → pb.shared_key ≡ pa.shared_key
  unfolding shared
  same_key a b pa pb sa sb = cc (box.exchange b a)

  -- One endpoint of an open peer sends a ping at time `t`. The peer at the other end, whatever address the
  -- packet arrives from, answers it with one packet. When the first peer receives that answer at time `t'`,
  -- less than the packet's timeout of 400 ms after `t`, and from whatever address, then its endpoint, on
  -- which every timeout that is over by `t'` has run, is connected with the round trip time `t' - t`.
  pub ping_connects :
      (a b : Bytes) (pa pb : Peer) (i : ℕ) (pe : Endpoint) (t u t' : ℕ) (n m : Bytes)
      (r : Option Bytes) (from back : AddrPort)
      → Session box a b pa
      → Session box b a pb
      → Attached pa i pe
      → length n ≡ 24
      → length m ≡ 24
      → t ≤ t'
      → t' < t + timeout
      → let sent = send_disco_ping box t (some n) pe in
        let pa' = record pa { endpoints = store ℕ_discrete i (elapse t' sent.0) pa.endpoints } in
        (request : EncryptedDiscoPacket) × (answer : EncryptedDiscoPacket) × (pe' : Endpoint)
        × (sent.1 ≡ request ∷ [])
        × ((receive box u (some m) (record request { endpoint = from }) pb).1 ≡ answer ∷ [])
        × (load ℕ_discrete i (receive box t' r (record answer { endpoint = back }) pa').0.endpoints
            ≡ some pe')
        × (pe'.status ≡ record { state = connected; rtt = t' - t })
  unfolding add_packet
  ping_connects a b pa pb i pe t u t' n m r from back sa sb at fn fm after before = (
    envelope box n (ping pe),
    envelope box m pong,
    receive_packet t' heard waited,
    rw (send_disco_ping-envelope t n pe),
    receive_ping_answers u n m (ping pe) from pb sb.is_open refl (key ∙ sym at.its_shared)
        ping-IsSendable fn,
    rw (send_disco_ping-envelope t n pe) received,
    handle_pong_connects t' t heard waited refl waiting.1 waiting.0,
  )
    where
      key : pb.shared_key ≡ pa.shared_key
      key = same_key a b pa pb sa sb

      pong : DiscoPacket
      pong = pong_for pb (read_as (ping pe) from pb.shared_key)

      heard : DiscoPacket
      heard = read_as pong back pa.shared_key

      ping-IsSendable : IsSendable (ping pe)
      ping-IsSendable = record {
        endpoint_id_word = ground (arith, at.its_id, at.id_word);
        id_word = at.packet_word;
        key_full = ground (arith, at.its_key, sa.key_full);
      }

      pong-IsSendable : IsSendable pong
      pong-IsSendable = record {
        endpoint_id_word = ground (arith, at.its_id, at.id_word);
        id_word = at.packet_word;
        key_full = sb.key_full;
      }

      waited : Endpoint
      waited = elapse t' (pinged t pe)

      waiting :
          (load ℕ_discrete pe.packet_id waited.packet_manager ≡ some t)
          × Distinct ℕ_discrete waited.packet_manager
      waiting =
          elapse-waiting t' pe.packet_id t (pinged t pe)
            (store-Distinct ℕ_discrete pe.packet_id t pe.packet_manager at.waiting_distinct)
            (load-store_self ℕ_discrete pe.packet_id t pe.packet_manager) (ground arith)

      pa' : Peer
      pa' = record pa { endpoints = store ℕ_discrete i waited pa.endpoints }

      held : load ℕ_discrete pong.endpoint_id pa'.endpoints ≡ some waited
      held = cc (at.its_id, load-store_self ℕ_discrete i waited pa.endpoints)

      received :
          load ℕ_discrete i
            (receive box t' r (record (envelope box m pong) { endpoint = back }) pa').0.endpoints
          ≡ some (receive_packet t' heard waited)
      received = cc (
        at.its_id,
        receive_pong_dispatched t' r m pong back pa' waited sa.is_open refl (sym key)
            pong-IsSendable fm held,
        load-store_self ℕ_discrete i (receive_packet t' heard waited) pa'.endpoints,
      )
