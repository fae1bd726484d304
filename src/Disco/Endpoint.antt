-- ===== src/Disco/Endpoint.antt =====
-- disco/discoPeerEndpoint.go: one address of a peer. It pings on its ticker, measures round trips, and
-- keeps the state that its status reports. A method's section under statusLock is one step. ReceivePing reads the
-- status before it takes the lock: what it read is an argument of `receive_ping`, the step under the lock.
pub mod Interleaving
pub mod Tracking
pub mod Pings
pub mod Timeouts
use tetrapod.Base.{
  ℕ, ◌+◌, ◌-◌, ◌*◌, ◌%◌, ◌^◌, Bool, true, false, not, ◌&&◌, List, [], ◌∷◌, Option, none, some, ltb,
  leb, ◌==◌, if◌then◌else◌, is_yes,
}
use tetrapod.Base.Bytes.{Bytes}
use tetrapod.Base.Netip.{AddrPort}
use tetrapod.Wgkey.{Box}
use tetrapod.Disco.Packet.{
  DiscoPacket, EncryptedDiscoPacket, ping_message, pong_message, encrypt_packet,
}
use tetrapod.Disco.Pktmgr.{Manager, add_packet, expire, recv_ack}
use tetrapod.Disco.Ticker.{
  State, connecting, connected, State-discrete, Priority, primary, Ticker, set_state, new_ticker,
  second,
}

-- DiscoPeerEndpointStatusReadOnly; an RTT is a number of nanoseconds.
pub record Status : Type 0 where
  pub state : State
  pub rtt : ℕ

-- The zero status is `Connecting`. `last_reinitialized` is `none` for the zero time.
pub record Endpoint : Type 0 where
  pub packet_manager : Manager
  pub ticker : Ticker
  pub endpoint_id : ℕ
  pub endpoint : AddrPort
  pub local_pub_key : Bytes
  pub shared_key : Bytes
  pub packet_id : ℕ  -- uint32
  pub priority : Priority
  pub status : Status
  pub closed : Bool
  pub last_reinitialized : Option ℕ

unfoldable pub new_endpoint : ℕ → AddrPort → Bytes → Bytes → Endpoint
unfolding new_ticker
new_endpoint endpoint_id endpoint local_pub_key shared_key = record {
  packet_manager = [];
  ticker = new_ticker;
  endpoint_id = endpoint_id;
  endpoint = endpoint;
  local_pub_key = local_pub_key;
  shared_key = shared_key;
  packet_id = 0;
  priority = primary;
  status = record { state = connecting; rtt = 0 };
  closed = false;
  last_reinitialized = none;
}

-- Under statusLock: the ticker and the status get the state together.
unfoldable pub enter : State → ℕ → Endpoint → Endpoint
unfolding set_state
enter state rtt pe = record pe {
  ticker = set_state state pe.priority false pe.ticker;
  status = record { state = state; rtt = rtt };
}

unfoldable pub drop_callback : Endpoint → Endpoint
unfolding enter
drop_callback pe = enter connecting 0 pe

-- The packet manager's timeout, with the callback that it was made with.
unfoldable pub packet_timeout : ℕ → Endpoint → Endpoint
unfolding expire drop_callback
packet_timeout id pe =
    let (dropped, rest) = expire id pe.packet_manager in
    let pe' = record pe { packet_manager = rest } in if dropped then drop_callback pe' else pe'

abbrev pub ping : Endpoint → DiscoPacket
ping pe = record {
  header = ping_message;
  src_public_disco_key = pe.local_pub_key;
  endpoint_id = pe.endpoint_id;
  id = pe.packet_id;
  endpoint = pe.endpoint;
  shared_key = pe.shared_key;
}

-- What was encrypted is registered as waiting and sent. The id is used up either way.
abbrev send_encrypted :
    ℕ → Endpoint → ℕ → Option EncryptedDiscoPacket → Endpoint × List EncryptedDiscoPacket
send_encrypted now pe id none = (pe, [])
send_encrypted now pe id (some e) =
    (record pe { packet_manager = add_packet now id pe.packet_manager }, e ∷ [])

module _ (box : Box) where
  -- The endpoint, and what it sends. `random` is what the random source gives for the nonce.
  unfoldable pub send_disco_ping :
      ℕ → Option Bytes → Endpoint → Endpoint × List EncryptedDiscoPacket
  unfolding encrypt_packet add_packet
  send_disco_ping now random pe =
      send_encrypted now (record pe { packet_id = (pe.packet_id + 1) % 2 ^ 32 }) pe.packet_id
        (encrypt_packet box random (ping pe))

abbrev after_ack : Endpoint → Option ℕ → Endpoint
after_ack pe none = pe
after_ack pe (some rtt) = enter connected rtt pe

unfoldable pub handle_pong : ℕ → DiscoPacket → Endpoint → Endpoint
unfolding recv_ack enter
handle_pong now pkt pe =
    let (rtt, rest) = recv_ack now pkt.id pe.packet_manager in
    after_ack (record pe { packet_manager = rest }) rtt

-- `run` on a packet from recvChan: pings and unknown headers are ignored.
unfoldable pub receive_packet : ℕ → DiscoPacket → Endpoint → Endpoint
unfolding handle_pong
receive_packet now pkt pe = if pkt.header == pong_message then handle_pong now pkt pe else pe

unfoldable pub set_priority : Priority → Endpoint → Endpoint
unfolding set_state
set_priority priority pe = record pe {
  priority = priority;
  ticker = set_state pe.status.state priority false pe.ticker;
}

-- `now.Sub(pe.lastReinitialized) <= 30*time.Second`; the zero time is longer ago than that.
abbrev pub reinitialized_lately : ℕ → Option ℕ → Bool
reinitialized_lately now none = false
reinitialized_lately now (some t) = leb (now - t) (30 * second)

-- What ReceivePing reads of the status before it takes the lock.
abbrev pub is_connecting : Endpoint → Bool
is_connecting pe = is_yes (State-discrete pe.status.state connecting)

unfoldable pub reinitialize : ℕ → Endpoint → Endpoint
unfolding set_state
reinitialize now pe = if reinitialized_lately now pe.last_reinitialized then pe else record pe {
  last_reinitialized = some now;
  ticker = set_state connecting pe.priority true pe.ticker;
}

-- ReceivePing from what it read on. Other steps may come between its reading and this one.
unfoldable pub receive_ping : Bool → ℕ → Endpoint → Endpoint
unfolding reinitialize
receive_ping was_connecting now pe = if was_connecting then reinitialize now pe else pe

unfoldable pub close : Endpoint → Endpoint
close pe = record pe { closed = true }
