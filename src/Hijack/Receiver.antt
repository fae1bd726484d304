-- ===== src/Hijack/Receiver.antt =====
-- pkg/hijack: what a raw socket or XDP receiver keeps of the frames, and what the raw socket sender sends.
-- gopacket's layers are the record Layers; a message from the pool is the message itself. Where both channels
-- of Recv are ready, an argument says which one select takes.
pub mod Delivery
use tetrapod.Base.{
  ℕ, ◌+◌, ◌%◌, ◌^◌, ◌≤◌, Bool, true, false, not, List, [], ◌∷◌, ◌++◌, Option, none, some, ltb,
  if◌then◌else◌, length, take, map,
}
use tetrapod.Base.Bytes.{Bytes}
use tetrapod.Base.Netip.{Addr, AddrPort, Addr-discrete, unmap, is4}
use tetrapod.Pkg.Syncmap.{Map, from_slice, contains}

-- What DecodeLayers finds in a frame: source and destination of the IPv4 and of the IPv6 layer, where there is
-- one, the source port of the UDP layer, and the payload.
pub record Layers : Type 0 where
  pub ip4 : Option (Addr × Addr)
  pub ip6 : Option (Addr × Addr)
  pub src_port : ℕ
  pub payload : Bytes

pub record Message : Type 0 where
  pub src : AddrPort
  pub payload : Bytes

abbrev pub channel_cap : ℕ
channel_cap = 10

abbrev pub max_len : ℕ
max_len = 2048

pub record Receiver : Type 0 where
  pub addrs : Map Addr Unit
  pub ch : List Message
  pub closed : Bool

-- What Recv does: wait, fail, or copy to a buffer and return a length and where the message is from.
pub data Received : Type 0 where
  blocked : Received
  is_closed : Received
  got : Bytes → ℕ → AddrPort → Receiver → Received

-- The non-blocking send to the channel.
unfoldable pub send_message : Message → Receiver → Receiver
send_message msg r = if ltb (length r.ch) channel_cap then record r { ch = r.ch ++ msg ∷ [] } else r

-- srcIP and dstIP.
abbrev pub endpoints_of : Layers → Option (Addr × Addr)
endpoints_of l = elim l.ip4 [ some e ↦ some e | none ↦ l.ip6 ]

-- The loop of run after a frame is decoded.
unfoldable pub receive_layers : Layers → Receiver → Receiver
unfolding send_message contains Addr-discrete
receive_layers l r = elim (endpoints_of l) [
  | none ↦ r
  | some (src, dst) ↦
      if contains Addr-discrete dst r.addrs
      then send_message
          (record { src = record { addr = src; port = l.src_port % 2 ^ 16 }; payload = l.payload })
          r
      else r
]

module _ (decode : Bytes → Option Layers) where
  -- A round of the raw socket's run, with the captured frame.
  unfoldable pub receive_frame : Bytes → Receiver → Receiver
  unfolding receive_layers
  receive_frame frame r =
      if ltb max_len (length frame)
      then r
      else elim (decode frame) [ none ↦ r | some l ↦ receive_layers l r ]

  -- A round of XDP's run, with the length and the bytes of the event.
  unfoldable pub receive_event : ℕ → Bytes → Receiver → Receiver
  unfolding receive_layers
  receive_event len packet r =
      if ltb max_len len
      then r
      else elim (decode (take len packet)) [ none ↦ r | some l ↦ receive_layers l r ]

-- Recv into a buffer of `size` bytes.
unfoldable pub recv : Bool → ℕ → Receiver → Received
recv prefers_closed size r =
    if r.closed
    then (if prefers_closed then is_closed else elim r.ch [
      | [] ↦ is_closed
      | msg ∷ rest ↦
          got (take size msg.payload) (length msg.payload) msg.src (record r { ch = rest })
    ])
    else elim r.ch [
      | [] ↦ blocked
      | msg ∷ rest ↦
          got (take size msg.payload) (length msg.payload) msg.src (record r { ch = rest })
    ]

-- Close
unfoldable pub close_receiver : Receiver → Receiver
close_receiver r = record r { closed = true }

-- Refresh, with the addresses of the interfaces; none is an error.
unfoldable pub refresh : Option (List Addr) → Receiver → Option Receiver
unfolding from_slice Addr-discrete unmap
refresh none r = none
refresh (some interface_addrs) r =
    some (record r { addrs = from_slice Addr-discrete (map unmap interface_addrs) })

-- The layers that the sender serializes: the port and the address of the destination go with them.
pub record Sent : Type 0 where
  pub layers : Layers
  pub dst : AddrPort

-- sendIPv4 and sendIPv6; `route` gives the source address of the router, none is an error.
unfoldable pub send_ip4 : (Addr → Option Addr) → ℕ → AddrPort → Bytes → Option Sent
send_ip4 route src_port dst payload = elim (route dst.addr) [
  | none ↦ none
  | some src ↦ some (record {
    layers = record {
      ip4 = some (src, dst.addr);
      ip6 = none;
      src_port = src_port % 2 ^ 16;
      payload = payload;
    };
    dst = dst;
  })
]

unfoldable pub send_ip6 : (Addr → Option Addr) → ℕ → AddrPort → Bytes → Option Sent
send_ip6 route src_port dst payload = elim (route dst.addr) [
  | none ↦ none
  | some src ↦ some (record {
    layers = record {
      ip4 = none;
      ip6 = some (src, dst.addr);
      src_port = src_port % 2 ^ 16;
      payload = payload;
    };
    dst = dst;
  })
]

unfoldable pub send : (Addr → Option Addr) → ℕ → Bytes → AddrPort → Option Sent
unfolding send_ip4 send_ip6 unmap
send route src_port payload dst =
    let dst' : AddrPort = record { addr = unmap dst.addr; port = dst.port } in
    if is4 dst'.addr
    then send_ip4 route src_port dst' payload
    else send_ip6 route src_port dst' payload
