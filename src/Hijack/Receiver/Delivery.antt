-- ===== src/Hijack/Receiver/Delivery.antt =====
-- From the sender to the reader.
use tetrapod.Base.{
  ℕ, ◌%◌, ◌^◌, ◌<◌, ◌≤◌, ◌≡◌, refl, sym, ap, ◌∙◌, Bool, true, false, List, [], ◌∷◌, ◌++◌, Option,
  none, some, length, take, map, elem, arith, take_all, Bool-cases, inl, inr,
}
use tetrapod.Base.Bytes.{Bytes}
use tetrapod.Base.Netip.{Addr, AddrPort, Addr-discrete, unmap, is4}
use tetrapod.Pkg.Syncmap.{from_slice, contains}
use tetrapod.Pkg.Syncmap.Laws.{contains-from_slice}
use tetrapod.Hijack.Receiver.{
  Layers, Message, Receiver, got, Sent, channel_cap, max_len, endpoints_of, send_message,
  receive_layers, receive_frame, receive_event, recv, refresh, send_ip4, send_ip6, send,
}

-- The layers that a sender makes: its own address and port, and the unmapped destination.
send-endpoints :
    (route : Addr → Option Addr) (src_port : ℕ) (payload : Bytes) (dst : AddrPort) (src : Addr)
    → route (unmap dst.addr) ≡ some src
    → (sent : Sent) × (send route src_port payload dst ≡ some sent)
      × (endpoints_of sent.layers ≡ some (src, unmap dst.addr))
      × (sent.layers.payload ≡ payload)
      × (sent.layers.src_port ≡ src_port % 2 ^ 16)
unfolding send send_ip4 send_ip6
send-endpoints route src_port payload dst src r = elim (Bool-cases (is4 (unmap dst.addr))) [
  | inl v4 ↦
      let sent : Sent = record {
        layers = record {
          ip4 = some (src, unmap dst.addr);
          ip6 = none;
          src_port = src_port % 2 ^ 16;
          payload = payload;
        };
        dst = record { addr = unmap dst.addr; port = dst.port };
      } in
      (sent, ground arith, refl, refl, refl)
  | inr v6 ↦
      let sent : Sent = record {
        layers = record {
          ip4 = none;
          ip6 = some (src, unmap dst.addr);
          src_port = src_port % 2 ^ 16;
          payload = payload;
        };
        dst = record { addr = unmap dst.addr; port = dst.port };
      } in
      (sent, ground arith, refl, refl, refl)
]

abbrev pub from_port : Addr → ℕ → AddrPort
from_port src port = record { addr = src; port = port % 2 ^ 16 }

-- Layers for one of the receiver's addresses are put into the channel, where there is room.
receive_layers-ours :
    (l : Layers) (r : Receiver) (src dst : Addr)
    → endpoints_of l ≡ some (src, dst)
    → contains Addr-discrete dst r.addrs ≡ true
    → length r.ch < channel_cap
    → receive_layers l r ≡ record r {
      ch = r.ch ++ record { src = from_port src l.src_port; payload = l.payload } ∷ [];
    }
unfolding receive_layers send_message
receive_layers-ours l r src dst e c room = ground arith

receive_layers-others :
    (l : Layers) (r : Receiver) (src dst : Addr)
    → endpoints_of l ≡ some (src, dst)
    → contains Addr-discrete dst r.addrs ≡ false
    → receive_layers l r ≡ r
unfolding receive_layers
receive_layers-others l r src dst e c = ground arith

receive-layers :
    (decode : Bytes → Option Layers) (frame : Bytes) (r : Receiver) (l : Layers)
    → length frame ≤ max_len
    → decode frame ≡ some l
    → (receive_frame decode frame r ≡ receive_layers l r)
      × (receive_event decode (length frame) frame r ≡ receive_layers l r)
unfolding receive_frame receive_event
receive-layers decode frame r l fits d =
    (ground arith, ground (arith, ap decode (take_all (length frame) frame (omega arith))))

recv_first :
    (prefers_closed : Bool) (size : ℕ) (r : Receiver) (msg : Message) (rest : List Message)
    → r.ch ≡ msg ∷ rest
    → r.closed ≡ false
    → recv prefers_closed size r
      ≡ got (take size msg.payload) (length msg.payload) msg.src (record r { ch = rest })
unfolding recv
recv_first prefers_closed size r msg rest c o = ground arith

abbrev pub message : Addr → ℕ → Bytes → Message
message src port payload = record { src = from_port src port; payload = payload }

-- Where a frame of at most 2048 bytes decodes to the layers that Send made, for a receiver that refreshed
-- its addresses: if the unmapped destination is one of the unmapped addresses of the interfaces, the
-- message goes to the end of the channel, where it has room, with the sender's address and port, and an open
-- receiver with nothing else in the channel hands over the whole payload to a buffer that has room for it. If it
-- is not, nothing changes. XDP's receiver does the same as that of the raw socket.
pub send-receive_frame :
    (decode : Bytes → Option Layers) (route : Addr → Option Addr) (src_port : ℕ) (payload : Bytes)
    (dst : AddrPort) (src : Addr) (interface_addrs : List Addr) (r r' : Receiver) (frame : Bytes)
    → route (unmap dst.addr) ≡ some src
    → ((sent : Sent)
        → send route src_port payload dst ≡ some sent
        → decode frame ≡ some sent.layers)
    → length frame ≤ max_len
    → refresh (some interface_addrs) r ≡ some r'
    → let end = receive_frame decode frame r' in
      let is_own = elem Addr-discrete (unmap dst.addr) (map unmap interface_addrs) in
      (is_own ≡ true
        → length r.ch < channel_cap
        → end.ch ≡ r.ch ++ message src src_port payload ∷ [])
      × (is_own ≡ true
          → r.ch ≡ []
          → r.closed ≡ false
          → (prefers_closed : Bool) (size : ℕ) → length payload ≤ size
          → (after : Receiver) × (recv prefers_closed size end
              ≡ got payload (length payload) (from_port src src_port) after))
      × (is_own ≡ false → end ≡ r')
      × (receive_event decode (length frame) frame r' ≡ end)
unfolding refresh
send-receive_frame decode route src_port payload dst src interface_addrs r r' frame routed read fits
      fresh =
    let (sent, made, ends, body, port) = send-endpoints route src_port payload dst src routed in
    let (raw, xdp) = receive-layers decode frame r' sent.layers fits (read sent made) in
    let own = map unmap interface_addrs in
    let refreshed : record r { addrs = from_slice Addr-discrete own } ≡ r' = cc in
    let checks : contains Addr-discrete (unmap dst.addr) r'.addrs
        ≡ elem Addr-discrete (unmap dst.addr) own =
      rw (sym refreshed) (contains-from_slice Addr-discrete (unmap dst.addr) own) in
    let same_ch : r'.ch ≡ r.ch = ap (λ x. x.ch) (sym refreshed) in
    let same_closed : r'.closed ≡ r.closed = ap (λ x. x.closed) (sym refreshed) in
    let msg : Message = record {
      src = from_port src sent.layers.src_port;
      payload = sent.layers.payload;
    } in
    let same_port : sent.layers.src_port % 2 ^ 16 ≡ src_port % 2 ^ 16 = omega (arith, port) in
    let is_message : msg ≡ message src src_port payload =
      λ i. record { src = record { addr = src; port = same_port i }; payload = body i } in
    let ends_with : (own_addr : elem Addr-discrete (unmap dst.addr) own ≡ true)
        → (room : length r.ch < channel_cap)
        → receive_frame decode frame r'
          ≡ record r' { ch = r.ch ++ message src src_port payload ∷ [] } =
      λ ours room.
        raw
        ∙ receive_layers-ours sent.layers r' src (unmap dst.addr) ends (checks ∙ ours)
            (omega (arith, ap length same_ch))
        ∙ ap (λ q. record r' { ch = q }) (λ i. same_ch i ++ is_message i ∷ []) in
    (
      λ ours room. ap (λ x. x.ch) (ends_with ours room),
      λ ours empty runs prefers_closed size long.
          let room : length r.ch < channel_cap = rw empty (omega arith) in
          let at_end = ends_with ours room in
          let first : (receive_frame decode frame r').ch ≡ message src src_port payload ∷ [] =
            ap (λ x. x.ch) at_end ∙ ap (λ q. q ++ message src src_port payload ∷ []) empty in
          let still : (receive_frame decode frame r').closed ≡ false =
            ap (λ x. x.closed) at_end ∙ same_closed ∙ runs in
          (
            record (receive_frame decode frame r') { ch = [] },
            recv_first prefers_closed size (receive_frame decode frame r')
                  (message src src_port payload) [] first still
                ∙ ap
                    (λ b.
                      got b (length payload) (from_port src src_port)
                        (record (receive_frame decode frame r') { ch = [] }))
                    (take_all size payload long),
          ),
      λ others.
          raw ∙ receive_layers-others sent.layers r' src (unmap dst.addr) ends (checks ∙ others),
      xdp ∙ sym raw,
    )
