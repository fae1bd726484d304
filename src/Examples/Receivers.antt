-- ===== src/Examples/Receivers.antt =====
-- A payload on its way from the raw socket sender of one node to the receiver of another.
use tetrapod.Base.{
  ℕ, ◌≡◌, ◌≤◌, ◌<◌, refl, ap, Bool, true, false, List, [], ◌∷◌, ◌++◌, Option, none, some, map, elem,
  length, arith,
}
use tetrapod.Base.Bytes.{Bytes}
use tetrapod.Base.Netip.{Addr, Addr-discrete, unmap}
use tetrapod.Pkg.Syncmap.{from_slice}
use tetrapod.Hijack.Receiver.{
  Layers, Receiver, got, Sent, channel_cap, max_len, receive_frame, receive_event, recv, refresh,
  send, send_ip4,
}
use tetrapod.Hijack.Receiver.Delivery.{message, from_port, send-receive_frame}
use tetrapod.Examples.Packets.{here, there}

abbrev payload : Bytes
payload = 128 ∷ 1 ∷ []

abbrev layers : Layers
layers = record {
  ip4 = some (here.addr, there.addr);
  ip6 = none;
  src_port = 4000;
  payload = payload;
}

abbrev decode : Bytes → Option Layers
decode f = some layers

abbrev route : Addr → Option Addr
route a = some here.addr

abbrev fresh : Receiver
fresh = record { addrs = []; ch = []; closed = false }

abbrev own : List Addr
own = there.addr ∷ []

abbrev refreshed : Receiver
refreshed = record fresh { addrs = from_slice Addr-discrete (map unmap own) }

abbrev frame : Bytes
frame = 1 ∷ 2 ∷ 3 ∷ []

is_refreshed : refresh (some own) fresh ≡ some refreshed
unfolding refresh
is_refreshed = refl

frame_fits : length frame ≤ max_len
frame_fits = omega arith

is_decoded :
    (sent : Sent) → send route 4000 payload there ≡ some sent → decode frame ≡ some sent.layers
unfolding send send_ip4 unmap
is_decoded sent e =
    let same : record { layers = layers; dst = there } ≡ sent = cc in ap (λ s. some s.layers) same

routed : route (unmap there.addr) ≡ some here.addr
routed = refl

send-receive_frame_example :
    let end = receive_frame decode frame refreshed in
    let is_own = elem Addr-discrete (unmap there.addr) (map unmap own) in
    (is_own ≡ true
      → length fresh.ch < channel_cap
      → end.ch ≡ [] ++ message here.addr 4000 payload ∷ [])
    × (is_own ≡ true
        → fresh.ch ≡ []
        → fresh.closed ≡ false
        → (prefers_closed : Bool) (size : ℕ) → length payload ≤ size
        → (after : Receiver) × (recv prefers_closed size end
            ≡ got payload (length payload) (from_port here.addr 4000) after))
    × (is_own ≡ false → end ≡ refreshed)
    × (receive_event decode (length frame) frame refreshed ≡ end)
send-receive_frame_example =
    send-receive_frame decode route 4000 payload there here.addr own fresh refreshed frame routed
      is_decoded frame_fits is_refreshed
