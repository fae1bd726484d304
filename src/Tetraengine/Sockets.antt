-- ===== src/Tetraengine/Sockets.antt =====
-- How tetraengine shares its socket (init in tetraengine/tetraengine.go), and NewCollector in
-- pkg/endpoints/endpoints.go that half of it that disco does not take.
use Prim.Native.Nat.{bit_and}
use tetrapod.Base.{
  ℕ, ◌+◌, ◌^◌, ◌&&◌, ◌||◌, none, ◌≡◌, refl, sym, Option, Bool, true, false, not, List, [], ◌∷◌,
  ◌++◌, some, ◌==◌, drop, arith, inl, inr, Bool-cases, ◌∙◌,
}
use tetrapod.Base.Bytes.{Bytes}
use tetrapod.Base.Netip.{AddrPort, unmap, is4}
use tetrapod.Disco.Packet.{EncryptedDiscoPacket, marshal, ping_message}
use tetrapod.Hijack.Bpf.Accepts.{
  has, lacks_bits, is_ours, ip4_header, is_wanted, read_byte, generate_instructions_accept,
}
use tetrapod.Hijack.Bpf.{Machine, generate_instructions}
use tetrapod.Pkg.Splitconn.{Packet, Conn, add}
use tetrapod.Pkg.Splitconn.Routing.{goes_to}

-- The filter of discoConn: a first byte with its highest bit.
abbrev pub disco_filter : Packet → Bool
disco_filter pkt = elim pkt.b [ [] ↦ false | c ∷ cs ↦ not (bit_and c 0x80 == 0) ]

abbrev any_packet : Packet → Bool
any_packet pkt = true

-- splitter, with discoConn and stunConn.
unfoldable pub splitter : List Conn
unfolding add
splitter = add any_packet (add disco_filter [])

abbrev from_ip4 : Packet → Bool
from_ip4 pkt = is4 (unmap pkt.addr.addr)

-- bundler of NewCollector, with v4Conn and v6Conn.
unfoldable pub bundler : List Conn
unfolding add
bundler = add any_packet (add from_ip4 [])

marshal_first_byte :
    (e : EncryptedDiscoPacket) (wire : Bytes)
    → marshal e ≡ some wire
    → (c : ℕ) × (rest : Bytes) × (wire ≡ c ∷ rest) × ((bit_and c 128 == 0) ≡ false)
unfolding marshal
marshal_first_byte e wire m =
    (e.header, e.src_public_disco_key ++ e.encrypted_payload, ground arith, high)
  where
    high : (bit_and e.header 128 == 0) ≡ false
    high = elim (Bool-cases (e.header == ping_message)) [
      | inl h ↦ let n : e.header ≡ 128 = ground arith in rw n refl
      | inr h ↦ let n : e.header ≡ 129 = ground arith in rw n refl
    ]

-- The frame has a UDP header at the offset: right behind an IPv6 header, or behind an IPv4 header, of
-- whatever length, of a packet with no fragment offset.
abbrev pub has_udp_header : ℕ → Bytes → Bool
has_udp_header at frame =
    (has frame 12 2 0x86dd && (has frame 20 1 17 && at == 54))
    || (has frame 12 2 0x800
        && (has frame 23 1 17
            && (lacks_bits frame 20 2 0x1fff
                && elim (ip4_header frame) [ none ↦ false | some n ↦ at == 14 + n ])))

there_wanted :
    (wanted : ℕ → Bool) (at k : ℕ) → (at == k) ≡ true → wanted at ≡ true → wanted k ≡ true
there_wanted wanted at k h w = let same : at ≡ k = ground arith in rw (sym same) w

behind_wanted :
    (wanted : ℕ → Bool) (at : ℕ) (header : Option ℕ)
    → elim header [ none ↦ false | some n ↦ at == 14 + n ] ≡ true
    → wanted at ≡ true
    → elim header [ none ↦ false | some n ↦ wanted (14 + n) ] ≡ true
behind_wanted wanted at none h w = absurd (ground arith)
behind_wanted wanted at (some n) h w = there_wanted wanted at (14 + n) h w

either_grows :
    (a b c d e x x' y y' : Bool)
    → (x ≡ true → x' ≡ true)
    → (y ≡ true → y' ≡ true)
    → ((a && (b && x)) || (c && (d && (e && y)))) ≡ true
    → ((a && (b && x')) || (c && (d && (e && y')))) ≡ true
either_grows a b c d e x x' y y' f g h = elim (Bool-cases x) [
  | inl t ↦ elim (Bool-cases y) [ inl u ↦ ground (arith, f t, g u) | inr u ↦ ground (arith, f t) ]
  | inr t ↦ elim (Bool-cases y) [ inl u ↦ ground (arith, g u) | inr u ↦ absurd (ground arith) ]
]

has_udp_header-is_wanted :
    (port at : ℕ) (frame : Bytes)
    → has_udp_header at frame ≡ true
    → is_ours port at frame ≡ true
    → is_wanted port frame ≡ true
has_udp_header-is_wanted port at frame h o =
    let wanted : ℕ → Bool = λ n. is_ours port n frame in
    either_grows (has frame 12 2 0x86dd) (has frame 20 1 17) (has frame 12 2 0x800)
      (has frame 23 1 17) (lacks_bits frame 20 2 0x1fff) (at == 54) (is_ours port 54 frame) _ _
      (λ e. there_wanted wanted at 54 e o) (λ e. behind_wanted wanted at (ip4_header frame) e o) h

-- Run on any machine, the filter of the raw socket keeps a frame that carries what EncryptedDiscoPacket.Marshal
-- writes to the port in UDP, right behind the IPv6 header, or behind the IPv4 header and with no fragment
-- offset; and the splitter gives what was written to disco and not to STUN.
pub marshal_passes_filter :
    (m : Machine) (e : EncryptedDiscoPacket) (wire : Bytes) (from : AddrPort) (port at : ℕ)
    (frame : Bytes)
    → marshal e ≡ some wire
    → has_udp_header at frame ≡ true
    → has frame (at + 2) 2 port ≡ true
    → drop (at + 8) frame ≡ wire
    → (m.run (generate_instructions port) 0 0 frame ≡ 2 ^ 18)
      × (goes_to 0 splitter (record { b = wire; addr = from }) ≡ true)
      × (goes_to 1 splitter (record { b = wire; addr = from }) ≡ false)
unfolding goes_to splitter
marshal_passes_filter m e wire from port at frame w u h payload =
    let (c, rest, shape, high) = marshal_first_byte e wire w in
    let first = read_byte frame rest (at + 8) c (payload ∙ shape) in
    let ours : is_ours port at frame ≡ true = ground (arith, first) in
    (
      generate_instructions_accept m port frame
          ∙ rw (has_udp_header-is_wanted port at frame u ours) refl,
      ground arith,
      ground arith,
    )
