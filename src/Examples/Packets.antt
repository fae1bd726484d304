-- ===== src/Examples/Packets.antt =====
-- disco/packet.go and pkg/wgkey at work, over a toy cipher.
use tetrapod.Base.{
  ℕ, ◌+◌, ◌≡◌, refl, inl, true, false, [], ◌∷◌, ◌++◌, Option, none, some, arith, length, take, drop,
  replicate, take-append, drop-append, if◌then◌else◌, is_yes,
}
use tetrapod.Base.Bytes.{Bytes, Bytes-discrete}
use tetrapod.Base.Netip.{AddrPort, ip4}
use tetrapod.Wgkey.{Box, shared}
use tetrapod.Disco.Packet.{
  DiscoPacket, EncryptedDiscoPacket, ping_message, marshal, unmarshal, encrypt_packet,
  decrypt_packet,
}
use tetrapod.Disco.Packet.Wire.{unmarshal-marshal}
use tetrapod.Disco.Packet.Secrecy.{IsSendable, packet_delivered}

abbrev pub total : Bytes → ℕ
total [] = 0
total (b ∷ bs) = b + total bs

-- The key goes in front of the message, and is looked for when the box is opened.
abbrev pub toy_open : Bytes → Bytes → Bytes → Option Bytes
toy_open c n k =
    if is_yes (Bytes-discrete (take (length k) c) k) then some (drop (length k) c) else none

pub toy_open_seal : (m n k : Bytes) → length n ≡ 24 → toy_open (k ++ m) n k ≡ some m
toy_open_seal m n k h =
    ground (arith, take-append (length k) k m refl, drop-append (length k) k m refl)

pub toy_exchange : (a b : Bytes) → (total b + total a) ∷ [] ≡ (total a + total b) ∷ []
toy_exchange a b = ground arith

abbrev pub toy_box : Box
toy_box = record {
  public_key = λ a. a;
  precompute = λ a b. (total a + total b) ∷ [];
  seal = λ m n k. k ++ m;
  open_box = toy_open;
  open_seal = toy_open_seal;
  exchange = toy_exchange;
}

abbrev pub here : AddrPort
here = record { addr = ip4 0x0a000001; port = 4000 }

abbrev pub there : AddrPort
there = record { addr = ip4 0x0a000002; port = 5000 }

abbrev pub nonce : Bytes
nonce = replicate 24 9

abbrev pub alice : Bytes
alice = replicate 32 1

abbrev pub bob : Bytes
bob = replicate 32 2

abbrev envelope : EncryptedDiscoPacket
envelope = record {
  header = ping_message;
  src_public_disco_key = alice;
  encrypted_payload = 5 ∷ 6 ∷ [];
  endpoint = there;
}

abbrev blank_envelope : EncryptedDiscoPacket
blank_envelope = record envelope { header = 0; encrypted_payload = []; endpoint = here }

abbrev envelope_bytes : Bytes
envelope_bytes = 128 ∷ (alice ++ 5 ∷ 6 ∷ [])

marshal-envelope : marshal envelope ≡ some envelope_bytes
unfolding marshal
marshal-envelope = refl

marshal_unknown_header : marshal blank_envelope ≡ none
unfolding marshal
marshal_unknown_header = refl

unmarshal_short : unmarshal envelope (129 ∷ 1 ∷ []) ≡ (envelope, false)
unfolding unmarshal
unmarshal_short = refl

unmarshal-marshal_example :
    unmarshal blank_envelope envelope_bytes ≡ (record envelope { endpoint = here }, true)
unmarshal-marshal_example =
    unmarshal-marshal envelope blank_envelope envelope_bytes refl marshal-envelope

abbrev pub alice_ping : DiscoPacket
alice_ping = record {
  header = ping_message;
  src_public_disco_key = alice;
  endpoint_id = 7;
  id = 300;
  endpoint = there;
  shared_key = 96 ∷ [];
}

abbrev bob_blank : DiscoPacket
bob_blank = record alice_ping { header = 0; src_public_disco_key = []; endpoint_id = 0; id = 0 }

alice_ping-IsSendable : IsSendable alice_ping
alice_ping-IsSendable = omega arith

packet_delivered_example :
    (e : EncryptedDiscoPacket) × (wire : Bytes) × (encrypt_packet toy_box (some nonce) alice_ping
      ≡ some e)
    × (marshal e ≡ some wire)
    × (decrypt_packet toy_box bob_blank (unmarshal blank_envelope wire).0
        ≡ (record alice_ping { endpoint = here }, true))
unfolding shared
packet_delivered_example =
    packet_delivered toy_box alice bob alice_ping bob_blank blank_envelope nonce refl refl
      alice_ping-IsSendable (inl refl) refl
