-- ===== src/Disco/Packet/Wire.antt =====
-- The wire format of EncryptedDiscoPacket: Marshal and Unmarshal are inverse to one another.
use tetrapod.Base.{
  ◌≡◌, true, [], ◌∷◌, ◌++◌, some, length, arith, ◌⊎◌, length-append, take-append, drop-append,
  take-append-drop,
}
use tetrapod.Base.Bytes.{Bytes}
use tetrapod.Disco.Packet.{
  EncryptedDiscoPacket, ping_message, pong_message, key_len, marshal, unmarshal,
}

-- Unmarshal reads back what Marshal wrote; only the endpoint, which is not sent, is the receiver's.
pub unmarshal-marshal :
    (p d : EncryptedDiscoPacket) (b : Bytes)
    → length p.src_public_disco_key ≡ key_len
    → marshal p ≡ some b
    → unmarshal d b ≡ (record p { endpoint = d.endpoint }, true)
unfolding marshal unmarshal
unmarshal-marshal p d b full e =
    let key : Bytes = p.src_public_disco_key in
    let rest : Bytes = p.encrypted_payload in
    let written : p.header ∷ (key ++ rest) ≡ b = ground arith in
    rw (← written) (
      ground
        (arith, length-append key rest, take-append 32 key rest full, drop-append 32 key rest full))

-- Whatever Unmarshal accepts with a known header, Marshal writes as the very same bytes.
pub marshal-unmarshal :
    (d : EncryptedDiscoPacket) (b : Bytes)
    → (unmarshal d b).1 ≡ true
    → ((unmarshal d b).0.header ≡ ping_message) ⊎ ((unmarshal d b).0.header ≡ pong_message)
    → marshal (unmarshal d b).0 ≡ some b
unfolding marshal unmarshal
marshal-unmarshal d [] ok h = ground arith
marshal-unmarshal d (x ∷ b) ok h = ground (arith, take-append-drop 32 b)
