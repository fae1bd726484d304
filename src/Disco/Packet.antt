-- ===== src/Disco/Packet.antt =====
-- disco/packet.go: the disco packet, its encryption and its wire format. A byte array or slice is a list
-- of bytes. A method that fills its receiver returns the new receiver, with its Boolean result.
pub mod Wire
pub mod Secrecy
use tetrapod.Base.{
  ℕ, Bool, true, false, ◌||◌, List, [], ◌∷◌, ◌++◌, Option, none, some, ltb, ◌==◌, if◌then◌else◌,
  is_yes, length, take, drop, ◌+◌,
}
use tetrapod.Base.Bytes.{Bytes, Bytes-discrete}
use tetrapod.Base.Words.{put_uint32, uint32}
use tetrapod.Base.Netip.{AddrPort}
use tetrapod.Wgkey.{Box, encrypt, decrypt}

-- A DiscoPacketHeader is one byte.
abbrev pub ping_message : ℕ
ping_message = 128

abbrev pub pong_message : ℕ
pong_message = 129

abbrev pub key_len : ℕ
key_len = 32

pub record EncryptedDiscoPacket : Type 0 where
  pub header : ℕ
  pub src_public_disco_key : Bytes
  pub encrypted_payload : Bytes
  pub endpoint : AddrPort

pub record DiscoPacket : Type 0 where
  pub header : ℕ
  pub src_public_disco_key : Bytes
  pub endpoint_id : ℕ  -- uint32
  pub id : ℕ  -- uint32
  pub endpoint : AddrPort
  pub shared_key : Bytes

unfoldable pub marshal : EncryptedDiscoPacket → Option Bytes
marshal d =
    if d.header == ping_message || d.header == pong_message
    then some (d.header ∷ (d.src_public_disco_key ++ d.encrypted_payload))
    else none

-- `b[0]`; the caller has checked the length.
abbrev first_byte : Bytes → ℕ
first_byte [] = 0
first_byte (b ∷ bs) = b

unfoldable pub unmarshal : EncryptedDiscoPacket → Bytes → EncryptedDiscoPacket × Bool
unmarshal d b = if ltb (length b) (1 + key_len) then (d, false) else (
  record d {
    header = first_byte b;
    src_public_disco_key = take key_len (drop 1 b);
    encrypted_payload = drop (1 + key_len) b;
  },
  true,
)

-- The 40 bytes that are encrypted: endpoint id, packet id, sender's key.
abbrev pub payload : DiscoPacket → Bytes
payload d = put_uint32 d.endpoint_id ++ (put_uint32 d.id ++ d.src_public_disco_key)

-- The ciphertext in its envelope.
abbrev sealed : DiscoPacket → Option Bytes → Option EncryptedDiscoPacket
sealed d none = none
sealed d (some ciphertext) = some (record {
  header = d.header;
  src_public_disco_key = d.src_public_disco_key;
  encrypted_payload = ciphertext;
  endpoint = d.endpoint;
})

-- What Decrypt reads from a decrypted payload. A payload of a wrong length leaves `d` as it was; a
-- key that is not the sender's is found after the other fields are written.
abbrev opened : DiscoPacket → EncryptedDiscoPacket → Option Bytes → DiscoPacket × Bool
opened d e none = (d, false)
opened d e (some p) =
    let read = record d {
      header = e.header;
      src_public_disco_key = e.src_public_disco_key;
      endpoint_id = uint32 (take 4 p);
      id = uint32 (take 4 (drop 4 p));
    } in
    if ltb (length p) 40
    then (d, false)
    else if is_yes (Bytes-discrete (drop 8 p) e.src_public_disco_key)
    then (record read { endpoint = e.endpoint }, true)
    else (read, false)

module _ (box : Box) where
  unfoldable pub encrypt_packet : Option Bytes → DiscoPacket → Option EncryptedDiscoPacket
  unfolding encrypt
  encrypt_packet random d = sealed d (encrypt box random d.shared_key (payload d))

  unfoldable pub decrypt_packet : DiscoPacket → EncryptedDiscoPacket → DiscoPacket × Bool
  unfolding decrypt
  decrypt_packet d e = opened d e (decrypt box d.shared_key e.encrypted_payload)
