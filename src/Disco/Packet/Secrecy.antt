-- ===== src/Disco/Packet/Secrecy.antt =====
-- Encryption of disco packets: what a peer sends is what the other reads, and what is accepted is genuine.
use tetrapod.Base.{
  ◌≡◌, refl, ◌<◌, ◌^◌, true, ◌∷◌, ◌++◌, some, length, arith, ◌⊎◌, inl, inr, drop, length-drop,
  Option-cases, ◌↔◌,
}
use tetrapod.Base.Bytes.{Bytes}
use tetrapod.Base.Words.{uint32-put_uint32}
use tetrapod.Base.Netip.{AddrPort}
use tetrapod.Wgkey.{Box, shared, encrypt, decrypt, decrypt-encrypt}
use tetrapod.Disco.Packet.{
  DiscoPacket, EncryptedDiscoPacket, ping_message, pong_message, key_len, marshal, unmarshal,
  payload, opened, encrypt_packet, decrypt_packet,
}
use tetrapod.Disco.Packet.Wire.{unmarshal-marshal}

-- What a packet's fields must be to be sent: 32-bit numbers and a whole key.
pub record IsSendable (p : DiscoPacket) : Type 0 where
  pub endpoint_id_word : p.endpoint_id < 2 ^ 32
  pub id_word : p.id < 2 ^ 32
  pub key_full : length p.src_public_disco_key ≡ key_len

-- The receiver reads a sender's payload.
opened-payload :
    (d p : DiscoPacket) (e : EncryptedDiscoPacket)
    → IsSendable p
    → e.src_public_disco_key ≡ p.src_public_disco_key
    → opened d e (some (payload p)) ≡ (
      record d {
        header = e.header;
        src_public_disco_key = p.src_public_disco_key;
        endpoint_id = p.endpoint_id;
        id = p.id;
        endpoint = e.endpoint;
      },
      true,
    )
opened-payload d p e s k =
    ground
      (arith, uint32-put_uint32 p.endpoint_id s.endpoint_id_word, uint32-put_uint32 p.id s.id_word)

module _ (box : Box) where
  -- Decryption under the same shared key gives back the fields that were encrypted.
  decrypt_packet-encrypt_packet :
      (p d : DiscoPacket) (e : EncryptedDiscoPacket) (nonce cipher : Bytes)
      → IsSendable p
      → length nonce ≡ 24
      → d.shared_key ≡ p.shared_key
      → e.src_public_disco_key ≡ p.src_public_disco_key
      → e.encrypted_payload ≡ cipher
      → encrypt box (some nonce) p.shared_key (payload p) ≡ some cipher
      → decrypt_packet box d e ≡ (
        record d {
          header = e.header;
          src_public_disco_key = p.src_public_disco_key;
          endpoint_id = p.endpoint_id;
          id = p.id;
          endpoint = e.endpoint;
        },
        true,
      )
  unfolding decrypt_packet
  decrypt_packet-encrypt_packet p d e nonce cipher s full same k body enc =
      let read : decrypt box d.shared_key e.encrypted_payload ≡ some (payload p) =
        cc (body, same, decrypt-encrypt box p.shared_key (payload p) nonce full enc) in
      rw read (opened-payload d p e s k)

  -- The envelope that encryption under a full nonce makes.
  abbrev pub envelope : Bytes → DiscoPacket → EncryptedDiscoPacket
  envelope nonce p = record {
    header = p.header;
    src_public_disco_key = p.src_public_disco_key;
    encrypted_payload = nonce ++ box.seal (payload p) nonce p.shared_key;
    endpoint = p.endpoint;
  }

  pub encrypt_packet-envelope :
      (nonce : Bytes) (p : DiscoPacket)
      → encrypt_packet box (some nonce) p ≡ some (envelope nonce p)
  unfolding encrypt_packet
  encrypt_packet-envelope nonce p = refl

  pub decrypt_packet-envelope :
      (p d : DiscoPacket) (nonce : Bytes) (from : AddrPort)
      → IsSendable p
      → length nonce ≡ 24
      → d.shared_key ≡ p.shared_key
      → decrypt_packet box d (record (envelope nonce p) { endpoint = from }) ≡ (
        record d {
          header = p.header;
          src_public_disco_key = p.src_public_disco_key;
          endpoint_id = p.endpoint_id;
          id = p.id;
          endpoint = from;
        },
        true,
      )
  unfolding encrypt
  decrypt_packet-envelope p d nonce from s full same =
      decrypt_packet-encrypt_packet p d (record (envelope nonce p) { endpoint = from }) nonce
        (nonce ++ box.seal (payload p) nonce p.shared_key) s full same refl refl refl

  -- A ping or pong that one peer encrypts for another, with any full nonce, has a wire form, and the
  -- other peer, from whatever address the bytes arrive, decrypts it to the same header, sender's key,
  -- endpoint id and packet id, with the address of arrival as its endpoint.
  pub packet_delivered :
      (a b : Bytes) (p d : DiscoPacket) (arrived : EncryptedDiscoPacket) (nonce : Bytes)
      → p.shared_key ≡ shared box a (box.public_key b)
      → d.shared_key ≡ shared box b (box.public_key a)
      → IsSendable p
      → (p.header ≡ ping_message) ⊎ (p.header ≡ pong_message)
      → length nonce ≡ 24
      → (e : EncryptedDiscoPacket) × (wire : Bytes) × (encrypt_packet box (some nonce) p ≡ some e)
        × (marshal e ≡ some wire)
        × (decrypt_packet box d (unmarshal arrived wire).0 ≡ (
          record d {
            header = p.header;
            src_public_disco_key = p.src_public_disco_key;
            endpoint_id = p.endpoint_id;
            id = p.id;
            endpoint = arrived.endpoint;
          },
          true,
        ))
  unfolding encrypt_packet marshal shared
  packet_delivered a b p d arrived nonce ka kb s h full = (e, wire, refl, written, read)
    where
      cipher : Bytes
      cipher = nonce ++ box.seal (payload p) nonce p.shared_key

      e : EncryptedDiscoPacket
      e = record {
        header = p.header;
        src_public_disco_key = p.src_public_disco_key;
        encrypted_payload = cipher;
        endpoint = p.endpoint;
      }

      wire : Bytes
      wire = p.header ∷ (p.src_public_disco_key ++ cipher)

      written : marshal e ≡ some wire
      written = ground arith

      same : d.shared_key ≡ p.shared_key
      same = cc (box.exchange b a)

      read : decrypt_packet box d (unmarshal arrived wire).0 ≡ (
        record d {
          header = p.header;
          src_public_disco_key = p.src_public_disco_key;
          endpoint_id = p.endpoint_id;
          id = p.id;
          endpoint = arrived.endpoint;
        },
        true,
      )
      read = rw (unmarshal-marshal e arrived wire s.key_full written) (
          decrypt_packet-encrypt_packet p d (record e { endpoint = arrived.endpoint }) nonce cipher
            s full same refl refl refl)

  -- Decrypt accepts a packet exactly when its payload opens under the shared key to 40 bytes that
  -- end in the sender's key as the envelope names it.
  pub decrypt_packet_accepts :
      (d : DiscoPacket) (e : EncryptedDiscoPacket)
      → length e.src_public_disco_key ≡ key_len
      → ((decrypt_packet box d e).1 ≡ true) ↔ (
          (p : Bytes) × (decrypt box d.shared_key e.encrypted_payload ≡ some p)
          × (length p ≡ 40)
          × (drop 8 p ≡ e.src_public_disco_key))
  unfolding decrypt_packet
  decrypt_packet_accepts d e full = (accepted, accepts)
    where
      accepted :
          (decrypt_packet box d e).1 ≡ true
          → (p : Bytes) × (decrypt box d.shared_key e.encrypted_payload ≡ some p)
            × (length p ≡ 40)
            × (drop 8 p ≡ e.src_public_disco_key)
      accepted h = elim (Option-cases (decrypt box d.shared_key e.encrypted_payload)) [
        | inl q ↦ absurd (ground arith)
        | inr (p, q) ↦ (p, q, ground (arith, length-drop 8 p), ground arith)
      ]

      accepts :
          ((p : Bytes) × (decrypt box d.shared_key e.encrypted_payload ≡ some p)
            × (length p ≡ 40)
            × (drop 8 p ≡ e.src_public_disco_key))
          → (decrypt_packet box d e).1 ≡ true
      accepts (p, q, n, k) = rw q (ground arith)
