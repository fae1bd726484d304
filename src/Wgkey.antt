-- ===== src/Wgkey.antt =====
-- pkg/wgkey/disco.go: disco keys and the box that encrypts with them. NaCl's box, the Curve25519 public
-- key and the random source are not the program's own: `Box` is what it relies on, with the documented laws.
use tetrapod.Base.{ℕ, ◌≡◌, ◌++◌, Option, none, some, ltb, ◌==◌, if◌then◌else◌, length, take, drop}
use tetrapod.Base.{arith, take-append, drop-append, length-append}
use tetrapod.Base.Bytes.{Bytes}

pub record Box : Type 0 where
  -- wgtypes.Key.PublicKey and box.Precompute (public key first).
  pub public_key : Bytes → Bytes
  pub precompute : Bytes → Bytes → Bytes
  -- box.SealAfterPrecomputation and box.OpenAfterPrecomputation: message, nonce, shared key.
  pub seal : Bytes → Bytes → Bytes → Bytes
  pub open_box : Bytes → Bytes → Bytes → Option Bytes
  pub open_seal : (m n k : Bytes) → length n ≡ 24 → open_box (seal m n k) n k ≡ some m
  -- Both ends of a key exchange compute one shared key.
  pub exchange : (a b : Bytes) → precompute (public_key b) a ≡ precompute (public_key a) b

abbrev pub nonce_len : ℕ
nonce_len = 24

-- Parse, and (DiscoPublicKey).Unmarshal: `decode` is base64's StdEncoding.DecodeString.
unfoldable pub parse : (Bytes → Option Bytes) → Bytes → Option Bytes
parse decode encoded = elim (decode encoded) [
  | none ↦ none
  | some b ↦ if length b == 32 then some b else none
]

module _ (box : Box) where
  -- (DiscoPrivateKey).Shared
  unfoldable pub shared : Bytes → Bytes → Bytes
  shared priv pub_key = box.precompute pub_key priv

  -- `random` is what the random source filled the nonce with, `none` when reading it failed.
  unfoldable pub encrypt : Option Bytes → Bytes → Bytes → Option Bytes
  encrypt none key cleartext = none
  encrypt (some nonce) key cleartext = some (nonce ++ box.seal cleartext nonce key)

  unfoldable pub decrypt : Bytes → Bytes → Option Bytes
  decrypt key ciphertext =
      if ltb (length ciphertext) nonce_len
      then none
      else box.open_box (drop nonce_len ciphertext) (take nonce_len ciphertext) key

  -- What was encrypted under a full nonce decrypts to the cleartext, under the same key.
  pub decrypt-encrypt :
      (key clear nonce : Bytes) {cipher : Bytes}
      → length nonce ≡ 24
      → encrypt (some nonce) key clear ≡ some cipher
      → decrypt key cipher ≡ some clear
  unfolding encrypt decrypt
  decrypt-encrypt key clear nonce {cipher} full e =
      let split : nonce ++ box.seal clear nonce key ≡ cipher = cc in
      rw (← split) (
        ground (
          arith,
          length-append nonce (box.seal clear nonce key),
          take-append 24 nonce (box.seal clear nonce key) full,
          drop-append 24 nonce (box.seal clear nonce key) full,
          box.open_seal clear nonce key full,
        ))
