-- ===== src/Base/Words.antt =====
-- Big-endian 32-bit words (encoding/binary), over lists of bytes.
use Prim.Native.Nat.{ℕ, ◌+◌, ◌*◌, ◌/◌, ◌%◌, ◌^◌, ◌<◌}
use mathlib.Core.Path.{◌≡◌}
use mathlib.Core.List.{List, [], ◌∷◌}
use native.Mathlib.Omega.{arith}

-- The bytes that PutUint32 writes, the most significant first.
abbrev pub put_uint32 : ℕ → List ℕ
put_uint32 v = (v / 2 ^ 24 % 256) ∷ (v / 2 ^ 16 % 256) ∷ (v / 2 ^ 8 % 256) ∷ (v % 256) ∷ []

-- The number that Uint32 reads from four bytes. Callers check that there are four.
abbrev pub uint32 : List ℕ → ℕ
uint32 (a ∷ b ∷ c ∷ d ∷ r) = a * 2 ^ 24 + b * 2 ^ 16 + c * 2 ^ 8 + d
uint32 _ = 0

pub uint32-put_uint32 : (v : ℕ) → v < 2 ^ 32 → uint32 (put_uint32 v) ≡ v
uint32-put_uint32 v h = omega arith
