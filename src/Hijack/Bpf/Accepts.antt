-- ===== src/Hijack/Bpf/Accepts.antt =====
-- Which packets the filter keeps.
use Prim.Native.Nat.{bit_and}
use tetrapod.Base.{
  ℕ, ◌+◌, ◌*◌, ◌%◌, ◌^◌, ◌≡◌, ap, Bool, false, not, ◌&&◌, ◌||◌, [], ◌∷◌, Option, none, some, ◌==◌,
  if◌then◌else◌, drop, arith, Option-cases, inl, inr,
}
use tetrapod.Base.Bytes.{Bytes}
use tetrapod.Hijack.Bpf.{
  jump_equal, Machine, read, magic_cookie, udp_instructions, generate_instructions,
}

-- The number of that size at an offset is there, and is the value.
abbrev pub has : Bytes → ℕ → ℕ → ℕ → Bool
has p off size v = elim (read p off size) [ none ↦ false | some w ↦ w == v ]

-- The number at an offset is there, and has one of the bits.
abbrev pub has_bits : Bytes → ℕ → ℕ → ℕ → Bool
has_bits p off size bits = elim (read p off size) [
  | none ↦ false
  | some w ↦ not (bit_and w bits == 0)
]

-- The number at an offset is there, and has none of the bits.
abbrev pub lacks_bits : Bytes → ℕ → ℕ → ℕ → Bool
lacks_bits p off size bits = elim (read p off size) [ none ↦ false | some w ↦ bit_and w bits == 0 ]

-- A UDP header at the offset has the port, and its payload starts with a byte whose highest bit is
-- set, as disco's packets do, or has STUN's cookie at its place.
abbrev pub is_ours : ℕ → ℕ → Bytes → Bool
is_ours port at p =
    has p (at + 2) 2 port
    && (has_bits p (at + 8) 1 128
        || (lacks_bits p (at + 8) 1 128 && has p (at + 12) 4 magic_cookie))

-- The length of the IPv4 header, from the packet's fifteenth byte.
abbrev pub ip4_header : Bytes → Option ℕ
ip4_header p = elim (read p 14 1) [ none ↦ none | some v ↦ some (4 * (v % 16)) ]

-- One byte is read as itself.
pub read_byte : (p rest : Bytes) (off c : ℕ) → drop off p ≡ c ∷ rest → read p off 1 ≡ some c
unfolding read
read_byte p rest off c h = rw h (ap some (omega arith))

-- UDP to the port over IPv6, with no other header between, or over IPv4 with no fragment offset.
abbrev pub is_wanted : ℕ → Bytes → Bool
is_wanted port p =
    (has p 12 2 0x86dd && (has p 20 1 17 && is_ours port 54 p))
    || (has p 12 2 0x800
        && (has p 23 1 17
            && (lacks_bits p 20 2 0x1fff
                && elim (ip4_header p) [ none ↦ false | some n ↦ is_ours port (14 + n) p ])))

-- The offset of the UDP header does not wrap around.
header_small : (v : ℕ) → (14 + 4 * (v % 16)) % 2 ^ 32 ≡ 14 + 4 * (v % 16)
header_small v = omega arith

module _ (m : Machine) where
  run_udp :
      (port a x : ℕ) (p : Bytes)
      → m.run (udp_instructions port) a x p ≡ (if is_ours port x p then 2 ^ 18 else 0)
  run_udp port a x p = simp (m.run_load_indirect, m.run_jump_if, m.run_ret_constant) (ground arith)

  run_ip6 :
      (port a x : ℕ) (p : Bytes)
      → m.run (drop 2 (generate_instructions port)) a x p
        ≡ (if has p 20 1 17 && is_ours port 54 p then 2 ^ 18 else 0)
  run_ip6 port a x p =
      simp
        (
          m.run_load_absolute, m.run_jump_if, m.run_load_constant_x, m.run_jump, m.run_ret_constant,
          run_udp,
        )
        (ground arith)

  run_ip4 :
      (port a x : ℕ) (p : Bytes)
      → m.run (drop 7 (generate_instructions port)) a x p ≡ (
          if (has p 23 1 17
            && (lacks_bits p 20 2 0x1fff
                && elim (ip4_header p) [ none ↦ false | some n ↦ is_ours port (14 + n) p ]))
          then 2 ^ 18
          else 0)
  run_ip4 port a x p =
      simp
        (
          m.run_load_absolute, m.run_jump_if, m.run_load_mem_shift, m.run_load_constant_a,
          m.run_add, m.run_tax, m.run_ret_constant, run_udp, header_small,
        )
        (ground arith)

  -- The filter keeps the first 2^18 bytes of the packets that are wanted, and nothing of any other packet:
  -- wanted are UDP packets to the port, over IPv6 or as the first fragment over IPv4, whose
  -- payload starts with a byte with its highest bit set or holds STUN's cookie.
  pub generate_instructions_accept :
      (port : ℕ) (p : Bytes)
      → m.run (generate_instructions port) 0 0 p ≡ (if is_wanted port p then 2 ^ 18 else 0)
  generate_instructions_accept port p =
      let program = generate_instructions port in
      elim (Option-cases (read p 12 2)) [
        | inl e ↦ ground (arith, m.run_load_absolute 12 2 (drop 1 program) 0 0 p)
        | inr (v, e) ↦ ground (
          arith,
          m.run_load_absolute 12 2 (drop 1 program) 0 0 p,
          m.run_jump_if jump_equal 0x86dd 0 4 (drop 2 program) v 0 p,
          m.run_jump_if jump_equal 0x800 0 15 (drop 7 program) v 0 p,
          m.run_ret_constant 0 [] v 0 p,
          run_ip6 port v 0 p,
          run_ip4 port v 0 p,
        )
      ]
