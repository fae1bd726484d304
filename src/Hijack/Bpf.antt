-- ===== src/Hijack/Bpf.antt =====
-- pkg/hijack/receiver/rawsockrecv/bpf.go: the packet filter of the raw socket. The instructions are those
-- of golang.org/x/net/bpf; the machine that runs them is the kernel's own: `Machine` states what each
-- instruction does, from the accumulator and the index register to the number of bytes kept.
pub mod Accepts
use Prim.Native.Nat.{bit_and}
use tetrapod.Base.{
  ℕ, zero, suc, ◌+◌, ◌*◌, ◌%◌, ◌^◌, ◌≡◌, Bool, true, false, not, List, [], ◌∷◌, Option, none, some,
  ◌==◌, if◌then◌else◌, drop,
}
use tetrapod.Base.Bytes.{Bytes}

pub data Condition : Type 0 where
  jump_equal : Condition
  jump_bits_set : Condition

pub data Instruction : Type 0 where
  load_absolute : ℕ → ℕ → Instruction  -- offset, size
  load_indirect : ℕ → ℕ → Instruction
  load_mem_shift : ℕ → Instruction
  load_constant_a : ℕ → Instruction
  load_constant_x : ℕ → Instruction
  alu_op_x_add : Instruction
  tax : Instruction
  jump : ℕ → Instruction
  jump_if : Condition → ℕ → ℕ → ℕ → Instruction  -- value, skip if true, skip if false
  ret_constant : ℕ → Instruction

-- The big-endian number of the first bytes; none when there are too few.
abbrev pub big_endian : ℕ → ℕ → Bytes → Option ℕ
big_endian zero acc p = some acc
big_endian (suc n) acc [] = none
big_endian (suc n) acc (b ∷ p) = big_endian n (acc * 256 + b) p

-- The number of `size` bytes at an offset.
unfoldable pub read : Bytes → ℕ → ℕ → Option ℕ
read p off size = big_endian size 0 (drop off p)

abbrev pub holds : Condition → ℕ → ℕ → Bool
holds jump_equal a v = a == v
holds jump_bits_set a v = not (bit_and a v == 0)

-- Continue with a value that was read; a read outside the packet ends the program with 0.
abbrev pub or_reject : Option ℕ → (ℕ → ℕ) → ℕ
or_reject none k = 0
or_reject (some v) k = k v

pub record Machine : Type 0 where
  pub run : List Instruction → ℕ → ℕ → Bytes → ℕ
  pub run_load_absolute :
      (off size : ℕ) (rest : List Instruction) (a x : ℕ) (p : Bytes)
      → run (load_absolute off size ∷ rest) a x p
        ≡ or_reject (read p off size) (λ v. run rest v x p)
  pub run_load_indirect :
      (off size : ℕ) (rest : List Instruction) (a x : ℕ) (p : Bytes)
      → run (load_indirect off size ∷ rest) a x p
        ≡ or_reject (read p (x + off) size) (λ v. run rest v x p)
  pub run_load_mem_shift :
      (off : ℕ) (rest : List Instruction) (a x : ℕ) (p : Bytes)
      → run (load_mem_shift off ∷ rest) a x p
        ≡ or_reject (read p off 1) (λ v. run rest a (4 * (v % 16)) p)
  pub run_load_constant_a :
      (v : ℕ) (rest : List Instruction) (a x : ℕ) (p : Bytes)
      → run (load_constant_a v ∷ rest) a x p ≡ run rest v x p
  pub run_load_constant_x :
      (v : ℕ) (rest : List Instruction) (a x : ℕ) (p : Bytes)
      → run (load_constant_x v ∷ rest) a x p ≡ run rest a v p
  pub run_add :
      (rest : List Instruction) (a x : ℕ) (p : Bytes)
      → run (alu_op_x_add ∷ rest) a x p ≡ run rest ((a + x) % 2 ^ 32) x p
  pub run_tax :
      (rest : List Instruction) (a x : ℕ) (p : Bytes) → run (tax ∷ rest) a x p ≡ run rest a a p
  pub run_jump :
      (n : ℕ) (rest : List Instruction) (a x : ℕ) (p : Bytes)
      → run (jump n ∷ rest) a x p ≡ run (drop n rest) a x p
  pub run_jump_if :
      (c : Condition) (v t f : ℕ) (rest : List Instruction) (a x : ℕ) (p : Bytes)
      → run (jump_if c v t f ∷ rest) a x p
        ≡ (if holds c a v then run (drop t rest) a x p else run (drop f rest) a x p)
  pub run_ret_constant :
      (v : ℕ) (rest : List Instruction) (a x : ℕ) (p : Bytes)
      → run (ret_constant v ∷ rest) a x p ≡ v

abbrev pub magic_cookie : ℕ
magic_cookie = 0x2112a442

-- The instructions from the first read of the UDP header on.
abbrev pub udp_instructions : ℕ → List Instruction
udp_instructions port =
    load_indirect 2 2
    ∷ jump_if jump_equal port 0 5
    ∷ load_indirect 8 1
    ∷ jump_if jump_bits_set 128 2 0
    ∷ load_indirect 12 4
    ∷ jump_if jump_equal magic_cookie 0 1
    ∷ ret_constant (2 ^ 18)
    ∷ ret_constant 0
    ∷ []

-- generateInstructions
abbrev pub generate_instructions : ℕ → List Instruction
generate_instructions port =
    load_absolute 12 2
    ∷ jump_if jump_equal 0x86dd 0 4
    ∷ load_absolute 20 1
    ∷ jump_if jump_equal 0x11 0 18
    ∷ load_constant_x 54
    ∷ jump 9
    ∷ jump_if jump_equal 0x800 0 15
    ∷ load_absolute 23 1
    ∷ jump_if jump_equal 0x11 0 13
    ∷ load_absolute 20 2
    ∷ jump_if jump_bits_set 0x1fff 11 0
    ∷ load_mem_shift 14
    ∷ load_constant_a 14
    ∷ alu_op_x_add
    ∷ tax
    ∷ udp_instructions port
