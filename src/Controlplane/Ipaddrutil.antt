-- ===== src/Controlplane/Ipaddrutil.antt =====
-- controlplane/pkg/ipaddrutil. The library ipaddress-go is not the program's own: `IpLib` is what the
-- program calls of it, with the documented behaviour as laws on which addresses a block covers.
use tetrapod.Base.{
  ℕ, ◌+◌, ◌-◌, ◌≤◌, Bool, true, false, not, ◌&&◌, ◌||◌, ◌≡◌, refl, List, [], ◌∷◌, ◌++◌, Option,
  none, some, ltb, arith,
}
use tetrapod.Base.Bytes.{Bytes}

-- Some block of the list covers the address.
abbrev pub any_covers : {B A : Type 0} → (B → A → Bool) → List B → A → Bool
any_covers covers [] a = false
any_covers covers (b ∷ bs) a = covers b a || any_covers covers bs a

pub record IpLib : Type 1 where
  pub Block : Type 0
  pub Address : Type 0
  pub covers : Block → Address → Bool
  -- NewIPAddressString(text).GetAddress(), and String().
  pub parse : Bytes → Option Block
  pub string : Block → Bytes
  pub parse_string : (b : Block) → parse (string b) ≡ some b
  -- GetBitCount, and GetPrefixLen of a prefix block.
  pub bit_count : Block → ℕ
  pub prefix_len : Block → ℕ
  pub prefix_bound : (b : Block) → prefix_len b ≤ bit_count b
  -- Subtract, SpanWithPrefixBlocks and MergeToPrefixBlocks.
  pub subtract : Block → Block → List Block
  pub span : Block → List Block
  pub merge : Block → List Block → List Block
  pub subtract_covers :
      (b u : Block) (a : Address)
      → any_covers covers (subtract b u) a ≡ (covers b a && not (covers u a))
  pub span_covers : (b : Block) (a : Address) → any_covers covers (span b) a ≡ covers b a
  pub merge_covers :
      (b : Block) (bs : List Block) (a : Address)
      → any_covers covers (merge b bs) a ≡ (covers b a || any_covers covers bs a)
  -- SetPrefixLen(n).PrefixBlockIterator().Next()
  pub first_sub_block : Block → ℕ → Option Block
  pub sub_block_covers :
      (b s : Block) (n : ℕ) (a : Address)
      → first_sub_block b n ≡ some s
      → covers s a ≡ true
      → covers b a ≡ true
  pub sub_block_prefix :
      (b s : Block) (n : ℕ)
      → first_sub_block b n ≡ some s
      → prefix_len b ≤ n
      → (prefix_len s ≡ n) × (bit_count s ≡ bit_count b)
  -- SetPrefixLenZeroed(GetBitCount()), none when it is an error.
  pub network_address : Block → Option Block

module _ (ip : IpLib) where
  unfoldable pub subtract_each : List ip.Block → ip.Block → List ip.Block
  subtract_each [] u = []
  subtract_each (b ∷ bs) u = ip.subtract b u ++ subtract_each bs u

  unfoldable pub subtract_all : List ip.Block → List ip.Block → List ip.Block
  unfolding subtract_each
  subtract_all free [] = free
  subtract_all free (u ∷ used) = subtract_all (subtract_each free u) used

  unfoldable pub span_all : List ip.Block → List ip.Block
  span_all [] = []
  span_all (b ∷ bs) = ip.span b ++ span_all bs

  -- spanned[0].MergeToPrefixBlocks(spanned[1:]...). Every block has a spanning block, so `spanned` is not
  -- empty where it is indexed.
  abbrev pub merged : List ip.Block → List ip.Block
  merged [] = []
  merged (b ∷ bs) = ip.merge b bs

  unfoldable pub free_blocks : ip.Block → List ip.Block → List ip.Block
  unfolding subtract_all span_all
  free_blocks base used = merged (span_all (subtract_all (base ∷ []) used))

  -- The size of a block, as the number of its bits, is at least 0: a prefix is no longer than the address.
  unfoldable pub find_sub_block : List ip.Block → ℕ → Option ip.Block
  find_sub_block [] size_bit = none
  find_sub_block (b ∷ bs) size_bit = elim (ltb (ip.bit_count b - ip.prefix_len b) size_bit) [
    | true ↦ find_sub_block bs size_bit
    | false ↦ ip.first_sub_block b (ip.bit_count b - size_bit)
  ]

  pub append_covers :
      (bs cs : List ip.Block) (a : ip.Address)
      → any_covers ip.covers (bs ++ cs) a ≡ (any_covers ip.covers bs a || any_covers ip.covers cs a)
  append_covers [] cs a = refl
  append_covers (b ∷ bs) cs a = ground (arith, append_covers bs cs a)

  subtract_each_covers :
      (bs : List ip.Block) (u : ip.Block) (a : ip.Address)
      → any_covers ip.covers (subtract_each bs u) a
        ≡ (any_covers ip.covers bs a && not (ip.covers u a))
  unfolding subtract_each
  subtract_each_covers [] u a = refl
  subtract_each_covers (b ∷ bs) u a = ground (
    arith,
    append_covers (ip.subtract b u) (subtract_each bs u) a,
    ip.subtract_covers b u a,
    subtract_each_covers bs u a,
  )

  subtract_all_covers :
      (bs used : List ip.Block) (a : ip.Address)
      → any_covers ip.covers (subtract_all bs used) a
        ≡ (any_covers ip.covers bs a && not (any_covers ip.covers used a))
  unfolding subtract_all
  subtract_all_covers bs [] a = ground arith
  subtract_all_covers bs (u ∷ used) a =
      ground (arith, subtract_all_covers (subtract_each bs u) used a, subtract_each_covers bs u a)

  span_all_covers :
      (bs : List ip.Block) (a : ip.Address)
      → any_covers ip.covers (span_all bs) a ≡ any_covers ip.covers bs a
  unfolding span_all
  span_all_covers [] a = refl
  span_all_covers (b ∷ bs) a =
      ground
        (arith, append_covers (ip.span b) (span_all bs) a, ip.span_covers b a, span_all_covers bs a)

  merged_covers :
      (bs : List ip.Block) (a : ip.Address)
      → any_covers ip.covers (merged bs) a ≡ any_covers ip.covers bs a
  merged_covers [] a = refl
  merged_covers (b ∷ bs) a = ip.merge_covers b bs a

  -- The free blocks cover the addresses of the base that no used block covers, and no others.
  pub free_blocks-covers :
      (base : ip.Block) (used : List ip.Block) (a : ip.Address)
      → any_covers ip.covers (free_blocks base used) a
        ≡ (ip.covers base a && not (any_covers ip.covers used a))
  unfolding free_blocks
  free_blocks-covers base used a = ground (
    arith,
    merged_covers (span_all (subtract_all (base ∷ []) used)) a,
    span_all_covers (subtract_all (base ∷ []) used) a,
    subtract_all_covers (base ∷ []) used a,
  )

  -- What is found lies within the blocks.
  pub find_sub_block-covers :
      (bs : List ip.Block) (size_bit : ℕ) (s : ip.Block) (a : ip.Address)
      → find_sub_block bs size_bit ≡ some s
      → ip.covers s a ≡ true
      → any_covers ip.covers bs a ≡ true
  unfolding find_sub_block
  find_sub_block-covers [] size_bit s a h c = ground arith
  find_sub_block-covers (b ∷ bs) size_bit s a h c = ground (
    arith,
    find_sub_block-covers bs size_bit s a,
    ip.sub_block_covers b s (ip.bit_count b - size_bit) a,
  )

  -- The block found leaves exactly `size_bit` bits for its addresses: it has 2^size_bit of them.
  pub find_sub_block_size :
      (bs : List ip.Block) (size_bit : ℕ) (s : ip.Block)
      → find_sub_block bs size_bit ≡ some s
      → ip.prefix_len s + size_bit ≡ ip.bit_count s
  unfolding find_sub_block
  find_sub_block_size [] size_bit s h = ground arith
  find_sub_block_size (b ∷ bs) size_bit s h = ground (
    arith,
    find_sub_block_size bs size_bit s,
    ip.prefix_bound b,
    ip.sub_block_prefix b s (ip.bit_count b - size_bit),
  )
