-- ===== src/Controlplane/CidrClaim/Allocation.antt =====
-- allocate: what it finds lies in a listed block and clear of the addresses of the other claims.
use tetrapod.Base.{
  ℕ, ◌+◌, true, false, ◌≡◌, refl, List, [], ◌∷◌, ◌++◌, some, ◌==◌, In, inl, inr, arith, Bool-cases,
  Option-cases, ap, sym, subst, ◌∙◌, append-nil,
}
use tetrapod.Base.Bytes.{Bytes}
use tetrapod.Controlplane.Ipaddrutil.{
  IpLib, any_covers, free_blocks, find_sub_block, append_covers, free_blocks-covers,
  find_sub_block-covers, find_sub_block_size,
}
use tetrapod.Controlplane.CidrClaim.{
  Claim, CidrBlock, used_blocks, allocate_in, allocate, claims_of,
}

-- `s` has 2^size_bit addresses, all of them in `base` and none of them in `used`.
abbrev pub Fits : (ip : IpLib) → ℕ → ip.Block → List ip.Block → ip.Block → Type 0
Fits ip size_bit base used s =
    (ip.prefix_len s + size_bit ≡ ip.bit_count s)
    × ((a : ip.Address)
        → ip.covers s a ≡ true
        → (ip.covers base a ≡ true) × (any_covers ip.covers used a ≡ false))

module _ (ip : IpLib) where
  find_sub_block-Fits :
      (size_bit : ℕ) (used extra : List ip.Block) (base s : ip.Block)
      → find_sub_block ip (free_blocks ip base (used ++ extra)) size_bit ≡ some s
      → Fits ip size_bit base used s
  find_sub_block-Fits size_bit used extra base s h = (
    find_sub_block_size ip (free_blocks ip base (used ++ extra)) size_bit s h,
    λ a c. ground (
      arith,
      find_sub_block-covers ip (free_blocks ip base (used ++ extra)) size_bit s a h c,
      free_blocks-covers ip base (used ++ extra) a,
      append_covers ip used extra a,
    ),
  )

module _ {Selector : Type 0} (ip : IpLib) where
  allocate_in-excludes :
      (size_bit : ℕ) (claims : List (Claim Selector)) (base s : ip.Block)
      → allocate_in ip size_bit claims base ≡ some s
      → (extra : List ip.Block) × (find_sub_block ip
            (free_blocks ip base (used_blocks ip claims ++ extra))
            size_bit
          ≡ some s)
  unfolding allocate_in
  allocate_in-excludes size_bit claims base s h = elim (Bool-cases (size_bit == 0)) [
    | inr n ↦ ([], rw (append-nil (used_blocks ip claims)) (ground arith))
    | inl z ↦ elim (Option-cases (ip.network_address base)) [
      | inl e ↦ absurd (ground arith)
      | inr (first, e) ↦ (first ∷ [], ground arith)
    ]
  ]

  pub allocate_in-Fits :
      (size_bit : ℕ) (claims : List (Claim Selector)) (base s : ip.Block)
      → allocate_in ip size_bit claims base ≡ some s
      → Fits ip size_bit base (used_blocks ip claims) s
  allocate_in-Fits size_bit claims base s h =
      let (extra, e) = allocate_in-excludes size_bit claims base s h in
      find_sub_block-Fits ip size_bit (used_blocks ip claims) extra base s e

module _ {Selector Labels : Type 0} (ip : IpLib) where
  -- `cidr` is the text of addresses that fit into one of the blocks, which is named `n`.
  abbrev pub Allocated :
      ℕ → List (CidrBlock Labels) → List (Claim Selector) → Bytes → Bytes → Type 0
  Allocated size_bit blocks claims n cidr =
      (b : CidrBlock Labels) × (base : ip.Block) × (s : ip.Block) × In b blocks
      × (b.name ≡ n)
      × (ip.parse b.cidr ≡ some base)
      × (ip.parse cidr ≡ some s)
      × Fits ip size_bit base (used_blocks ip (claims_of n claims)) s

  later :
      (size_bit : ℕ) (claims : List (Claim Selector)) (n cidr : Bytes) (b : CidrBlock Labels)
      (bs : List (CidrBlock Labels))
      → Allocated size_bit bs claims n cidr
      → Allocated size_bit (b ∷ bs) claims n cidr
  later size_bit claims n cidr b bs (b', base, s, i, m, p, q, fits) =
      (b', base, s, inr i, m, p, q, fits)

  -- What allocate finds is the name of a listed block and the text of addresses: 2^size_bit of them, all
  -- within the block's CIDR, none of them in the CIDR of a claim that has addresses of that block.
  pub allocate_within_block :
      (size_bit : ℕ) (blocks : List (CidrBlock Labels)) (claims : List (Claim Selector))
      → (n cidr : Bytes) → allocate ip size_bit blocks claims ≡ some (n, cidr)
      → Allocated size_bit blocks claims n cidr
  unfolding allocate
  allocate_within_block size_bit [] claims n cidr h = absurd (ground arith)
  allocate_within_block size_bit (b ∷ bs) claims n cidr h = elim (Option-cases (ip.parse b.cidr)) [
    | inl e ↦
        later size_bit claims n cidr b bs
          (allocate_within_block size_bit bs claims n cidr (ground arith))
    | inr (base, e) ↦ elim (Option-cases (allocate_in ip size_bit (claims_of b.name claims) base)) [
      | inl f ↦
          later size_bit claims n cidr b bs
            (allocate_within_block size_bit bs claims n cidr (ground arith))
      | inr (s, f) ↦
          let named : b.name ≡ n = ground arith in
          let text : ip.string s ≡ cidr = ground arith in
          (
            b,
            base,
            s,
            inl refl,
            named,
            e,
            ap ip.parse (sym text) ∙ ip.parse_string s,
            subst (λ m. Fits ip size_bit base (used_blocks ip (claims_of m claims)) s) named
                (allocate_in-Fits ip size_bit (claims_of b.name claims) base s f),
          )
    ]
  ]
