-- ===== src/Controlplane/CidrClaim/Overlap.antt =====
-- Reconcile gives no address of a block to two claims.
use tetrapod.Base.{
  Bool, true, false, ◌≡◌, ◌≢◌, refl, List, [], ◌∷◌, Option, none, some, In, inl, inr, arith, subst,
  ap, ◌∙◌,
}
use tetrapod.Base.Bytes.{Bytes}
use tetrapod.Controlplane.Ipaddrutil.{IpLib, any_covers}
use tetrapod.Controlplane.CidrClaim.{
  Claim, CidrBlock, used_blocks, allocate, claims_of, without_self, bind, bound, reconcile, patched,
  selected, claim_is_ready, ready,
}
use tetrapod.Controlplane.CidrClaim.Allocation.{allocate_within_block}

module _ {Selector : Type 0} (ip : IpLib) where
  used_blocks-covers :
      (n : Bytes) (cs : List (Claim Selector)) (d : Claim Selector) (u : ip.Block) (a : ip.Address)
      → In d cs
      → d.status.cidr_block_name ≡ n
      → n ≢ []
      → ip.parse d.status.cidr ≡ some u
      → any_covers ip.covers (used_blocks ip (claims_of n cs)) a ≡ false
      → ip.covers u a ≡ false
  unfolding claims_of used_blocks
  used_blocks-covers n [] d u a i e ne p h = absurd i
  used_blocks-covers n (c ∷ cs) d u a (inl same) e ne p h =
      let name : c.status.cidr_block_name ≡ n = ap (λ x. x.status.cidr_block_name) same ∙ e in
      let text : ip.parse c.status.cidr ≡ some u = ap (λ x. ip.parse x.status.cidr) same ∙ p in
      ground arith
  used_blocks-covers n (c ∷ cs) d u a (inr i) e ne p h =
      ground (arith, used_blocks-covers n cs d u a i e ne p)

module _ {Selector : Type 0} where
  bound-ready :
      (claim : Claim Selector) (r : Option (Bytes × Bytes))
      → (bound claim r).0.status.state ≡ ready
      → r ≡ some ((bound claim r).0.status.cidr_block_name, (bound claim r).0.status.cidr)
  bound-ready claim none h = absurd (cc)
  bound-ready claim (some found) h = refl

module _ {Selector Labels : Type 0} (ip : IpLib) where
  -- A binding that ends in the state ready took what allocate found among the other claims.
  bind-ready :
      (claim : Claim Selector) (blocks : List (CidrBlock Labels)) (claims : List (Claim Selector))
      → let c = (bind ip claim blocks claims).0 in
        c.status.state ≡ ready
        → allocate ip claim.size_bit blocks (without_self claim.name claims)
          ≡ some (c.status.cidr_block_name, c.status.cidr)
  unfolding bind
  bind-ready claim [] claims h = absurd (cc)
  bind-ready claim (b ∷ bs) claims h =
      bound-ready claim (allocate ip claim.size_bit (b ∷ bs) (without_self claim.name claims)) h

  -- When the claim ends in the state ready, and the blocks have names: what it was given shares no address
  -- with what any other listed claim has of the same block.
  pub bind_no_overlap :
      (claim : Claim Selector) (blocks : List (CidrBlock Labels)) (claims : List (Claim Selector))
      → (d : Claim Selector) (s u : ip.Block) (a : ip.Address)
      → let c = (bind ip claim blocks claims).0 in
        c.status.state ≡ ready
        → c.status.cidr_block_name ≢ []
        → In d (without_self claim.name claims)
        → d.status.cidr_block_name ≡ c.status.cidr_block_name
        → ip.parse c.status.cidr ≡ some s
        → ip.parse d.status.cidr ≡ some u
        → ip.covers s a ≡ true
        → ip.covers u a ≡ false
  bind_no_overlap claim blocks claims d s u a h named i same p q cov =
      let c = (bind ip claim blocks claims).0 in
      let others = without_self claim.name claims in
      let (b, base, s', at, name, t, p', fits) =
        allocate_within_block ip claim.size_bit blocks others c.status.cidr_block_name c.status.cidr
          (bind-ready claim blocks claims h) in
      used_blocks-covers ip c.status.cidr_block_name others d u a i same named q
        (fits.1 a (subst (λ x. ip.covers x a ≡ true) (ground arith) cov)).1

  -- When the claim's generation was not observed, the claim is ready and its block is still among the
  -- matching ones, and the patch succeeds: the new generation counts as observed, and the claim keeps its
  -- CIDR, its block and the size it had, whatever size its specification asks for now.
  pub reconcile_keeps_ready :
      (selector_of : Selector → Option (Labels → Bool))
      → (shuffle : List (CidrBlock Labels) → List (CidrBlock Labels))
      → (claim : Claim Selector) (matches : Labels → Bool) (blocks : List (CidrBlock Labels))
      → (claims : Option (List (Claim Selector)))
      → claim.generation ≢ claim.status.observed_generation
      → selector_of claim.selector ≡ some matches
      → claim_is_ready claim matches (selected matches blocks) ≡ true
      → reconcile ip selector_of shuffle true (some (some claim)) (some blocks) claims
        ≡ patched
            (record claim {
              status = record claim.status { observed_generation = claim.generation };
            })
            false
  unfolding reconcile
  reconcile_keeps_ready selector_of shuffle claim matches blocks claims new sel r = ground arith
