-- ===== src/Controlplane/CidrClaim.antt =====
-- controlplane/controllers/cidrclaim_controller.go: a claim gets a block of addresses. The API server's
-- lists and the outcome of each of its calls are arguments; labels and selectors are Kubernetes' own.
-- A size of negative bits is not modelled.
pub mod Allocation
pub mod Overlap
use tetrapod.Base.{
  ℕ, Bool, true, false, not, ◌&&◌, ◌||◌, List, [], ◌∷◌, ◌++◌, Option, none, some, ◌==◌,
  if◌then◌else◌, is_yes,
}
use tetrapod.Base.Bytes.{Bytes, Bytes-discrete}
use tetrapod.Controlplane.Ipaddrutil.{IpLib, free_blocks, find_sub_block}

pub data State : Type 0 where
  unknown : State
  ready : State
  binding_error : State

-- What status.Message says.
pub data Message : Type 0 where
  no_message : Message
  selector_is_invalid : Message
  no_matching_block : Message
  no_available_block : Message

pub record Status : Type 0 where
  pub observed_generation : ℕ
  pub state : State
  pub message : Message
  pub cidr_block_name : Bytes
  pub cidr : Bytes
  pub size_bit : ℕ

pub record Claim (Selector : Type 0) : Type 0 where
  pub name : Bytes
  pub generation : ℕ
  pub selector : Selector
  pub size_bit : ℕ
  pub status : Status

pub record CidrBlock (Labels : Type 0) : Type 0 where
  pub name : Bytes
  pub labels : Labels
  pub cidr : Bytes

abbrev pub is_ready : State → Bool
is_ready unknown = false
is_ready ready = true
is_ready binding_error = false

abbrev pub same_name : Bytes → Bytes → Bool
same_name a b = is_yes (Bytes-discrete a b)

-- What Reconcile returns besides the error: whether it asks to be called again after a minute.
pub data Outcome (Selector : Type 0) : Type 0 where
  failed : Outcome Selector
  untouched : Outcome Selector
  patched : Claim Selector → Bool → Outcome Selector

module _ {Labels : Type 0} where
  -- The blocks of a list that a selector matches.
  unfoldable pub selected : (Labels → Bool) → List (CidrBlock Labels) → List (CidrBlock Labels)
  selected matches [] = []
  selected matches (b ∷ bs) =
      if matches b.labels then b ∷ selected matches bs else selected matches bs

  -- The loop of isReady: the last block of the name.
  unfoldable pub block_named :
      Bytes → Option (CidrBlock Labels) → List (CidrBlock Labels) → Option (CidrBlock Labels)
  unfolding Bytes-discrete
  block_named n block [] = block
  block_named n block (b ∷ bs) = block_named n (if same_name b.name n then some b else block) bs

module _ {Selector : Type 0} where
  -- The first claim of the name is left out.
  unfoldable pub without_self : Bytes → List (Claim Selector) → List (Claim Selector)
  unfolding Bytes-discrete
  without_self n [] = []
  without_self n (c ∷ cs) = if same_name c.name n then cs else c ∷ without_self n cs

  -- claims[name]: the claims that have addresses of the block. A claim with no block is in no list.
  unfoldable pub claims_of : Bytes → List (Claim Selector) → List (Claim Selector)
  unfolding Bytes-discrete
  claims_of n [] = []
  claims_of n (c ∷ cs) =
      if not (same_name c.status.cidr_block_name []) && same_name c.status.cidr_block_name n
      then c ∷ claims_of n cs
      else claims_of n cs

  -- updateStatus
  abbrev pub with_status : Claim Selector → Status → Claim Selector
  with_status claim status = record claim {
    status = record status { observed_generation = claim.generation };
  }

  -- The end of Reconcile, from what allocate returns: the claim, and whether to try again after a minute.
  abbrev pub bound : Claim Selector → Option (Bytes × Bytes) → Claim Selector × Bool
  bound claim none = (
    with_status claim (record claim.status { state = binding_error; message = no_available_block }),
    true,
  )
  bound claim (some found) = (
    with_status claim (record claim.status {
      state = ready;
      message = no_message;
      cidr = found.1;
      cidr_block_name = found.0;
      size_bit = claim.size_bit;
    }),
    false,
  )

  -- The patch of the status.
  abbrev patch : Bool → Claim Selector → Bool → Outcome Selector
  patch ok claim again = if ok then patched claim again else failed

module _ {Selector : Type 0} (ip : IpLib) where
  -- The addresses of the claims whose CIDR can be read.
  unfoldable pub used_blocks : List (Claim Selector) → List ip.Block
  used_blocks [] = []
  used_blocks (c ∷ cs) = elim (ip.parse c.status.cidr) [
    | none ↦ used_blocks cs
    | some u ↦ u ∷ used_blocks cs
  ]

  -- What a round of allocate tries to find in a block, with none where the round is skipped.
  unfoldable pub allocate_in : ℕ → List (Claim Selector) → ip.Block → Option ip.Block
  unfolding used_blocks free_blocks find_sub_block
  allocate_in size_bit claims base =
      if size_bit == 0
      then elim (ip.network_address base) [
        | none ↦ none
        | some first ↦
            find_sub_block ip (free_blocks ip base (used_blocks claims ++ first ∷ [])) size_bit
      ]
      else find_sub_block ip (free_blocks ip base (used_blocks claims)) size_bit

module _ {Selector Labels : Type 0} where
  unfoldable pub claim_is_ready : Claim Selector → (Labels → Bool) → List (CidrBlock Labels) → Bool
  unfolding block_named
  claim_is_ready claim matches blocks =
      is_ready claim.status.state && elim (block_named claim.status.cidr_block_name none blocks) [
        | none ↦ false
        | some b ↦ matches b.labels
      ]

module _ {Selector Labels : Type 0} (ip : IpLib) where
  -- The name of the block and the CIDR; none is the error "no available CIDRBlock".
  unfoldable pub allocate :
      ℕ → List (CidrBlock Labels) → List (Claim Selector) → Option (Bytes × Bytes)
  unfolding allocate_in claims_of
  allocate size_bit [] claims = none
  allocate size_bit (b ∷ bs) claims =
      let rest = allocate size_bit bs claims in
      elim (ip.parse b.cidr) [
        | none ↦ rest
        | some base ↦ elim (allocate_in ip size_bit (claims_of b.name claims) base) [
          | none ↦ rest
          | some s ↦ some (b.name, ip.string s)
        ]
      ]

  -- Reconcile once the claims are listed: `items` are the matching blocks in a random order.
  unfoldable pub bind :
      Claim Selector → List (CidrBlock Labels) → List (Claim Selector) → Claim Selector × Bool
  unfolding allocate without_self
  bind claim [] claims = (
    with_status claim (record claim.status { state = binding_error; message = no_matching_block }),
    true,
  )
  bind claim (b ∷ bs) claims =
      bound claim (allocate claim.size_bit (b ∷ bs) (without_self claim.name claims))

  -- Reconcile. `found` is what Get says of the claim: none an error, some none that there is no such claim.
  -- `selector_of` is LabelSelectorAsSelector, `shuffle` rand.Shuffle; the lists are none where listing
  -- fails, and `patch_ok` says whether the patch of the status succeeds.
  unfoldable pub reconcile :
      (Selector → Option (Labels → Bool))
      → (List (CidrBlock Labels) → List (CidrBlock Labels))
      → Bool
      → Option (Option (Claim Selector))
      → Option (List (CidrBlock Labels))
      → Option (List (Claim Selector))
      → Outcome Selector
  unfolding bind selected claim_is_ready
  reconcile selector_of shuffle patch_ok none blocks claims = failed
  reconcile selector_of shuffle patch_ok (some none) blocks claims = untouched
  reconcile selector_of shuffle patch_ok (some (some claim)) blocks claims =
      if claim.generation == claim.status.observed_generation && is_ready claim.status.state
      then untouched
      else elim (selector_of claim.selector) [
        | none ↦
            patch patch_ok
              (with_status claim
                (record claim.status { state = binding_error; message = selector_is_invalid }))
              false
        | some matches ↦ elim blocks [
          | none ↦ failed
          | some all_blocks ↦
              if claim_is_ready claim matches (selected matches all_blocks)
              then patch patch_ok (with_status claim claim.status) false
              else elim claims [
                | none ↦ failed
                | some listed ↦
                    let r = bind claim (shuffle (selected matches all_blocks)) listed in
                    patch patch_ok r.0 r.1
              ]
        ]
      ]
