-- ===== src/Tetrad/PeersSync/Claimed.antt =====
-- Which claims and which nodes the loops of PeersSync pick.
use tetrapod.Base.{
  Bool, true, false, ◌&&◌, ◌≡◌, refl, ap, sym, ◌∙◌, List, [], ◌∷◌, Option, some, In, inl, inr,
  arith, if◌then◌else◌, Bool-cases, Option-cases, ◌⊎◌,
}
use tetrapod.Base.Bytes.{Bytes}
use tetrapod.Controlplane.CidrClaim.{is_ready}
use tetrapod.Tetraengine.{EnginePeer}
use tetrapod.Tetrad.Labels.{Labels}
use tetrapod.Tetrad.Api.{Object}
use tetrapod.Tetrad.PeersSync.{PeerNode, ready_cidrs, peer_config, peer_configs}

module _ {Selector : Type 0} where
  -- The objects of a list whose labels are matched: what List answers with for a selector.
  abbrev pub matching : (Labels → Bool) → List (Object Selector) → List (Object Selector)
  matching p [] = []
  matching p (o ∷ all) = if p o.labels then o ∷ matching p all else matching p all

  pub In-matching :
      (p : Labels → Bool) (all : List (Object Selector)) (o : Object Selector)
      → In o all
      → p o.labels ≡ true
      → In o (matching p all)
  In-matching p [] o i m = absurd i
  In-matching p (q ∷ all) o (inl e) m =
      let t : p q.labels ≡ true = ap (λ r. p r.labels) e ∙ m in rw t (inl e)
  In-matching p (q ∷ all) o (inr i) m = elim (Bool-cases (p q.labels)) [
    | inl t ↦ rw t (inr (In-matching p all o i m))
    | inr f ↦ rw f (In-matching p all o i m)
  ]

  pub matching-In :
      (p : Labels → Bool) (all : List (Object Selector)) (o : Object Selector)
      → In o (matching p all)
      → In o all × (p o.labels ≡ true)
  matching-In p [] o i = absurd i
  matching-In p (q ∷ all) o i = by_match (p q.labels) refl (matching-In p all o) i
    where
      by_match :
          (b : Bool)
          → p q.labels ≡ b
          → (In o (matching p all) → In o all × (p o.labels ≡ true))
          → In o (if b then q ∷ matching p all else matching p all)
          → In o (q ∷ all) × (p o.labels ≡ true)
      by_match true t behind (inl e) = (inl e, sym (ap (λ r. p r.labels) e) ∙ t)
      by_match true t behind (inr j) = let r = behind j in (inr r.0, r.1)
      by_match false t behind j = let r = behind j in (inr r.0, r.1)

  pub In-ready_cidrs :
      (p : Labels → Bool) (claims : List (Object Selector)) (o : Object Selector)
      → In o claims
      → is_ready o.claim.status.state ≡ true
      → p o.labels ≡ true
      → In o.claim.status.cidr (ready_cidrs p claims)
  unfolding ready_cidrs
  In-ready_cidrs p [] o i r m = absurd i
  In-ready_cidrs p (q ∷ claims) o (inl e) r m =
      let t : (is_ready q.claim.status.state && p q.labels) ≡ true =
        ap (λ s. is_ready s.claim.status.state && p s.labels) e ∙ ground arith in
      rw t (inl (ap (λ s. s.claim.status.cidr) e))
  In-ready_cidrs p (q ∷ claims) o (inr i) r m =
      elim (Bool-cases (is_ready q.claim.status.state && p q.labels)) [
        | inl t ↦ rw t (inr (In-ready_cidrs p claims o i r m))
        | inr f ↦ rw f (In-ready_cidrs p claims o i r m)
      ]

  -- A claim of a list that is ready and matched, with the CIDR.
  abbrev pub ReadyClaim : (Labels → Bool) → List (Object Selector) → Bytes → Type 0
  ReadyClaim p claims cidr =
      (o : Object Selector) × In o claims
      × (is_ready o.claim.status.state ≡ true)
      × (p o.labels ≡ true)
      × (o.claim.status.cidr ≡ cidr)

  pub ready_cidrs-In :
      (p : Labels → Bool) (claims : List (Object Selector)) (cidr : Bytes)
      → In cidr (ready_cidrs p claims)
      → ReadyClaim p claims cidr
  unfolding ready_cidrs
  ready_cidrs-In p [] cidr i = absurd i
  ready_cidrs-In p (q ∷ claims) cidr i =
      by_test (is_ready q.claim.status.state && p q.labels) refl (ready_cidrs-In p claims cidr) i
    where
      later : ReadyClaim p claims cidr → ReadyClaim p (q ∷ claims) cidr
      later (o, k, r, m, c) = (o, inr k, r, m, c)

      by_test :
          (b : Bool)
          → (is_ready q.claim.status.state && p q.labels) ≡ b
          → (In cidr (ready_cidrs p claims) → ReadyClaim p claims cidr)
          → In cidr (if b then q.claim.status.cidr ∷ ready_cidrs p claims else ready_cidrs p claims)
          → ReadyClaim p (q ∷ claims) cidr
      by_test true t behind (inl e) = (q, inl refl, ground arith, ground arith, e)
      by_test true t behind (inr j) = later (behind j)
      by_test false t behind j = later (behind j)

  module _ (selector_of : Selector → Option (Labels → Bool))
      (list_claims : (Labels → Bool) → Option (List (Object Selector)))
      (all : List (Object Selector))
      (lists : (p : Labels → Bool) → list_claims p ≡ some (matching p all)) where
    -- A node adds at most one configuration in front of those of the nodes behind it.
    configs-cons :
        (nd : PeerNode Selector) (nodes : List (PeerNode Selector)) (rest : List EnginePeer)
        → peer_configs selector_of list_claims nodes ≡ some rest
        → (peer_configs selector_of list_claims (nd ∷ nodes) ≡ some rest)
          ⊎ ((pc : EnginePeer) × (peer_configs selector_of list_claims (nd ∷ nodes)
                ≡ some (pc ∷ rest)))
    unfolding peer_configs
    configs-cons nd nodes rest h = elim (Option-cases (selector_of nd.claims_selector)) [
      | inl n ↦ inl (ground arith)
      | inr (c, n) ↦ elim (Option-cases (selector_of nd.addresses_selector)) [
        | inl m ↦ inl (ground arith)
        | inr (a, m) ↦ inr (peer_config nd a (matching c all), ground (arith, lists c))
      ]
    ]

    pub peer_configs_total :
        (nodes : List (PeerNode Selector))
        → (pcs : List EnginePeer) × (peer_configs selector_of list_claims nodes ≡ some pcs)
    unfolding peer_configs
    peer_configs_total [] = ([], refl)
    peer_configs_total (nd ∷ nodes) =
        let (rest, h) = peer_configs_total nodes in
        elim (configs-cons nd nodes rest h) [ inl e ↦ (rest, e) | inr (pc, e) ↦ (pc ∷ rest, e) ]

    pub In-peer_configs :
        (nodes : List (PeerNode Selector)) (nd : PeerNode Selector) (c a : Labels → Bool)
        (pcs : List EnginePeer)
        → In nd nodes
        → selector_of nd.claims_selector ≡ some c
        → selector_of nd.addresses_selector ≡ some a
        → peer_configs selector_of list_claims nodes ≡ some pcs
        → In (peer_config nd a (matching c all)) pcs
    unfolding peer_configs
    In-peer_configs [] nd c a pcs i hc ha h = absurd i
    In-peer_configs (x ∷ nodes) nd c a pcs (inl e) hc ha h =
        let (rest, g) = peer_configs_total nodes in
        let xc : selector_of x.claims_selector ≡ some c =
          ap (λ n. selector_of n.claims_selector) e ∙ hc in
        let xa : selector_of x.addresses_selector ≡ some a =
          ap (λ n. selector_of n.addresses_selector) e ∙ ha in
        let front : peer_configs selector_of list_claims (x ∷ nodes)
            ≡ some (peer_config x a (matching c all) ∷ rest) =
          ground (arith, lists c) in
        let same : (peer_config x a (matching c all) ∷ rest) ≡ pcs = cc in
        rw (sym same) (inl (ap (λ n. peer_config n a (matching c all)) e))
    In-peer_configs (x ∷ nodes) nd c a pcs (inr i) hc ha h =
        let (rest, g) = peer_configs_total nodes in
        let deeper = In-peer_configs nodes nd c a rest i hc ha g in
        elim (configs-cons x nodes rest g) [
          | inl e ↦ let same : rest ≡ pcs = cc in rw (sym same) deeper
          | inr (pc, e) ↦ let same : (pc ∷ rest) ≡ pcs = cc in rw (sym same) (inr deeper)
        ]
