-- ===== src/Tetrad/PeersSync/Mesh.antt =====
-- From the PeerNode that one node publishes to the peer that another node's engine is given.
use tetrapod.Base.{
  ℕ, Bool, true, false, ◌≡◌, ◌≢◌, refl, sym, ap, ◌∙◌, List, [], ◌∷◌, Option, some, In, inl, inr,
  ◌⊎◌, arith, Bool-cases, Option-cases, In-append_right, In-append_cases,
}
use tetrapod.Base.Bytes.{Bytes, Bytes-discrete}
use tetrapod.Pkg.Syncmap.{load, store}
use tetrapod.Controlplane.CidrClaim.{is_ready}
use tetrapod.Tetraengine.{EnginePeer, EngineConfig, LinkAddr}
use tetrapod.Tetrad.Labels.{
  Labels, Key-discrete, for_node, typed_for_node, node_type_for_node, pod_cidr_type_for_node,
  selects, node_kind, pod_cidr_kind,
}
use tetrapod.Tetrad.Api.{Object}
use tetrapod.Tetrad.Claimer.{mismatch}
use tetrapod.Tetrad.PeersSync.{
  PeerNode, reconfigured, publish, without_self_node, ready_cidrs, peer_config, self_addresses,
  get_self_addresses, reconcile_peers,
}
use tetrapod.Tetrad.PeersSync.Claimed.{
  matching, In-matching, matching-In, In-ready_cidrs, ready_cidrs-In, ReadyClaim,
  peer_configs_total, In-peer_configs,
}

-- What a configuration carries of the claims of a node.
pub record Carries {Selector : Type 0} (all : List (Object Selector))
    (cluster_name node_name : Bytes) (routes : List Bytes) (pc : EnginePeer) : Type 0 where
  -- Every ready claim of the node's own addresses is an address and an allowed IP.
  pub addresses :
      (o : Object Selector) (template : Bytes)
      → In o all
      → is_ready o.claim.status.state ≡ true
      → o.labels ≡ node_type_for_node cluster_name node_name template
      → In o.claim.status.cidr pc.addresses × In o.claim.status.cidr pc.allowed_ips
  -- Every ready claim of the addresses of its pods is an allowed IP.
  pub pods :
      (o : Object Selector) (template : Bytes)
      → In o all
      → is_ready o.claim.status.state ≡ true
      → o.labels ≡ pod_cidr_type_for_node cluster_name node_name template
      → In o.claim.status.cidr pc.allowed_ips
  -- Nothing else is allowed but the static routes, and ready claims with the node's labels.
  pub only :
      (cidr : Bytes)
      → In cidr pc.allowed_ips
      → In cidr routes ⊎ ReadyClaim (selects (for_node cluster_name node_name)) all cidr

selects-typed :
    (kind cluster_name node_name template : Bytes)
    → (selects
          (for_node cluster_name node_name)
          (typed_for_node kind cluster_name node_name template)
        ≡ true)
      × (selects
            (typed_for_node kind cluster_name node_name [])
            (typed_for_node kind cluster_name node_name template)
          ≡ true)
unfolding selects typed_for_node for_node store load Key-discrete Bytes-discrete
selects-typed kind cluster_name node_name [] = ground arith
selects-typed kind cluster_name node_name (c ∷ cs) = ground arith

mismatch-for_node :
    (cluster_name a b : Bytes)
    → (mismatch (for_node cluster_name a) (for_node cluster_name a) ≡ false)
      × (a ≢ b → mismatch (for_node cluster_name b) (for_node cluster_name a) ≡ true)
unfolding mismatch for_node load Key-discrete Bytes-discrete
mismatch-for_node cluster_name a b = ground arith

module _ {Selector : Type 0} where
  without_self_node_total :
      (l : Labels) (nodes : List (PeerNode Selector)) (self : PeerNode Selector)
      → In self nodes
      → mismatch l self.labels ≡ false
      → (others : List (PeerNode Selector)) × (without_self_node l nodes ≡ some others)
  unfolding without_self_node
  without_self_node_total l [] self i m = absurd i
  without_self_node_total l (x ∷ nodes) self (inl e) m =
      let here : mismatch l x.labels ≡ false = ap (λ n. mismatch l n.labels) e ∙ m in
      (nodes, ground arith)
  without_self_node_total l (x ∷ nodes) self (inr i) m =
      let (others, h) = without_self_node_total l nodes self i m in
      elim (Bool-cases (mismatch l x.labels)) [
        | inl t ↦ (x ∷ others, ground arith)
        | inr f ↦ (nodes, ground arith)
      ]

  -- A node without the labels stays.
  In-without_self_node :
      (l : Labels) (nodes others : List (PeerNode Selector)) (nd : PeerNode Selector)
      → without_self_node l nodes ≡ some others
      → In nd nodes
      → mismatch l nd.labels ≡ true
      → In nd others
  unfolding without_self_node
  In-without_self_node l [] others nd h i m = absurd i
  In-without_self_node l (x ∷ nodes) others nd h (inl e) m =
      let stays : mismatch l x.labels ≡ true = ap (λ n. mismatch l n.labels) e ∙ m in
      elim (Option-cases (without_self_node l nodes)) [
        | inl n ↦ absurd (ground arith)
        | inr (rest, n) ↦ let same : (x ∷ rest) ≡ others = ground arith in rw (sym same) (inl e)
      ]
  In-without_self_node l (x ∷ nodes) others nd h (inr i) m =
      elim (Bool-cases (mismatch l x.labels)) [
        | inr f ↦ let same : nodes ≡ others = ground arith in rw (sym same) i
        | inl t ↦ elim (Option-cases (without_self_node l nodes)) [
          | inl n ↦ absurd (ground arith)
          | inr (rest, n) ↦
              let same : (x ∷ rest) ≡ others = ground arith in
              rw (sym same) (inr (In-without_self_node l nodes rest nd n i m))
        ]
      ]

  -- What the configuration of a published node carries.
  peer_config-Carries :
      (match_labels : Labels → Selector) (os arch cluster_name node_name : Bytes)
      (routes : List Bytes) (told : EnginePeer) (old : PeerNode Selector)
      (all : List (Object Selector))
      → Carries all cluster_name node_name routes (
          peer_config
            (publish match_labels os arch cluster_name node_name routes told old)
            (selects (node_type_for_node cluster_name node_name []))
            (matching (selects (for_node cluster_name node_name)) all))
  unfolding peer_config publish node_type_for_node pod_cidr_type_for_node
  peer_config-Carries match_labels os arch cluster_name node_name routes told old all = record {
    addresses = λ o t i r l.
        let typed = selects-typed node_kind cluster_name node_name t in
        let listed =
          In-matching (selects (for_node cluster_name node_name)) all o i (rw l typed.0) in
        (
          In-ready_cidrs (selects (node_type_for_node cluster_name node_name [])) claims o listed r
              (rw l typed.1),
          In-append_right o.claim.status.cidr routes (ready_cidrs (λ l. true) claims)
              (In-ready_cidrs (λ l. true) claims o listed r refl),
        );
    pods = λ o t i r l.
        let typed = selects-typed pod_cidr_kind cluster_name node_name t in
        let listed =
          In-matching (selects (for_node cluster_name node_name)) all o i (rw l typed.0) in
        In-append_right o.claim.status.cidr routes (ready_cidrs (λ l. true) claims)
          (In-ready_cidrs (λ l. true) claims o listed r refl);
    only = λ cidr i. elim (In-append_cases cidr routes (ready_cidrs (λ l. true) claims) i) [
      | inl k ↦ inl k
      | inr k ↦
          let (o, listed, r, any, c) = ready_cidrs-In (λ l. true) claims cidr k in
          let (there, m) = matching-In (selects (for_node cluster_name node_name)) all o listed in
          inr (o, there, r, m, c)
    ];
  }
    where
      claims : List (Object Selector)
      claims = matching (selects (for_node cluster_name node_name)) all

module _ {Selector : Type 0} (match_labels : Labels → Selector)
    (selector_of : Selector → Option (Labels → Bool))
    (list_claims : (Labels → Bool) → Option (List (Object Selector)))
    (all : List (Object Selector)) where
  -- Two different nodes of a cluster whose PeerNodes are as PeerNodeSync published them, where the
  -- selector of MatchLabels matches as SelectorFromSet does, and List answers with the matching claims:
  -- Reconcile of PeersSync on one reconfigures the engine, with a peer of the keys and the endpoints that the
  -- other published. Every ready claim of the other's own addresses is an address and an allowed IP of
  -- that peer, and every ready claim for its pods an allowed IP; all its allowed IPs are its static routes and
  -- CIDRs of ready claims with its labels.
  pub published_node_is_peer :
      ((l : Labels) → selector_of (match_labels l) ≡ some (selects l))
      → ((p : Labels → Bool) → list_claims p ≡ some (matching p all))
      → (parse_addr : Bytes → Option LinkAddr)
      → (os arch cluster_name node_name other : Bytes) (own_routes routes : List Bytes)
      → (own told : EnginePeer) (old_self old : PeerNode Selector)
      → (private_key stun_endpoint : Bytes) (listen_port : ℕ) (nodes : List (PeerNode Selector))
      → other ≢ node_name
      → In (publish match_labels os arch cluster_name node_name own_routes own old_self) nodes
      → In (publish match_labels os arch cluster_name other routes told old) nodes
      → (cfg : EngineConfig) × (pc : EnginePeer) × (reconcile_peers selector_of list_claims
            parse_addr cluster_name node_name private_key listen_port stun_endpoint
            (some nodes)
          ≡ reconfigured cfg)
        × In pc cfg.peers
        × (pc.public_key ≡ told.public_key)
        × (pc.public_disco_key ≡ told.public_disco_key)
        × (pc.endpoints ≡ told.endpoints)
        × Carries all cluster_name other routes pc
  unfolding reconcile_peers get_self_addresses publish peer_config
  published_node_is_peer matches lists parse_addr os arch cluster_name node_name other own_routes
        routes own told old_self old private_key stun_endpoint listen_port nodes different i j =
      let self = publish match_labels os arch cluster_name node_name own_routes own old_self in
      let nd = publish match_labels os arch cluster_name other routes told old in
      let l = for_node cluster_name node_name in
      let (others, h) =
        without_self_node_total l nodes self i
          (mismatch-for_node cluster_name node_name node_name).0 in
      let among =
        In-without_self_node l nodes others nd h j
          ((mismatch-for_node cluster_name other node_name).1 different) in
      let (pcs, made) = peer_configs_total selector_of list_claims all lists others in
      let c = selects (for_node cluster_name other) in
      let a = selects (node_type_for_node cluster_name other []) in
      let own_claims = matching (selects (node_type_for_node cluster_name node_name [])) all in
      (
        record {
          private_key = private_key;
          listen_port = listen_port;
          stun_endpoint = stun_endpoint;
          addresses = self_addresses parse_addr own_claims;
          peers = pcs;
        },
        peer_config nd a (matching c all),
        ground (arith, lists (selects (node_type_for_node cluster_name node_name []))),
        In-peer_configs selector_of list_claims all lists others nd c a pcs among
            (matches (for_node cluster_name other))
            (matches (node_type_for_node cluster_name other [])) made,
        refl,
        refl,
        refl,
        peer_config-Carries match_labels os arch cluster_name other routes told old all,
      )
