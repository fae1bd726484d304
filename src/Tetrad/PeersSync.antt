-- ===== src/Tetrad/PeersSync.antt =====
-- tetrad/controllers/peernodesync_controller.go writes the node's own PeerNode, and
-- tetrad/controllers/peerssync_controller.go makes the engine's configuration from the PeerNodes and
-- CIDRClaims of all. LabelSelectors, their meaning and the calls of the server are arguments.
pub mod Claimed
pub mod Mesh
use tetrapod.Base.{
  ℕ, Bool, true, false, not, ◌&&◌, List, [], ◌∷◌, ◌++◌, Option, none, some, if◌then◌else◌, map,
}
use tetrapod.Base.Bytes.{Bytes}
use tetrapod.Controlplane.CidrClaim.{is_ready}
use tetrapod.Tetraengine.{EnginePeer, EngineConfig, LinkAddr}
use tetrapod.Tetrad.Labels.{Labels, for_node, node_type_for_node, selects}
use tetrapod.Tetrad.Api.{Object}
use tetrapod.Tetrad.Claimer.{mismatch}

pub record Attributes : Type 0 where
  pub host_name : Bytes
  pub os : Bytes
  pub arch : Bytes

-- PeerNode, with its labels.
pub record PeerNode (Selector : Type 0) : Type 0 where
  pub name : Bytes
  pub labels : Labels
  pub public_key : Bytes
  pub public_disco_key : Bytes
  pub attributes : Attributes
  pub endpoints : List Bytes
  pub static_routes : List Bytes
  pub claims_selector : Selector
  pub addresses_selector : Selector

-- 45 is '-'.
unfoldable pub peer_node_name : Bytes → Bytes → Bytes
peer_node_name cluster_name node_name = cluster_name ++ (45 ∷ node_name)

-- What Reconcile of PeersSync ends in.
pub data Synced : Type 0 where
  failed : Synced
  no_self_node : Synced
  reconfigured : EngineConfig → Synced

module _ {Selector : Type 0} where
  -- The function of PeerNodeSync's CreateOrUpdate. `match_labels` makes the selector of MatchLabels, `os` and
  -- `arch` are GOOS and GOARCH.
  unfoldable pub publish :
      (Labels → Selector)
      → Bytes
      → Bytes
      → Bytes
      → Bytes
      → List Bytes
      → EnginePeer
      → PeerNode Selector
      → PeerNode Selector
  unfolding for_node node_type_for_node
  publish match_labels os arch cluster_name node_name static_advertised_routes pc nd = record nd {
    labels = for_node cluster_name node_name;
    claims_selector = match_labels (for_node cluster_name node_name);
    addresses_selector = match_labels (node_type_for_node cluster_name node_name []);
    endpoints = pc.endpoints;
    public_disco_key = pc.public_disco_key;
    public_key = pc.public_key;
    attributes = record { host_name = node_name; os = os; arch = arch };
    static_routes = static_advertised_routes;
  }

  -- Reconcile of PeerNodeSync, before the engine told of itself and after; none is an error.
  unfoldable pub reconcile_peer_node :
      {S : Type 0}
      → (Bytes → (PeerNode Selector → PeerNode Selector) → S → Option S)
      → (Labels → Selector)
      → Bytes
      → Bytes
      → Bytes
      → Bytes
      → List Bytes
      → Option EnginePeer
      → S
      → Option S
  unfolding publish peer_node_name
  reconcile_peer_node create_or_update match_labels os arch cluster_name node_name routes none s =
      some s
  reconcile_peer_node create_or_update match_labels os arch cluster_name node_name routes (some pc)
        s =
      create_or_update (peer_node_name cluster_name node_name)
        (publish match_labels os arch cluster_name node_name routes pc) s

  -- The list without the first node that has the labels; none where no node has.
  unfoldable pub without_self_node :
      Labels → List (PeerNode Selector) → Option (List (PeerNode Selector))
  unfolding mismatch
  without_self_node labels [] = none
  without_self_node labels (nd ∷ nodes) =
      let rest = without_self_node labels nodes in
      if mismatch labels nd.labels
      then elim rest [ none ↦ none | some others ↦ some (nd ∷ others) ]
      else some nodes

  -- The CIDRs of the claims that are ready and whose labels are matched.
  unfoldable pub ready_cidrs : (Labels → Bool) → List (Object Selector) → List Bytes
  ready_cidrs matches [] = []
  ready_cidrs matches (o ∷ claims) =
      if is_ready o.claim.status.state && matches o.labels
      then o.claim.status.cidr ∷ ready_cidrs matches claims
      else ready_cidrs matches claims

  -- The configuration of a peer, from its node and the claims that its claimsSelector lists.
  unfoldable pub peer_config :
      PeerNode Selector → (Labels → Bool) → List (Object Selector) → EnginePeer
  unfolding ready_cidrs
  peer_config nd addresses_selector claims = record {
    endpoints = nd.endpoints;
    public_key = nd.public_key;
    public_disco_key = nd.public_disco_key;
    addresses = ready_cidrs addresses_selector claims;
    allowed_ips = nd.static_routes ++ ready_cidrs (λ l. true) claims;
  }

  -- The loop of getSelfAddresses, with netlink.ParseAddr.
  unfoldable pub self_addresses : (Bytes → Option LinkAddr) → List (Object Selector) → List LinkAddr
  self_addresses parse_addr [] = []
  self_addresses parse_addr (o ∷ claims) =
      let rest = self_addresses parse_addr claims in
      if is_ready o.claim.status.state
      then elim (parse_addr o.claim.status.cidr) [ none ↦ rest | some a ↦ a ∷ rest ]
      else rest

  module _ (selector_of : Selector → Option (Labels → Bool))
      (list_claims : (Labels → Bool) → Option (List (Object Selector))) where
    -- The loop over the nodes; none where listing fails.
    unfoldable pub peer_configs : List (PeerNode Selector) → Option (List EnginePeer)
    unfolding peer_config
    peer_configs [] = some []
    peer_configs (nd ∷ nodes) =
        let rest = peer_configs nodes in
        elim (selector_of nd.claims_selector) [
          | none ↦ rest
          | some selector ↦ elim (selector_of nd.addresses_selector) [
            | none ↦ rest
            | some addresses_selector ↦ elim (list_claims selector) [
              | none ↦ none
              | some claims ↦ elim rest [
                | none ↦ none
                | some pcs ↦ some (peer_config nd addresses_selector claims ∷ pcs)
              ]
            ]
          ]
        ]

    unfoldable pub get_self_addresses :
        (Bytes → Option LinkAddr) → Bytes → Bytes → Option (List LinkAddr)
    unfolding self_addresses node_type_for_node selects
    get_self_addresses parse_addr cluster_name node_name =
        elim (list_claims (selects (node_type_for_node cluster_name node_name []))) [
          | none ↦ none
          | some claims ↦ some (self_addresses parse_addr claims)
        ]

    -- Reconcile of PeersSync. `nodes` is none where listing the PeerNodes fails.
    unfoldable pub reconcile_peers :
        (Bytes → Option LinkAddr)
        → Bytes
        → Bytes
        → Bytes
        → ℕ
        → Bytes
        → Option (List (PeerNode Selector))
        → Synced
    unfolding without_self_node peer_configs get_self_addresses for_node
    reconcile_peers parse_addr cluster_name node_name private_key listen_port stun_endpoint none =
        failed
    reconcile_peers parse_addr cluster_name node_name private_key listen_port stun_endpoint
          (some nodes) =
        elim (without_self_node (for_node cluster_name node_name) nodes) [
          | none ↦ no_self_node
          | some others ↦ elim (peer_configs others) [
            | none ↦ failed
            | some pcs ↦ elim (get_self_addresses parse_addr cluster_name node_name) [
              | none ↦ failed
              | some addrs ↦ reconfigured (record {
                private_key = private_key;
                listen_port = listen_port;
                stun_endpoint = stun_endpoint;
                addresses = addrs;
                peers = pcs;
              })
            ]
          ]
        ]
