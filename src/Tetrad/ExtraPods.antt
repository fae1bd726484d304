-- ===== src/Tetrad/ExtraPods.antt =====
-- Reconcile and the handlers of tetrad/controllers/extrapodcidrsync_controller.go: a claim for each template that
-- the annotation of a pod of the node names. `split` and `trim` are strings.Split at commas and
-- strings.TrimSpace, and `sha1_hex` is the text of the SHA-1 sum.
pub mod Written
pub mod Deleted
use tetrapod.Base.{
  ◌≡◌, Bool, true, false, ◌&&◌, not, List, [], ◌∷◌, Option, none, some, if◌then◌else◌, is_yes,
}
use tetrapod.Base.Bytes.{Bytes, Bytes-discrete}
use tetrapod.Pkg.Syncmap.{store}
use tetrapod.Tetrad.Labels.{
  Labels, Key-discrete, template_name, is_empty, extra_pod_cidr_type_for_node,
  extra_pod_cidr_type_for_node_all, namespaced_name_from_extra_pod_cidr,
  extra_pod_cidr_template_names,
}
use tetrapod.Tetrad.Names.{claim_name}
use tetrapod.Tetrad.Api.{Api, Object}
use tetrapod.Tetrad.Claimer.{mutate, mismatch}

-- The calls of Reconcile for one template.
pub data Call : Type 0 where
  gets_template upserts : Call

-- What Get says of the pod, with the annotation of its templates.
pub data Pod : Type 0 where
  unknown : Pod
  not_found : Pod
  annotated : Bytes → Pod

module _ (cluster_name node_name : Bytes) where
  -- claim.Labels
  unfoldable pub extra_labels : Bytes → Bytes → Bytes → Labels
  unfolding extra_pod_cidr_type_for_node store Key-discrete
  extra_labels namespace name template =
      store Key-discrete template_name template
        (extra_pod_cidr_type_for_node cluster_name node_name namespace name template)

  -- cidrClaimHandler: the pod to reconcile when a claim with these labels changed.
  unfoldable pub cidr_claim_event : Labels → Option (Bytes × Bytes)
  unfolding mismatch extra_pod_cidr_type_for_node_all namespaced_name_from_extra_pod_cidr
  cidr_claim_event object =
      if mismatch (extra_pod_cidr_type_for_node_all cluster_name node_name []) object
      then none
      else some (namespaced_name_from_extra_pod_cidr object)

  -- podHandler, for a pod of a node, with the annotation of its templates, a namespace and a name.
  unfoldable pub pod_event : Bytes → Bytes → Bytes → Bytes → Option (Bytes × Bytes)
  unfolding Bytes-discrete
  pod_event pod_node annotation namespace name =
      if not (is_yes (Bytes-discrete pod_node node_name))
      then none
      else if is_empty annotation
      then none
      else some (namespace, name)

  module _ {Selector : Type 0} (api : Api Selector) (sha1_hex : Bytes → Bytes)
      (split : Bytes → List Bytes) (trim : Bytes → Bytes) (answers : Bytes → Call → Bool)
      (namespace name : Bytes) where
    -- The loop over the templates, with the owner: the server then, and whether there was no error.
    unfoldable pub sync_templates : Option Bytes → List Bytes → api.Server → api.Server × Bool
    unfolding mutate claim_name extra_labels
    sync_templates self_node [] s = (s, true)
    sync_templates self_node (t ∷ ts) s =
        let template = trim t in
        if not (answers template gets_template)
        then (s, false)
        else elim (api.template template s) [
          | none ↦ (s, false)
          | some tmpl ↦
              if not (answers template upserts)
              then (s, false)
              else elim (api.create_or_update
                  (claim_name sha1_hex cluster_name node_name namespace name template)
                  (mutate api (extra_labels namespace name) self_node tmpl template) s) [
                    | none ↦ (s, false)
                    | some r ↦ sync_templates self_node ts r.1
                  ]
        ]

    -- Reconcile. `deletes` and `gets_node` say whether DeleteAllOf and the Get of the PeerNode reach the server.
    unfoldable pub reconcile_pod : Bool → Bool → Pod → api.Server → api.Server × Bool
    unfolding sync_templates extra_pod_cidr_type_for_node extra_pod_cidr_template_names
    reconcile_pod deletes gets_node unknown s = (s, false)
    reconcile_pod deletes gets_node not_found s =
        if deletes
        then (
          api.delete_all_of (extra_pod_cidr_type_for_node cluster_name node_name namespace name [])
              s,
          true,
        )
        else (s, false)
    reconcile_pod deletes gets_node (annotated annotation) s =
        if gets_node
        then sync_templates (api.self_node s) (extra_pod_cidr_template_names split trim annotation)
            s
        else (s, false)
