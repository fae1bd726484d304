-- ===== src/Tetrad/ExtraPods/Deleted.antt =====
-- The claims of a pod that is gone.
use tetrapod.Base.{◌≡◌, ◌≢◌, refl, sym, ◌∙◌, true, ◌&&◌, List, [], ◌∷◌, some, is_yes, arith}
use tetrapod.Base.Bytes.{Bytes, Bytes-discrete}
use tetrapod.Pkg.Syncmap.{load, store}
use tetrapod.Tetrad.Labels.{
  Key-discrete, for_node, typed_for_node, extra_pod_cidr_type_for_node,
  extra_pod_cidr_type_for_node_all, selects, namespaced_name_from_extra_pod_cidr,
}
use tetrapod.Tetrad.Api.{Api, Object, kept-labels}
use tetrapod.Tetrad.Claimer.{mismatch}
use tetrapod.Tetrad.ExtraPods.{not_found, extra_labels, cidr_claim_event, reconcile_pod}

-- The selector of a pod's claims on the labels of any pod's claim on the node.
selects-extra_labels :
    (cluster_name node_name namespace name other_namespace other_name template : Bytes)
    → selects
        (extra_pod_cidr_type_for_node cluster_name node_name namespace name [])
        (extra_labels cluster_name node_name other_namespace other_name template)
      ≡ (is_yes (Bytes-discrete other_name name)
          && is_yes (Bytes-discrete other_namespace namespace))
unfolding selects extra_pod_cidr_type_for_node extra_pod_cidr_type_for_node_all typed_for_node
    for_node extra_labels store load Key-discrete Bytes-discrete
selects-extra_labels cluster_name node_name namespace name other_namespace other_name [] =
    ground arith
selects-extra_labels cluster_name node_name namespace name other_namespace other_name (c ∷ cs) =
    ground arith

event-extra_labels :
    (cluster_name node_name namespace name template : Bytes)
    → cidr_claim_event cluster_name node_name
        (extra_labels cluster_name node_name namespace name template)
      ≡ some (namespace, name)
unfolding cidr_claim_event mismatch namespaced_name_from_extra_pod_cidr extra_pod_cidr_type_for_node
    extra_pod_cidr_type_for_node_all typed_for_node for_node extra_labels store load Key-discrete
    Bytes-discrete
event-extra_labels cluster_name node_name namespace name [] = ground arith
event-extra_labels cluster_name node_name namespace name (c ∷ cs) = ground arith

module _ {Selector : Type 0} (api : Api Selector) (cluster_name node_name : Bytes)
    (sha1_hex : Bytes → Bytes) (split : Bytes → List Bytes) (trim : Bytes → Bytes) where
  -- For a pod that is not there, where the call is answered, Reconcile leaves no claim with the labels of
  -- the pod for any template, and keeps every claim with the labels of another pod. A change of a claim with the
  -- labels of a pod leads to that pod's Reconcile.
  pub reconcile_pod_deletes :
      (namespace name : Bytes) (s : api.Server)
      → (s' : api.Server) × (reconcile_pod cluster_name node_name api sha1_hex split trim
            (λ t c. true)
            namespace
            name
            true
            true
            not_found
            s
          ≡ (s', true))
        × ((n template : Bytes) (o : Object Selector)
            → api.get n s' ≡ some o
            → o.labels ≢ extra_labels cluster_name node_name namespace name template)
        × ((n other_namespace other_name template : Bytes) (o : Object Selector)
            → api.get n s ≡ some o
            → o.labels ≡ extra_labels cluster_name node_name other_namespace other_name template
            → ((other_namespace ≡ namespace) × (other_name ≡ name) → ⊥)
            → api.get n s' ≡ some o)
        × ((template : Bytes)
            → cidr_claim_event cluster_name node_name
                (extra_labels cluster_name node_name namespace name template)
              ≡ some (namespace, name))
  unfolding reconcile_pod
  reconcile_pod_deletes namespace name s =
      let l = extra_pod_cidr_type_for_node cluster_name node_name namespace name [] in
      (
        api.delete_all_of l s,
        refl,
        λ n template o h e.
            let left = kept-labels l (api.get n s) o (sym (api.get-delete_all_of l n s) ∙ h) in
            absurd (
              ground (
                arith,
                left.0,
                e,
                selects-extra_labels cluster_name node_name namespace name namespace name template,
              )),
        λ n other_namespace other_name template o h e d. ground (
          arith,
          api.get-delete_all_of l n s,
          selects-extra_labels cluster_name node_name namespace name other_namespace other_name
              template,
        ),
        λ template. event-extra_labels cluster_name node_name namespace name template,
      )
